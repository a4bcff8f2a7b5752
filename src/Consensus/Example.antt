-- ===== src/Consensus/Example.antt =====
-- One validator with a chain of its own, for the tests.
use tendermintx.Common.{
  ℤ, pos, negsuc, ◌+ℤ◌, Bytes, true, false, none, some, List, [], ◌∷◌, ◌++◌, Run, ok, panic,
}
use tendermintx.Types.BlockId.{BlockId}
use tendermintx.Types.Vote.{Vote, Proposal, SignedMsgType, prevote, precommit}
use tendermintx.VoteSet.Defs.{Crypto, ValidatorSet}
use tendermintx.HeightVoteSet.Defs.{HeightVoteSet, reset}
use tendermintx.Merkle.Padding.{pad, padding_hash}
use tendermintx.PartSet.{Part}
use tendermintx.Consensus.State.{
  Env, State, new_height, proposal_message, block_part_message, vote_message,
}
use tendermintx.Consensus.Events.{Event, message, tick, receive}

unfoldable pub easy_crypto : Crypto
easy_crypto = record {
  address_of = λ pk. pk;
  verify_bytes = λ pk b signature. true;
  marshal_vote = λ c. some [];
  marshal_parts = λ p. p.total ∷ p.hash;
}

abbrev pub one_validator : ValidatorSet
one_validator = record {
  validators = (record { address = 1 ∷ []; pub_key = 1 ∷ []; voting_power = 10 }) ∷ [];
  total_voting_power = 10;
}

-- A block is its bytes, and the chain its last height.
unfoldable pub easy_env : Env Bytes ℤ ValidatorSet Bytes
easy_env = record {
  block_hash = λ b. pad 32 (8 ∷ b);
  block_time = λ b. pos 5;
  block_height = λ b. pos 1;
  decode_block = λ b. some b;
  create_block =
      λ h c v a. some (4 ∷ [], record { total = 1; hash = []; parts = none ∷ []; count = 0 });
  validate_block = λ c b. true;
  check_block = λ b. true;
  apply_block = λ c id b. some (c +ℤ pos 1);
  is_empty = λ c. false;
  chain_id = λ c. [];
  last_block_height = λ c. c;
  next_validators = λ c. one_validator;
  last_validators = λ c. one_validator;
  time_iota = λ c. pos 1;
  members = λ v. v;
  increment_priority = λ n v. v;
  proposer_address = λ v. 1 ∷ [];
  index_of = λ v a. some (pos 0);
  verify_proposal = λ v c p. true;
  address = λ k. some k;
  sign_vote = λ c v k. (k, some (7 ∷ []));
  sign_proposal = λ c p k. (k, some (7 ∷ []));
  save_polc = λ v a b. true;
  write_end_height = λ h. true;
  wait_for_txs = false;
  create_empty_blocks_interval = pos 0;
  skip_timeout_commit = false;
}

abbrev pub begun_votes : Run HeightVoteSet → HeightVoteSet
begun_votes (ok h) = h
begun_votes panic = record {
  chain_id = [];
  height = pos 1;
  val_set = one_validator;
  round = pos 0;
  round_vote_sets = [];
  peer_catchup_rounds = [];
}

abbrev pub first_height : State Bytes ℤ ValidatorSet Bytes
first_height = record {
  height = pos 1;
  round = pos 0;
  step = new_height;
  validators = one_validator;
  proposal = none;
  proposal_block = none;
  proposal_block_parts = none;
  locked_round = negsuc 0;
  locked_block = none;
  locked_block_parts = none;
  valid_round = negsuc 0;
  valid_block = none;
  valid_block_parts = none;
  votes = begun_votes (reset [] (pos 1) one_validator);
  commit_round = negsuc 0;
  last_commit = none;
  last_validators = one_validator;
  triggered_timeout_precommit = false;
  chain = pos 0;
  signer = some (1 ∷ []);
  now = pos 0;
  store_height = pos 0;
  saved = [];
  queue = [];
  timeouts = [];
  polcs = [];
  evidence = [];
}

abbrev pub lone_part : Part
lone_part = record {
  index = 0;
  bytes = 4 ∷ [];
  proof = record {
    total = pos 1;
    index = pos 0;
    leaf_hash = some (pad 32 (0 ∷ 4 ∷ []));
    aunts = [];
  };
}

abbrev pub block_id : BlockId
block_id = record {
  hash = pad 32 (8 ∷ 4 ∷ []);
  parts = record { total = 1; hash = pad 32 (0 ∷ 4 ∷ []) };
}

abbrev pub own_proposal : Proposal
own_proposal = record {
  height = pos 1;
  round = pos 0;
  pol_round = negsuc 0;
  block_id = block_id;
  timestamp = pos 1;
  signature = 7 ∷ [];
}

abbrev pub own_vote : SignedMsgType → Vote
own_vote kind = record {
  kind = kind;
  height = pos 1;
  round = pos 0;
  block_id = block_id;
  timestamp = pos 9;
  validator_address = 1 ∷ [];
  validator_index = pos 0;
  signature = 7 ∷ [];
}

-- The round starts, the proposal and its part come, and the own votes come back.
abbrev pub opening : List (ℤ × Event)
opening =
    (pos 1, tick (record { height = pos 1; round = pos 0; step = new_height }))
    ∷ (pos 2, message [] (proposal_message own_proposal))
    ∷ (pos 3, message [] (block_part_message (pos 1) (pos 0) (some lone_part)))
    ∷ (pos 9, message [] (vote_message (own_vote prevote)))
    ∷ []

abbrev pub whole_height : List (ℤ × Event)
whole_height = opening ++ (pos 9, message [] (vote_message (own_vote precommit))) ∷ []

abbrev pub end_of : Run (State Bytes ℤ ValidatorSet Bytes) → State Bytes ℤ ValidatorSet Bytes
end_of (ok s) = s
end_of panic = first_height

abbrev pub locked_state : State Bytes ℤ ValidatorSet Bytes
locked_state = end_of (receive easy_env easy_crypto padding_hash opening first_height)

abbrev pub next_state : State Bytes ℤ ValidatorSet Bytes
next_state = end_of (receive easy_env easy_crypto padding_hash whole_height first_height)
