-- ===== src/VoteSet/Defs/Data.antt =====
-- The data, the constructors, and the votes of one block.
use tendermintx.Common.{
  ℕ, ℤ, pos, ◌+◌, ◌*◌, ◌/◌, Bytes, Bytes-discrete, Bool, true, false, Option, none, some, List, [],
  ◌∷◌, ◌==ℤ◌, if◌then◌else◌, holds, length, get_elem?, set, replicate, Run, ok, panic,
}
use tendermintx.Types.BlockId.{BlockId, PartSetHeader}
use tendermintx.Types.Vote.{Vote, SignedMsgType, CanonicalVote}

pub record Validator : Type 0 where
  pub address : Bytes
  pub pub_key : Bytes
  pub voting_power : ℕ

-- `totalVotingPower` caches the sum of the powers.
pub record ValidatorSet : Type 0 where
  pub validators : List Validator
  pub total_voting_power : ℕ

-- What the vote set calls outside this repository's sources, or in generated code.
pub record Crypto : Type 0 where
  pub address_of : Bytes → Bytes
  pub verify_bytes : Bytes → Bytes → Bytes → Bool
  pub marshal_vote : CanonicalVote → Option Bytes
  pub marshal_parts : PartSetHeader → Bytes

pub data VoteError : Type 0 where
  vote_nil unexpected_step invalid_index invalid_address invalid_signature : VoteError
  non_deterministic_signature peer_maj23_conflict : VoteError
  conflicting_votes : Vote → Vote → VoteError

pub record BlockVotes : Type 0 where
  pub peer_maj23 : Bool
  pub bit_array : List Bool
  pub votes : List (Option Vote)
  pub sum : ℕ

pub record VoteSet : Type 0 where
  pub chain_id : Bytes
  pub height : ℤ
  pub round : ℤ
  pub signed_msg_type : SignedMsgType
  pub val_set : ValidatorSet
  pub votes_bit_array : List Bool
  pub votes : List (Option Vote)
  pub sum : ℕ
  pub maj23 : Option BlockId
  pub votes_by_block : List (Bytes × BlockVotes)
  pub peer_maj23s : List (Bytes × BlockId)

abbrev pub size : ValidatorSet → ℕ
size vals = length vals.validators

abbrev pub bytes_equal : Bytes → Bytes → Bool
bytes_equal a b = holds (Bytes-discrete a b)

abbrev pub is_some {ℓ} : {A : Type ℓ} → Option A → Bool
is_some none = false
is_some (some _) = true

unfoldable pub new_vote_set : Bytes → ℤ → ℤ → SignedMsgType → ValidatorSet → Run VoteSet
new_vote_set chain_id height round signed_msg_type vals =
    if height ==ℤ pos 0
    then panic
    else ok (record {
      chain_id = chain_id;
      height = height;
      round = round;
      signed_msg_type = signed_msg_type;
      val_set = vals;
      votes_bit_array = replicate (size vals) false;
      votes = replicate (size vals) none;
      sum = 0;
      maj23 = none;
      votes_by_block = [];
      peer_maj23s = [];
    })

unfoldable pub new_block_votes : Bool → ℕ → BlockVotes
new_block_votes peer_maj23 n = record {
  peer_maj23 = peer_maj23;
  bit_array = replicate n false;
  votes = replicate n none;
  sum = 0;
}

-- `blockVotes.addVerifiedVote` at the validator's index
unfoldable pub add_to_block : ℕ → Vote → ℕ → BlockVotes → Run BlockVotes
add_to_block i vote power bv = elim (get_elem? bv.votes i) [
  | none ↦ panic
  | some (some _) ↦ ok bv
  | some none ↦ ok (record bv {
    bit_array = set bv.bit_array i true;
    votes = set bv.votes i (some vote);
    sum = bv.sum + power;
  })
]

-- `voteSet.votes[i] = vote` for each vote of the block; the lists have one length
unfoldable pub copy_votes : List (Option Vote) → List (Option Vote) → List (Option Vote)
copy_votes [] votes = votes
copy_votes (b ∷ bs) [] = []
copy_votes (none ∷ bs) (v ∷ votes) = v ∷ copy_votes bs votes
copy_votes (some b ∷ bs) (v ∷ votes) = some b ∷ copy_votes bs votes

unfoldable pub quorum : ValidatorSet → ℕ
quorum vals = vals.total_voting_power * 2 / 3 + 1
