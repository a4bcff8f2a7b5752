-- ===== src/Consensus/State.antt =====
-- The data of the state machine, and the interface to the rest of the program.
use tendermintx.Common.{
  ℕ, ℤ, pos, negsuc, ◌+ℤ◌, ◌==ℤ◌, ltb_ℤ, Bytes, Bool, false, not, ◌&&◌, ◌||◌, Option, none, some,
  List, [], ◌∷◌, ◌++◌, length, leb, ltb, ◌==◌, if◌then◌else◌, Run, ok, panic,
}
use tendermintx.Types.BlockId.{BlockId, PartSetHeader}
use tendermintx.Types.Vote.{Vote, Proposal, prevote, precommit}
use tendermintx.VoteSet.Defs.{
  ValidatorSet, VoteSet, VoteError, bytes_equal, two_thirds_majority, has_two_thirds_any,
}
use tendermintx.HeightVoteSet.Defs.{HeightVoteSet, get_vote_set, min_int32, max_int32}
use tendermintx.PartSet.{Part, PartSet}

pub data RoundStep : Type 0 where
  new_height new_round propose prevoted prevote_wait precommitted precommit_wait commit : RoundStep

abbrev pub step_number : RoundStep → ℕ
step_number new_height = 1
step_number new_round = 2
step_number propose = 3
step_number prevoted = 4
step_number prevote_wait = 5
step_number precommitted = 6
step_number precommit_wait = 7
step_number commit = 8

pub record Timeout : Type 0 where
  pub height : ℤ
  pub round : ℤ
  pub step : RoundStep

-- The part of a message may be nil.
pub data Message : Type 0 where
  proposal_message : Proposal → Message
  block_part_message : ℤ → ℤ → Option Part → Message
  vote_message : Vote → Message

-- The operations of other parts that the state machine calls; `none` is an error or a missing result.
pub record Env (Block Chain Vals Signer : Type 0) : Type 0 where
  pub block_hash : Block → Bytes
  pub block_time : Block → ℤ
  pub block_height : Block → ℤ
  pub decode_block : Bytes → Option Block
  -- the block executor
  pub create_block : ℤ → Chain → Option VoteSet → Bytes → Option (Block × PartSet)
  pub validate_block : Chain → Block → Bool
  pub check_block : Block → Bool
  pub apply_block : Chain → BlockId → Block → Option Chain
  -- the state of the chain
  pub is_empty : Chain → Bool
  pub chain_id : Chain → Bytes
  pub last_block_height : Chain → ℤ
  pub next_validators : Chain → Vals
  pub last_validators : Chain → Vals
  pub time_iota : Chain → ℤ
  -- the validator set
  pub members : Vals → ValidatorSet
  pub increment_priority : ℤ → Vals → Vals
  pub proposer_address : Vals → Bytes
  pub index_of : Vals → Bytes → Option ℤ
  pub verify_proposal : Vals → Bytes → Proposal → Bool
  -- the signer, whose state changes
  pub address : Signer → Option Bytes
  pub sign_vote : Bytes → Vote → Signer → Signer × Option Bytes
  pub sign_proposal : Bytes → Proposal → Signer → Signer × Option Bytes
  -- `NewPOLCFromVoteSet` and the evidence pool's `AddPOLC`; an error of either is only logged
  pub save_polc : Option VoteSet → Bytes → BlockId → Bool
  -- the log and the configuration
  pub write_end_height : ℤ → Bool
  pub wait_for_txs : Bool
  pub create_empty_blocks_interval : ℤ
  pub skip_timeout_commit : Bool

-- `State` with its `RoundState`; `chain` is the field `state`. The store holds the saved blocks with
-- the precommits that their seen commits are made of. Part sets are values:
-- where the source's fields of the proposal, the lock and the valid block share one, a part that is
-- added to it later changes the proposal's only. A set that is complete never changes.
pub record State (Block Chain Vals Signer : Type 0) : Type 0 where
  pub height : ℤ
  pub round : ℤ
  pub step : RoundStep
  pub validators : Vals
  pub proposal : Option Proposal
  pub proposal_block : Option Block
  pub proposal_block_parts : Option PartSet
  pub locked_round : ℤ
  pub locked_block : Option Block
  pub locked_block_parts : Option PartSet
  pub valid_round : ℤ
  pub valid_block : Option Block
  pub valid_block_parts : Option PartSet
  pub votes : HeightVoteSet
  pub commit_round : ℤ
  pub last_commit : Option VoteSet
  pub last_validators : Vals
  pub triggered_timeout_precommit : Bool
  pub chain : Chain
  pub signer : Option Signer
  pub now : ℤ
  pub store_height : ℤ
  pub saved : List (Block × Option PartSet × Option VoteSet)
  pub queue : List Message
  pub timeouts : List Timeout
  pub polcs : List (ℤ × BlockId)
  pub evidence : List VoteError

-- A nil vote set has no majority.
abbrev pub majority : Option VoteSet → Option BlockId
majority none = none
majority (some v) = two_thirds_majority v

abbrev pub any_two_thirds : Option VoteSet → Bool
any_two_thirds none = false
any_two_thirds (some v) = has_two_thirds_any v

abbrev pub zero_header : PartSetHeader
zero_header = record { total = 0; hash = [] }

unfoldable pub safe_add_int32 : ℤ → ℤ → Run ℤ
unfolding ◌+ℤ◌
safe_add_int32 a b =
    if ltb_ℤ (pos 0) b && ltb_ℤ max_int32 (a +ℤ b) || ltb_ℤ b (pos 0) && ltb_ℤ (a +ℤ b) min_int32
    then panic
    else ok (a +ℤ b)

unfoldable pub compare_hrs : ℤ → ℤ → RoundStep → ℤ → ℤ → RoundStep → ℤ
compare_hrs h1 r1 s1 h2 r2 s2 =
    if ltb_ℤ h1 h2
    then negsuc 0
    else if ltb_ℤ h2 h1
    then pos 1
    else if ltb_ℤ r1 r2
    then negsuc 0
    else if ltb_ℤ r2 r1
    then pos 1
    else if ltb (step_number s1) (step_number s2)
    then negsuc 0
    else if ltb (step_number s2) (step_number s1)
    then pos 1
    else pos 0

module _ {Block Chain Vals Signer : Type 0} where
  -- The arguments that `enterX` ignores: another height, a past round, or a step that is done.
  abbrev pub late : ℤ → ℤ → RoundStep → State Block Chain Vals Signer → Bool
  late h r step s =
      not (s.height ==ℤ h)
      || ltb_ℤ r s.round
      || (s.round ==ℤ r && leb (step_number step) (step_number s.step))

  abbrev pub update_round_step :
      ℤ → RoundStep → State Block Chain Vals Signer → State Block Chain Vals Signer
  update_round_step r step s = record s { round = r; step = step }

  abbrev pub schedule_timeout :
      ℤ → ℤ → RoundStep → State Block Chain Vals Signer → State Block Chain Vals Signer
  schedule_timeout h r step s = record s {
    timeouts = s.timeouts ++ record { height = h; round = r; step = step } ∷ [];
  }

  abbrev pub send_internal : Message → State Block Chain Vals Signer → State Block Chain Vals Signer
  send_internal m s = record s { queue = s.queue ++ m ∷ [] }

  abbrev pub prevotes : ℤ → State Block Chain Vals Signer → Run (Option VoteSet)
  prevotes r s = get_vote_set r prevote s.votes

  abbrev pub precommits : ℤ → State Block Chain Vals Signer → Run (Option VoteSet)
  precommits r s = get_vote_set r precommit s.votes

  -- `Block.HashesTo`
  unfoldable pub hashes_to : Env Block Chain Vals Signer → Option Block → Bytes → Bool
  hashes_to env block hash =
      if length hash == 0
      then false
      else elim block [ none ↦ false | some b ↦ bytes_equal (env.block_hash b) hash ]
