-- ===== src/Types/Vote.antt =====
-- types/vote.go, types/proposal.go and types/canonical.go: votes, proposals and the canonical
-- messages that are signed. A time is the integer of its nanoseconds since the Unix epoch, and a
-- chain ID the bytes of its text.
use tendermintx.Common.{
  ℤ, ℤ-discrete, Bytes, ℕ_discrete, Bool, true, false, Option, none, some, if◌then◌else◌,
}
use tendermintx.Types.BlockId
use tendermintx.Types.BlockId.{BlockId}

-- The protobuf enumeration is open: any other number is `other`.
pub data SignedMsgType : Type 0 where
  prevote precommit proposal : SignedMsgType
  other : ℤ → SignedMsgType

unfoldable pub SignedMsgType-discrete : Discrete SignedMsgType
unfolding ℤ-discrete
SignedMsgType-discrete = hlevel ℤ-discrete

unfoldable pub is_vote_type_valid : SignedMsgType → Bool
is_vote_type_valid prevote = true
is_vote_type_valid precommit = true
is_vote_type_valid _ = false

pub record Vote : Type 0 where
  pub kind : SignedMsgType
  pub height : ℤ
  pub round : ℤ
  pub block_id : BlockId
  pub timestamp : ℤ
  pub validator_address : Bytes
  pub validator_index : ℤ
  pub signature : Bytes

pub record Proposal : Type 0 where
  pub height : ℤ
  pub round : ℤ
  pub pol_round : ℤ
  pub block_id : BlockId
  pub timestamp : ℤ
  pub signature : Bytes

pub record CanonicalVote : Type 0 where
  pub kind : SignedMsgType
  pub height : ℤ
  pub round : ℤ
  pub block_id : Option BlockId
  pub timestamp : ℤ
  pub chain_id : Bytes

-- `Type` is always the proposal type, and is left out.
pub record CanonicalProposal : Type 0 where
  pub height : ℤ
  pub round : ℤ
  pub pol_round : ℤ
  pub block_id : Option BlockId
  pub timestamp : ℤ
  pub chain_id : Bytes

unfoldable pub CanonicalVote-discrete : Discrete CanonicalVote
unfolding ℤ-discrete ℕ_discrete
CanonicalVote-discrete = hlevel ℕ_discrete

unfoldable pub CanonicalProposal-discrete : Discrete CanonicalProposal
unfolding ℤ-discrete ℕ_discrete
CanonicalProposal-discrete = hlevel ℕ_discrete

-- `none` is a panic: the block ID does not convert. A zero block ID becomes a null message.
unfoldable pub canonicalize_block_id : BlockId → Option (Option BlockId)
unfolding BlockId.validate_basic BlockId.is_zero
canonicalize_block_id b =
    if BlockId.validate_basic b then some (if BlockId.is_zero b then none else some b) else none

module _ (chain_id : Bytes) where
  unfoldable pub vote_of : Vote → Option BlockId → CanonicalVote
  vote_of v b = record {
    kind = v.kind;
    height = v.height;
    round = v.round;
    block_id = b;
    timestamp = v.timestamp;
    chain_id = chain_id;
  }

  unfoldable pub proposal_of : Proposal → Option BlockId → CanonicalProposal
  proposal_of p b = record {
    height = p.height;
    round = p.round;
    pol_round = p.pol_round;
    block_id = b;
    timestamp = p.timestamp;
    chain_id = chain_id;
  }

  unfoldable pub canonicalize_vote : Vote → Option CanonicalVote
  unfolding vote_of
  canonicalize_vote v = elim (canonicalize_block_id v.block_id) [
    | none ↦ none
    | some b ↦ some (vote_of v b)
  ]

  unfoldable pub canonicalize_proposal : Proposal → Option CanonicalProposal
  unfolding proposal_of
  canonicalize_proposal p = elim (canonicalize_block_id p.block_id) [
    | none ↦ none
    | some b ↦ some (proposal_of p b)
  ]
