-- ===== src/Types/Tests.antt =====
-- A vote and a proposal that are accepted.
use tendermintx.Common.{pos, negsuc, true, none, some, [], ◌∷◌, ◌≡◌, ◌⊎◌, refl, replicate}
use tendermintx.Types.BlockId
use tendermintx.Types.BlockId.{BlockId}
use tendermintx.Types.Vote.{
  Vote, Proposal, CanonicalVote, CanonicalProposal, precommit, is_vote_type_valid,
  canonicalize_vote, canonicalize_proposal,
}
use tendermintx.Types.Valid.{
  validate_vote, validate_proposal, validate_signature, validate_vote-canonicalize,
  validate_proposal-canonicalize,
}

abbrev some_block : BlockId
some_block = record { hash = replicate 32 1; parts = record { total = 1; hash = replicate 32 2 } }

abbrev some_vote : Vote
some_vote = record {
  kind = precommit;
  height = pos 1;
  round = pos 0;
  block_id = some_block;
  timestamp = pos 5;
  validator_address = replicate 20 3;
  validator_index = pos 0;
  signature = 7 ∷ [];
}

abbrev some_proposal : Proposal
some_proposal = record {
  height = pos 1;
  round = pos 0;
  pol_round = negsuc 0;
  block_id = some_block;
  timestamp = pos 5;
  signature = 7 ∷ [];
}

some_vote-accepted : validate_vote some_vote ≡ none
unfolding validate_vote is_vote_type_valid validate_signature BlockId.validate_basic
    BlockId.validate_hash BlockId.is_zero BlockId.is_complete
some_vote-accepted = refl

some_proposal-accepted : validate_proposal some_proposal ≡ none
unfolding validate_proposal validate_signature BlockId.validate_basic BlockId.validate_hash
    BlockId.is_complete
some_proposal-accepted = refl

validate_vote-canonicalize_example :
    (is_vote_type_valid precommit ≡ true)
    × ((c : CanonicalVote) × (canonicalize_vote [] some_vote ≡ some c)
        × (((c.block_id ≡ none) × (BlockId.is_zero some_block ≡ true))
            ⊎ ((c.block_id ≡ some some_block) × (BlockId.is_complete some_block ≡ true))))
validate_vote-canonicalize_example = validate_vote-canonicalize [] some_vote some_vote-accepted

validate_proposal-canonicalize_example :
    (c : CanonicalProposal) × (canonicalize_proposal [] some_proposal ≡ some c)
    × (c.block_id ≡ some some_block)
    × (BlockId.is_complete some_block ≡ true)
validate_proposal-canonicalize_example =
    validate_proposal-canonicalize [] some_proposal some_proposal-accepted
