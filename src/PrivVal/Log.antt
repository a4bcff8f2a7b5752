-- ===== src/PrivVal/Log.antt =====
-- A validator's life: requests in any order, each in surroundings of its own, and restarts at any
-- point. The log holds every message that was handed out with a signature, the latest first.
use tendermintx.Common.{ℕ, ℤ, Bytes, Option, none, some, List, [], ◌∷◌}
use tendermintx.Types.Vote.{
  Vote, Proposal, SignedMsgType, prevote, precommit, CanonicalVote, CanonicalProposal,
  canonicalize_vote, canonicalize_proposal,
}
use tendermintx.PrivVal.Codec.{Wire}
use tendermintx.PrivVal.Checks.{
  Call, returns, fails, panics, step_none, step_propose, step_prevote, step_precommit,
}
use tendermintx.PrivVal.Sign.{Env, FilePv, load_file_pv, sign_vote, sign_proposal}

pub data Event : Type 0 where
  vote_request : Env → Bytes → Vote → Event
  proposal_request : Env → Bytes → Proposal → Event
  restart : Event

-- A signature that left the validator, with the bytes that it is for.
pub record Released : Type 0 where
  pub height : ℤ
  pub round : ℤ
  pub step : ℕ
  pub sign_bytes : Option Bytes
  pub signature : Bytes

abbrev pub step_of : SignedMsgType → ℕ
step_of prevote = step_prevote
step_of precommit = step_precommit
step_of _ = step_none

module _ (votes : Wire CanonicalVote) (proposals : Wire CanonicalProposal) where
  -- `VoteSignBytes`; `none` is its panic
  unfoldable pub vote_sign_bytes : Bytes → Vote → Option Bytes
  vote_sign_bytes chain_id v = elim (canonicalize_vote chain_id v) [
    | none ↦ none
    | some c ↦ votes.marshal c
  ]

  -- `ProposalSignBytes`
  unfoldable pub proposal_sign_bytes : Bytes → Proposal → Option Bytes
  proposal_sign_bytes chain_id p = elim (canonicalize_proposal chain_id p) [
    | none ↦ none
    | some c ↦ proposals.marshal c
  ]

  unfoldable pub after_vote :
      Bytes → Call (FilePv × Vote) → FilePv × List Released → FilePv × List Released
  unfolding vote_sign_bytes
  after_vote chain_id (returns (pv', v)) (pv, log) = (
    pv',
    record {
      height = v.height;
      round = v.round;
      step = step_of v.kind;
      sign_bytes = vote_sign_bytes chain_id v;
      signature = v.signature;
    }
        ∷ log,
  )
  after_vote chain_id (fails _) (pv, log) = (pv, log)
  after_vote chain_id panics (pv, log) = (load_file_pv pv, log)

  unfoldable pub after_proposal :
      Bytes → Call (FilePv × Proposal) → FilePv × List Released → FilePv × List Released
  unfolding proposal_sign_bytes
  after_proposal chain_id (returns (pv', p)) (pv, log) = (
    pv',
    record {
      height = p.height;
      round = p.round;
      step = step_propose;
      sign_bytes = proposal_sign_bytes chain_id p;
      signature = p.signature;
    }
        ∷ log,
  )
  after_proposal chain_id (fails _) (pv, log) = (pv, log)
  after_proposal chain_id panics (pv, log) = (load_file_pv pv, log)

  unfoldable pub step : FilePv × List Released → Event → FilePv × List Released
  unfolding after_vote after_proposal
  step s (vote_request e chain_id v) = after_vote chain_id (sign_vote votes e chain_id v s.0) s
  step s (proposal_request e chain_id p) =
      after_proposal chain_id (sign_proposal proposals e chain_id p s.0) s
  step s restart = (load_file_pv s.0, s.1)

  unfoldable pub run : FilePv × List Released → List Event → FilePv × List Released
  run s [] = s
  run s (e ∷ es) = run (step s e) es
