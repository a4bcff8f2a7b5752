-- ===== src/PrivVal/Sign.antt =====
-- Signing votes and proposals.
use tendermintx.Common.{
  ℕ, ℤ, pos, Bytes, Bytes-discrete, Bool, Option, none, some, [], holds, if◌then◌else◌, ◌==◌,
  length,
}
use tendermintx.Types.Vote.{
  Vote, Proposal, CanonicalVote, CanonicalProposal, canonicalize_vote, canonicalize_proposal,
}
use tendermintx.PrivVal.Codec.{Wire, Timed, timed_vote, timed_proposal}
use tendermintx.PrivVal.Checks.{
  Call, returns, fails, panics, ◌>>=◌, or_panic, sign_failed, conflicting_data, LastSignState,
  step_none, step_propose, vote_to_step, check_hrs, to_file,
}

-- One call's surroundings: `PrivKey.Sign` (`none` is its error), whether `WriteFileAtomic`
-- succeeds, and the time now.
pub record Env : Type 0 where
  pub sign : Bytes → Option Bytes
  pub write_ok : Bool
  pub now : ℤ

-- The state in memory, the path of the state file and what the file holds.
pub record FilePv : Type 0 where
  pub last_sign_state : LastSignState
  pub file_path : Bytes
  pub disk : LastSignState

-- `GenFilePV` and `Save`, at a file that takes the write
unfoldable pub gen_file_pv : Bytes → FilePv
gen_file_pv path =
    let empty : LastSignState = record {
      height = pos 0;
      round = pos 0;
      step = step_none;
      signature = none;
      sign_bytes = none;
    } in
    record { last_sign_state = empty; file_path = path; disk = empty }

-- A new process: `LoadFilePV`, which loads the state; the key is a parameter, and a key or state
-- that cannot be read ends the process before it signs.
unfoldable pub load_file_pv : FilePv → FilePv
load_file_pv pv = record pv { last_sign_state = pv.disk }

-- `FilePVLastSignState.Save`
save : Env → FilePv → Call FilePv
unfolding to_file
save e pv =
    if length pv.file_path == 0
    then panics
    else if e.write_ok
    then returns (record pv { disk = to_file pv.last_sign_state })
    else panics

unfoldable pub save_signed : Env → ℤ → ℤ → ℕ → Bytes → Bytes → FilePv → Call FilePv
unfolding save
save_signed e height round step sign_bytes signature pv = save e (record pv {
  last_sign_state = record {
    height = height;
    round = round;
    step = step;
    signature = some signature;
    sign_bytes = some sign_bytes;
  };
})

abbrev pub or_empty : Option Bytes → Bytes
or_empty none = []
or_empty (some b) = b

module _ {C : Type 0} (wire : Wire C) (timed : Timed C) where
  -- `checkVotesOnlyDifferByTimestamp` and `checkProposalsOnlyDifferByTimestamp`
  unfoldable pub only_differ_by_timestamp : ℤ → Bytes → Bytes → Call (ℤ × Bool)
  only_differ_by_timestamp now last_sign_bytes new_sign_bytes = do
    last ← or_panic (wire.unmarshal last_sign_bytes)
    new ← or_panic (wire.unmarshal new_sign_bytes)
    returns (
      timed.time_of last,
      holds (timed.equal (timed.with_time now new) (timed.with_time now last)),
    )

  -- The branch for the same height, round and step: the signature and the timestamp to use.
  unfoldable pub resign : Env → LastSignState → Bytes → ℤ → Call (Bytes × ℤ)
  unfolding only_differ_by_timestamp Bytes-discrete
  resign e lss sign_bytes timestamp =
      if holds (Bytes-discrete sign_bytes (or_empty lss.sign_bytes))
      then returns (or_empty lss.signature, timestamp)
      else do
        (last_time, ok) ← only_differ_by_timestamp e.now (or_empty lss.sign_bytes) sign_bytes
        if ok then returns (or_empty lss.signature, last_time) else fails conflicting_data

  -- The branch for a later height, round or step.
  unfoldable pub sign_new : Env → ℤ → ℤ → ℕ → Bytes → ℤ → FilePv → Call (FilePv × Bytes × ℤ)
  unfolding save_signed
  sign_new e height round step sign_bytes timestamp pv = elim (e.sign sign_bytes) [
    | none ↦ fails sign_failed
    | some sig ↦
        save_signed e height round step sign_bytes sig pv >>= λ pv'. returns (pv', sig, timestamp)
  ]

  -- The common body of `signVote` and `signProposal`, after the step is known.
  unfoldable pub sign_canonical :
      Env → ℤ → ℤ → ℕ → Option C → ℤ → FilePv → Call (FilePv × Bytes × ℤ)
  sign_canonical e height round step canonical timestamp pv = do
    same_hrs ← check_hrs pv.last_sign_state height round step
    c ← or_panic canonical
    sign_bytes ← or_panic (wire.marshal c)
    if same_hrs
        then (do
          (sig, time) ← resign e pv.last_sign_state sign_bytes timestamp
          returns (pv, sig, time))
        else sign_new e height round step sign_bytes timestamp pv

-- `signVote`: the validator and the vote with its signature
unfoldable pub sign_vote : Wire CanonicalVote → Env → Bytes → Vote → FilePv → Call (FilePv × Vote)
sign_vote wire e chain_id vote pv = do
  step ← vote_to_step vote.kind
  (pv', sig, time) ←
      sign_canonical wire timed_vote e vote.height vote.round step (canonicalize_vote chain_id vote)
        vote.timestamp pv
  returns (pv', record vote { signature = sig; timestamp = time })

-- `signProposal`
unfoldable pub sign_proposal :
    Wire CanonicalProposal → Env → Bytes → Proposal → FilePv → Call (FilePv × Proposal)
sign_proposal wire e chain_id proposal pv = do
  (pv', sig, time) ←
      sign_canonical wire timed_proposal e proposal.height proposal.round step_propose
        (canonicalize_proposal chain_id proposal) proposal.timestamp pv
  returns (pv', record proposal { signature = sig; timestamp = time })

-- `Reset`, marked unsafe in the source: the validator forgets what it signed. `Save` writes the key
-- file first, which no state depends on.
unfoldable pub reset : Env → FilePv → Call FilePv
unfolding save
reset e pv = save e (record pv {
  last_sign_state = record {
    height = pos 0;
    round = pos 0;
    step = step_none;
    signature = none;
    sign_bytes = none;
  };
})
