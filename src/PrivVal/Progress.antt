-- ===== src/PrivVal/Progress.antt =====
-- What the signer grants and refuses, and how it recovers from a crash after signing.
use tendermintx.Common.{ℕ, ℤ, Bytes, true, false, some, [], ◌≡◌, ◌≢◌, ◌⊎◌, arith}
use tendermintx.Types.Vote.{Vote, CanonicalVote, canonicalize_vote}
use tendermintx.PrivVal.Codec.{Wire, timed_vote}
use tendermintx.PrivVal.Checks.{
  returns, fails, LastSignState, height_regression, round_regression, step_regression,
  conflicting_data, vote_to_step, check_hrs,
}
use tendermintx.PrivVal.Sign.{Env, FilePv, sign_canonical, resign, sign_new, sign_vote}
use tendermintx.PrivVal.Cases.{Before, LastFor, signed}
use tendermintx.PrivVal.Log.{step_of}
use tendermintx.PrivVal.Granted.{IsVoteStep, vote_time}

vote_to_step_lem :
    (v : Vote) → IsVoteStep (step_of v.kind) → vote_to_step v.kind ≡ returns (step_of v.kind)
unfolding vote_to_step
vote_to_step_lem v k = ground arith

check_hrs_later :
    (lss : LastSignState) (h r : ℤ) (s : ℕ)
    → Before lss.height lss.round lss.step h r s
    → check_hrs lss h r s ≡ returns false
unfolding check_hrs
check_hrs_later lss h r s b = ground arith

check_hrs_here :
    (lss : LastSignState) (h r : ℤ) (s : ℕ) {b g : Bytes}
    → LastFor lss h r s
    → lss.sign_bytes ≡ some b
    → lss.signature ≡ some g
    → check_hrs lss h r s ≡ returns true
unfolding check_hrs
check_hrs_here lss h r s here hb hg = ground arith

check_hrs_earlier :
    (lss : LastSignState) (h r : ℤ) (s : ℕ)
    → Before h r s lss.height lss.round lss.step
    → (check_hrs lss h r s ≡ fails height_regression)
      ⊎ (check_hrs lss h r s ≡ fails round_regression)
      ⊎ (check_hrs lss h r s ≡ fails step_regression)
unfolding check_hrs
check_hrs_earlier lss h r s b = ground arith

module _ (wire : Wire CanonicalVote) (e : Env) (chain_id : Bytes) (v : Vote) (pv : FilePv) where
  -- A vote at a later height, round or step than the last is signed, saved to the file and
  -- returned, if the key signs, the file has a path and takes the write.
  pub sign_vote-later :
      {c : CanonicalVote} {b sig : Bytes}
      → IsVoteStep (step_of v.kind)
      → Before pv.last_sign_state.height pv.last_sign_state.round pv.last_sign_state.step v.height
          v.round
          (step_of v.kind)
      → canonicalize_vote chain_id v ≡ some c
      → wire.marshal c ≡ some b
      → e.sign b ≡ some sig
      → e.write_ok ≡ true
      → pv.file_path ≢ []
      → sign_vote wire e chain_id v pv
        ≡ returns (signed v.height v.round (step_of v.kind) b sig pv, record v { signature = sig })
  unfolding sign_vote sign_canonical sign_new signed
  sign_vote-later kind later hc hb hs hw hp =
      let fresh_hrs = check_hrs_later pv.last_sign_state v.height v.round (step_of v.kind) later in
      rw (vote_to_step_lem v kind, hc, fresh_hrs, hb) (ground arith)

  -- A vote at an earlier height, round or step than the last is refused with a regression error,
  -- whatever it says.
  pub sign_vote-earlier :
      IsVoteStep (step_of v.kind)
      → Before v.height v.round
          (step_of v.kind)
          pv.last_sign_state.height
          pv.last_sign_state.round
          pv.last_sign_state.step
      → (sign_vote wire e chain_id v pv ≡ fails height_regression)
        ⊎ (sign_vote wire e chain_id v pv ≡ fails round_regression)
        ⊎ (sign_vote wire e chain_id v pv ≡ fails step_regression)
  unfolding sign_vote sign_canonical
  sign_vote-earlier kind earlier = rw (vote_to_step_lem v kind) (
      ground
        (arith, check_hrs_earlier pv.last_sign_state v.height v.round (step_of v.kind) earlier))

module _ (wire : Wire CanonicalVote) (e : Env) (lss : LastSignState) (c old : CanonicalVote)
    {b nb g : Bytes} (hb : lss.sign_bytes ≡ some b) (hg : lss.signature ≡ some g)
    (ho : wire.marshal old ≡ some b) (hc : wire.marshal c ≡ some nb) where
  resign_same :
      c ≡ record old { timestamp = c.timestamp }
      → resign wire timed_vote e lss nb c.timestamp ≡ returns (g, old.timestamp)
  unfolding resign
  resign_same same = ground (arith, wire.round_trip old ho, wire.round_trip c hc)

  resign_conflict :
      c ≢ record old { timestamp = c.timestamp }
      → resign wire timed_vote e lss nb c.timestamp ≡ fails conflicting_data
  unfolding resign
  resign_conflict differ = ground (arith, wire.round_trip old ho, wire.round_trip c hc)

module _ (wire : Wire CanonicalVote) (e : Env) (chain_id : Bytes) (v : Vote) (pv : FilePv)
    {c old : CanonicalVote} {b nb g : Bytes} where
  -- A vote at the last height, round and step that differs from the last one at most in its
  -- timestamp gets the last timestamp and the last signature, without a new signature and without
  -- a write.
  pub sign_vote-again :
      IsVoteStep (step_of v.kind)
      → LastFor pv.last_sign_state v.height v.round (step_of v.kind)
      → pv.last_sign_state.sign_bytes ≡ some b
      → pv.last_sign_state.signature ≡ some g
      → wire.marshal old ≡ some b
      → canonicalize_vote chain_id v ≡ some c
      → wire.marshal c ≡ some nb
      → c ≡ record old { timestamp = c.timestamp }
      → sign_vote wire e chain_id v pv
        ≡ returns (pv, record v { signature = g; timestamp = old.timestamp })
  unfolding sign_vote sign_canonical
  sign_vote-again kind here hb hg ho hc hnb same =
      let now = check_hrs_here pv.last_sign_state v.height v.round (step_of v.kind) here hb hg in
      let again = resign_same wire e pv.last_sign_state c old hb hg ho hnb same in
      rw (vote_to_step_lem v kind, hc, now, hnb, ← vote_time chain_id v c hc, again)

  -- A vote at the last height, round and step that differs from the last one in more than its
  -- timestamp is refused as conflicting.
  pub sign_vote-conflict :
      IsVoteStep (step_of v.kind)
      → LastFor pv.last_sign_state v.height v.round (step_of v.kind)
      → pv.last_sign_state.sign_bytes ≡ some b
      → pv.last_sign_state.signature ≡ some g
      → wire.marshal old ≡ some b
      → canonicalize_vote chain_id v ≡ some c
      → wire.marshal c ≡ some nb
      → c ≢ record old { timestamp = c.timestamp }
      → sign_vote wire e chain_id v pv ≡ fails conflicting_data
  unfolding sign_vote sign_canonical
  sign_vote-conflict kind here hb hg ho hc hnb differ =
      let now = check_hrs_here pv.last_sign_state v.height v.round (step_of v.kind) here hb hg in
      let again = resign_conflict wire e pv.last_sign_state c old hb hg ho hnb differ in
      rw (vote_to_step_lem v kind, hc, now, hnb, ← vote_time chain_id v c hc, again)
