-- ===== src/PrivVal/Invariant.antt =====
-- What holds of a validator and of its log between two events.
use tendermintx.Common.{ℤ, List, [], ◌∷◌, ◌≡◌, refl, inl, inr, All, arith, sym, ◌∙◌}
use tendermintx.PrivVal.Codec.{Wire, Timed}
use tendermintx.PrivVal.Checks.{LastSignState}
use tendermintx.PrivVal.Sign.{FilePv, load_file_pv}
use tendermintx.PrivVal.Cases.{Before, LastFor, Outcome, reused, fresh, signed}
use tendermintx.PrivVal.Log.{Released}
use tendermintx.PrivVal.Safety.{
  Covers, Backs, Backs-All, to_file-Backs, Consistent, agrees-All, past, not-same, SameHrs,
  SameMessage,
}

past-All :
    (l : LastSignState) (a : Released) (log : List Released)
    → All (Covers l) log
    → Before l.height l.round l.step a.height a.round a.step
    → All (λ b. Before b.height b.round b.step a.height a.round a.step) log
past-All l a [] c f = tt
past-All l a (b ∷ log) (c, cs) f = (past l a b c f, past-All l a log cs f)

covered_by :
    (l : LastSignState) (a : Released) (log : List Released)
    → LastFor l a.height a.round a.step
    → All (λ b. Before b.height b.round b.step a.height a.round a.step) log
    → All (Covers l) log
covered_by l a [] h c = tt
covered_by l a (b ∷ log) h (c, cs) = (inl (ground arith), covered_by l a log h cs)

not-same-All :
    (a : Released) (log : List Released)
    → All (λ b. Before b.height b.round b.step a.height a.round a.step) log
    → All (λ b. SameHrs a b → SameMessage a b) log
not-same-All a [] c = tt
not-same-All a (b ∷ log) (c, cs) = (not-same a b c, not-same-All a log cs)

-- The entries are behind the last state or agree with it, the file backs the state in memory, and
-- the entries agree with one another.
pub record Sound (pv : FilePv) (log : List Released) : Type 0 where
  pub covered : All (Covers pv.last_sign_state) log
  pub backed : Backs pv.disk pv.last_sign_state
  pub consistent : Consistent log

pub load-Sound : (pv : FilePv) (log : List Released) → Sound pv log → Sound (load_file_pv pv) log
unfolding load_file_pv
load-Sound pv log s = record {
  covered = Backs-All pv.disk pv.last_sign_state log s.backed s.covered;
  backed = ground arith;
  consistent = s.consistent;
}

module _ {C : Type 0} (wire : Wire C) (timed : Timed C) where
  -- An entry that is logged for a signature keeps all three.
  pub Outcome-Sound :
      (a : Released) (c : C) (time : ℤ) {pv pv' : FilePv} {log : List Released}
      → Outcome wire timed a.height a.round a.step c pv pv' a.signature time
      → a.sign_bytes ≡ wire.marshal (timed.with_time time c)
      → Sound pv log
      → Sound pv' (a ∷ log)
  Outcome-Sound a c time {pv} {pv'} {log} (reused {b = b} here same hb hs hm) ha s =
      rw same (record {
        covered = (inr (here, inr (hb ∙ sym hm ∙ sym ha), inr hs), s.covered);
        backed = s.backed;
        consistent =
            (agrees-All pv.last_sign_state a b log s.covered here hb (ha ∙ hm) hs, s.consistent);
      })
  Outcome-Sound a c time {pv} {pv'} {log} (fresh {b = b} later same hm) ha s =
      let old = past-All pv.last_sign_state a log s.covered later in
      let pv'' = signed a.height a.round a.step b a.signature pv in
      unfold signed in
      rw same (record {
        covered = (
          inr ((refl, refl, refl), inr (sym hm ∙ sym ha), inr refl),
          covered_by pv''.last_sign_state a log (refl, refl, refl) old,
        );
        backed = to_file-Backs pv''.last_sign_state;
        consistent = (not-same-All a log old, s.consistent);
      })
