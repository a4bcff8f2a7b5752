-- ===== src/VoteSet/Support.antt =====
-- The votes for one block, and the power that two lists of votes share.
use tendermintx.Common.{
  ℕ, ◌+◌, ◌≤◌, Bytes, Bytes-discrete, Option, none, some, List, [], ◌∷◌, ◌≡◌, arith, if◌then◌else◌,
  holds,
}
use tendermintx.Types.Vote.{Vote}
use tendermintx.VoteSet.Defs.{Validator, Crypto, key, bytes_equal}
use tendermintx.VoteSet.Power.{power_sum, power_total, power_sum-le}
use tendermintx.VoteSet.Covers.{Covered}
use tendermintx.VoteSet.Invariant.{IsFor}

abbrev pub only : Crypto → Bytes → Vote → Option Vote
only crypto k v = if bytes_equal (key crypto v.block_id) k then some v else none

-- The votes of a list that are for the block of a key.
abbrev pub supporters : Crypto → Bytes → List (Option Vote) → List (Option Vote)
supporters crypto k [] = []
supporters crypto k (none ∷ os) = none ∷ supporters crypto k os
supporters crypto k (some v ∷ os) = only crypto k v ∷ supporters crypto k os

-- The power of the validators that have a vote in both lists.
abbrev pub power_both : List Validator → List (Option Vote) → List (Option Vote) → ℕ
power_both [] _ _ = 0
power_both (v ∷ vs) (some _ ∷ os) (some _ ∷ ps) = v.voting_power + power_both vs os ps
power_both (v ∷ vs) (some _ ∷ os) (none ∷ ps) = power_both vs os ps
power_both (v ∷ vs) (none ∷ os) (_ ∷ ps) = power_both vs os ps
power_both (v ∷ vs) [] _ = 0
power_both (v ∷ vs) (_ ∷ _) [] = 0

only-yes : (crypto : Crypto) (k : Bytes) (v : Vote) → IsFor crypto k v → only crypto k v ≡ some v
only-yes crypto k v h = ground arith

-- A list of votes for the block, covered by another list, has at most the power of the block's
-- votes there.
pub power_sum-supporters :
    (crypto : Crypto) (k : Bytes) (vs : List Validator) (bs os : List (Option Vote))
    → Covered (IsFor crypto k) bs os
    → power_sum vs bs ≤ power_sum vs (supporters crypto k os)
power_sum-supporters crypto k [] bs os c = omega arith
power_sum-supporters crypto k (v ∷ vs) [] os c = omega arith
power_sum-supporters crypto k (v ∷ vs) (b ∷ bs) [] c = absurd c
power_sum-supporters crypto k (v ∷ vs) (none ∷ bs) (none ∷ os) c =
    power_sum-supporters crypto k vs bs os c
power_sum-supporters crypto k (v ∷ vs) (none ∷ bs) (some o ∷ os) c =
    elim (Bytes-discrete (key crypto o.block_id) k)
      as (λ d.
        power_sum vs bs
        ≤ power_sum (v ∷ vs) ((if holds d then some o else none) ∷ supporters crypto k os)) [
          | yes same ↦ omega (arith, power_sum-supporters crypto k vs bs os c)
          | no differ ↦ power_sum-supporters crypto k vs bs os c
        ]
power_sum-supporters crypto k (v ∷ vs) (some b ∷ bs) (none ∷ os) c = absurd c
power_sum-supporters crypto k (v ∷ vs) (some b ∷ bs) (some o ∷ os) c =
    rw (only-yes crypto k o c.0) (omega (arith, power_sum-supporters crypto k vs bs os c.1))

-- Two groups of voters share what their powers exceed the total by.
pub power_both-overlap :
    (vs : List Validator) (os ps : List (Option Vote))
    → power_sum vs os + power_sum vs ps ≤ power_total vs + power_both vs os ps
power_both-overlap [] os ps = omega arith
power_both-overlap (v ∷ vs) [] ps = omega (arith, power_sum-le (v ∷ vs) ps)
power_both-overlap (v ∷ vs) (none ∷ os) [] = omega (arith, power_sum-le vs os)
power_both-overlap (v ∷ vs) (some o ∷ os) [] = omega (arith, power_sum-le vs os)
power_both-overlap (v ∷ vs) (none ∷ os) (none ∷ ps) = omega (arith, power_both-overlap vs os ps)
power_both-overlap (v ∷ vs) (none ∷ os) (some p ∷ ps) = omega (arith, power_both-overlap vs os ps)
power_both-overlap (v ∷ vs) (some o ∷ os) (none ∷ ps) = omega (arith, power_both-overlap vs os ps)
power_both-overlap (v ∷ vs) (some o ∷ os) (some p ∷ ps) = omega (arith, power_both-overlap vs os ps)
