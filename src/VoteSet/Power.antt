-- ===== src/VoteSet/Power.antt =====
-- Sums of voting power over lists of votes.
use tendermintx.Common.{
  ℕ, zero, suc, ◌+◌, ◌≤◌, true, false, Option, none, some, List, [], ◌∷◌, ◌≡◌, refl, ap, arith,
  get_elem?, set, replicate, map,
}
use tendermintx.Types.Vote.{Vote}
use tendermintx.VoteSet.Defs.{Validator, is_some}

abbrev pub power_sum : List Validator → List (Option Vote) → ℕ
power_sum [] _ = 0
power_sum (v ∷ vs) [] = 0
power_sum (v ∷ vs) (none ∷ os) = power_sum vs os
power_sum (v ∷ vs) (some _ ∷ os) = v.voting_power + power_sum vs os

abbrev pub power_total : List Validator → ℕ
power_total [] = 0
power_total (v ∷ vs) = v.voting_power + power_total vs

pub power_sum-le :
    (vs : List Validator) (os : List (Option Vote)) → power_sum vs os ≤ power_total vs
power_sum-le [] os = omega arith
power_sum-le (v ∷ vs) [] = omega arith
power_sum-le (v ∷ vs) (none ∷ os) = omega (arith, power_sum-le vs os)
power_sum-le (v ∷ vs) (some x ∷ os) = omega (arith, power_sum-le vs os)

pub power_sum-none : (vs : List Validator) (n : ℕ) → power_sum vs (replicate n none) ≡ 0
power_sum-none [] n = refl
power_sum-none (v ∷ vs) zero = refl
power_sum-none (v ∷ vs) (suc n) = power_sum-none vs n

-- A vote where there was none adds the validator's power.
pub power_sum-set_new :
    (vs : List Validator) (os : List (Option Vote)) (i : ℕ) (x : Vote) {v : Validator}
    → get_elem? vs i ≡ some v
    → get_elem? os i ≡ some none
    → power_sum vs (set os i (some x)) ≡ power_sum vs os + v.voting_power
power_sum-set_new [] os i x h k = absurd (cc)
power_sum-set_new (v ∷ vs) [] i x h k = absurd (cc)
power_sum-set_new (v ∷ vs) (none ∷ os) zero x h k = ground arith
power_sum-set_new (v ∷ vs) (some y ∷ os) zero x h k = absurd (cc)
power_sum-set_new (v ∷ vs) (none ∷ os) (suc i) x h k = power_sum-set_new vs os i x h k
power_sum-set_new (v ∷ vs) (some y ∷ os) (suc i) x h k =
    omega (arith, power_sum-set_new vs os i x h k)

-- A vote in the place of another changes no sum.
pub power_sum-set_old :
    (vs : List Validator) (os : List (Option Vote)) (i : ℕ) (x : Vote) {y : Vote}
    → get_elem? os i ≡ some (some y)
    → power_sum vs (set os i (some x)) ≡ power_sum vs os
power_sum-set_old [] os i x k = refl
power_sum-set_old (v ∷ vs) [] i x k = refl
power_sum-set_old (v ∷ vs) (none ∷ os) zero x k = absurd (cc)
power_sum-set_old (v ∷ vs) (some y ∷ os) zero x k = refl
power_sum-set_old (v ∷ vs) (none ∷ os) (suc i) x k = power_sum-set_old vs os i x k
power_sum-set_old (v ∷ vs) (some y ∷ os) (suc i) x k = omega (arith, power_sum-set_old vs os i x k)

pub map-set_vote :
    (os : List (Option Vote)) (i : ℕ) (x : Vote)
    → map is_some (set os i (some x)) ≡ set (map is_some os) i true
map-set_vote [] i x = refl
map-set_vote (o ∷ os) zero x = refl
map-set_vote (o ∷ os) (suc i) x = ap (◌∷◌ (is_some o)) (map-set_vote os i x)

pub map-replicate-none :
    (n : ℕ) → map is_some (replicate {A = Option Vote} n none) ≡ replicate n false
map-replicate-none zero = refl
map-replicate-none (suc n) = ap (◌∷◌ false) (map-replicate-none n)
