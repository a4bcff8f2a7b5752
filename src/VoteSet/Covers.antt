-- ===== src/VoteSet/Covers.antt =====
-- Lists of votes that cover one another.
use tendermintx.Common.{
  ℕ, zero, suc, ◌+◌, ◌≤◌, true, Option, none, some, List, [], ◌∷◌, ◌≡◌, refl, ap, arith, length,
  get_elem?, set, replicate, map,
}
use tendermintx.Types.Vote.{Vote}
use tendermintx.VoteSet.Defs.{Validator, is_some, copy_votes}
use tendermintx.VoteSet.Power.{power_sum}

-- Where the first list has a vote the second has one that satisfies `Q`; the lengths agree.
abbrev pub Covered : (Vote → Type 0) → List (Option Vote) → List (Option Vote) → Type 0
Covered Q [] [] = Unit
Covered Q [] (o ∷ os) = ⊥
Covered Q (b ∷ bs) [] = ⊥
Covered Q (none ∷ bs) (o ∷ os) = Covered Q bs os
Covered Q (some b ∷ bs) (none ∷ os) = ⊥
Covered Q (some b ∷ bs) (some o ∷ os) = Q o × Covered Q bs os

abbrev pub AllVotes : (Vote → Type 0) → List (Option Vote) → Type 0
AllVotes Q [] = Unit
AllVotes Q (none ∷ os) = AllVotes Q os
AllVotes Q (some v ∷ os) = Q v × AllVotes Q os

abbrev pub AnyVote : Vote → Type 0
AnyVote v = Unit

pub AllVotes-set :
    (Q : Vote → Type 0) (os : List (Option Vote)) (i : ℕ) (x : Vote)
    → Q x
    → AllVotes Q os
    → AllVotes Q (set os i (some x))
AllVotes-set Q [] i x q h = tt
AllVotes-set Q (none ∷ os) zero x q h = (q, h)
AllVotes-set Q (some v ∷ os) zero x q h = (q, h.1)
AllVotes-set Q (none ∷ os) (suc i) x q h = AllVotes-set Q os i x q h
AllVotes-set Q (some v ∷ os) (suc i) x q h = (h.0, AllVotes-set Q os i x q h.1)

pub AllVotes-none : (Q : Vote → Type 0) (n : ℕ) → AllVotes Q (replicate n none)
AllVotes-none Q zero = tt
AllVotes-none Q (suc n) = AllVotes-none Q n

module _ (Q : Vote → Type 0) where
  pub Covered-none : (os : List (Option Vote)) → Covered Q (replicate (length os) none) os
  Covered-none [] = tt
  Covered-none (o ∷ os) = Covered-none os

  pub Covered-set_new :
      (bs os : List (Option Vote)) (i : ℕ) (x : Vote)
      → get_elem? os i ≡ some none
      → Covered Q bs os
      → Covered Q bs (set os i (some x))
  Covered-set_new [] [] i x k c = tt
  Covered-set_new [] (o ∷ os) i x k c = absurd c
  Covered-set_new (b ∷ bs) [] i x k c = absurd c
  Covered-set_new (none ∷ bs) (o ∷ os) zero x k c = c
  Covered-set_new (some b ∷ bs) (none ∷ os) zero x k c = absurd c
  Covered-set_new (some b ∷ bs) (some o ∷ os) zero x k c = absurd (cc)
  Covered-set_new (none ∷ bs) (o ∷ os) (suc i) x k c = Covered-set_new bs os i x k c
  Covered-set_new (some b ∷ bs) (none ∷ os) (suc i) x k c = absurd c
  Covered-set_new (some b ∷ bs) (some o ∷ os) (suc i) x k c = (c.0, Covered-set_new bs os i x k c.1)

  pub Covered-set_right :
      (bs os : List (Option Vote)) (i : ℕ) (x : Vote)
      → Q x
      → Covered Q bs os
      → Covered Q bs (set os i (some x))
  Covered-set_right [] [] i x q c = tt
  Covered-set_right [] (o ∷ os) i x q c = absurd c
  Covered-set_right (b ∷ bs) [] i x q c = absurd c
  Covered-set_right (none ∷ bs) (o ∷ os) zero x q c = c
  Covered-set_right (some b ∷ bs) (none ∷ os) zero x q c = absurd c
  Covered-set_right (some b ∷ bs) (some o ∷ os) zero x q c = (q, c.1)
  Covered-set_right (none ∷ bs) (o ∷ os) (suc i) x q c = Covered-set_right bs os i x q c
  Covered-set_right (some b ∷ bs) (none ∷ os) (suc i) x q c = absurd c
  Covered-set_right (some b ∷ bs) (some o ∷ os) (suc i) x q c =
      (c.0, Covered-set_right bs os i x q c.1)

  pub Covered-set_left :
      (bs os : List (Option Vote)) (i : ℕ) (x : Vote) (o : Vote)
      → get_elem? os i ≡ some (some o)
      → Q o
      → Covered Q bs os
      → Covered Q (set bs i (some x)) os
  Covered-set_left [] [] i x y k q c = tt
  Covered-set_left [] (o ∷ os) i x y k q c = absurd c
  Covered-set_left (b ∷ bs) [] i x y k q c = absurd c
  Covered-set_left (b ∷ bs) (none ∷ os) zero x y k q c = absurd (cc)
  Covered-set_left (none ∷ bs) (some o ∷ os) zero x y k q c =
      let same : y ≡ o = cc in (rw (← same) q, c)
  Covered-set_left (some b ∷ bs) (some o ∷ os) zero x y k q c =
      let same : y ≡ o = cc in (rw (← same) q, c.1)
  Covered-set_left (none ∷ bs) (o ∷ os) (suc i) x y k q c = Covered-set_left bs os i x y k q c
  Covered-set_left (some b ∷ bs) (none ∷ os) (suc i) x y k q c = absurd c
  Covered-set_left (some b ∷ bs) (some o ∷ os) (suc i) x y k q c =
      (c.0, Covered-set_left bs os i x y k q c.1)

  -- Copying the votes of a block over votes that cover it.
  pub Covered-copy_self :
      (R : Vote → Type 0) (bs os : List (Option Vote))
      → AllVotes Q bs
      → Covered R bs os
      → Covered Q bs (copy_votes bs os)
  unfolding copy_votes
  Covered-copy_self R [] [] q c = tt
  Covered-copy_self R [] (o ∷ os) q c = absurd c
  Covered-copy_self R (b ∷ bs) [] q c = absurd c
  Covered-copy_self R (none ∷ bs) (o ∷ os) q c = Covered-copy_self R bs os q c
  Covered-copy_self R (some b ∷ bs) (none ∷ os) q c = absurd c
  Covered-copy_self R (some b ∷ bs) (some o ∷ os) q c = (q.0, Covered-copy_self R bs os q.1 c.1)

pub Covered-copy :
    (as' bs os : List (Option Vote))
    → Covered AnyVote as' os
    → Covered AnyVote as' (copy_votes bs os)
unfolding copy_votes
Covered-copy [] [] [] c = tt
Covered-copy [] (b ∷ bs) [] c = tt
Covered-copy [] bs (o ∷ os) c = absurd c
Covered-copy (a ∷ as') bs [] c = absurd c
Covered-copy as' [] os c = c
Covered-copy (none ∷ as') (none ∷ bs) (o ∷ os) c = Covered-copy as' bs os c
Covered-copy (none ∷ as') (some b ∷ bs) (o ∷ os) c = Covered-copy as' bs os c
Covered-copy (some a ∷ as') (b ∷ bs) (none ∷ os) c = absurd c
Covered-copy (some a ∷ as') (none ∷ bs) (some o ∷ os) c = (tt, Covered-copy as' bs os c.1)
Covered-copy (some a ∷ as') (some b ∷ bs) (some o ∷ os) c = (tt, Covered-copy as' bs os c.1)

pub power_sum-copy :
    (vs : List Validator) (Q : Vote → Type 0) (bs os : List (Option Vote))
    → Covered Q bs os
    → power_sum vs (copy_votes bs os) ≡ power_sum vs os
unfolding copy_votes
power_sum-copy [] Q bs os c = refl
power_sum-copy (v ∷ vs) Q [] os c = refl
power_sum-copy (v ∷ vs) Q (b ∷ bs) [] c = absurd c
power_sum-copy (v ∷ vs) Q (none ∷ bs) (none ∷ os) c = power_sum-copy vs Q bs os c
power_sum-copy (v ∷ vs) Q (none ∷ bs) (some o ∷ os) c =
    ap (◌+◌ v.voting_power) (power_sum-copy vs Q bs os c)
power_sum-copy (v ∷ vs) Q (some b ∷ bs) (none ∷ os) c = absurd c
power_sum-copy (v ∷ vs) Q (some b ∷ bs) (some o ∷ os) c =
    ap (◌+◌ v.voting_power) (power_sum-copy vs Q bs os c.1)

pub map-copy :
    (Q : Vote → Type 0) (bs os : List (Option Vote))
    → Covered Q bs os
    → map is_some (copy_votes bs os) ≡ map is_some os
unfolding copy_votes
map-copy Q [] os c = refl
map-copy Q (b ∷ bs) [] c = absurd c
map-copy Q (none ∷ bs) (o ∷ os) c = ap (◌∷◌ (is_some o)) (map-copy Q bs os c)
map-copy Q (some b ∷ bs) (none ∷ os) c = absurd c
map-copy Q (some b ∷ bs) (some o ∷ os) c = ap (◌∷◌ true) (map-copy Q bs os c.1)

pub length-copy : (bs os : List (Option Vote)) → length (copy_votes bs os) ≡ length os
unfolding copy_votes
length-copy [] os = refl
length-copy (b ∷ bs) [] = refl
length-copy (none ∷ bs) (o ∷ os) = ap suc (length-copy bs os)
length-copy (some b ∷ bs) (o ∷ os) = ap suc (length-copy bs os)

-- A covered list has at most the power of the list that covers it.
pub power_sum-Covered :
    (vs : List Validator) (Q : Vote → Type 0) (bs os : List (Option Vote))
    → Covered Q bs os
    → power_sum vs bs ≤ power_sum vs os
power_sum-Covered [] Q bs os c = omega arith
power_sum-Covered (v ∷ vs) Q [] os c = omega arith
power_sum-Covered (v ∷ vs) Q (b ∷ bs) [] c = absurd c
power_sum-Covered (v ∷ vs) Q (none ∷ bs) (none ∷ os) c = power_sum-Covered vs Q bs os c
power_sum-Covered (v ∷ vs) Q (none ∷ bs) (some o ∷ os) c =
    omega (arith, power_sum-Covered vs Q bs os c)
power_sum-Covered (v ∷ vs) Q (some b ∷ bs) (none ∷ os) c = absurd c
power_sum-Covered (v ∷ vs) Q (some b ∷ bs) (some o ∷ os) c =
    omega (arith, power_sum-Covered vs Q bs os c.1)
