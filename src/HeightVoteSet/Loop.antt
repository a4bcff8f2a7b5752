-- ===== src/HeightVoteSet/Loop.antt =====
-- The loop of `SetRound`: it ends for each round but the largest, and tracks the rounds it reaches.
use tendermintx.Common.{
  ℕ, zero, suc, ◌<◌, ◌<ℤ◌, true, ℤ, pos, ◌+ℤ◌, ◌-ℤ◌, ltb_ℤ, ℤ-discrete, false, none, some, ◌≡◌, inl,
  inr, refl, sym, ap, ◌∙◌, arith, find, store, find-store_self, find-store_ne, Option-cases, ok,
}
use tendermintx.VoteSet.Defs.{Crypto}
use tendermintx.HeightVoteSet.Defs.{
  RoundVoteSet, HeightVoteSet, add_round, add_rounds, wrap_int32, max_int32,
}
use tendermintx.HeightVoteSet.Good.{Good, add_round_lem}

over_lem : (last r : ℤ) → last +ℤ pos 1 ≡ r +ℤ pos 0 → ltb_ℤ last r ≡ true
unfolding ◌+ℤ◌
over_lem last r e = ground arith

goes_on_lem : (n : ℕ) (last r : ℤ) → last +ℤ pos 1 ≡ r +ℤ pos (suc n) → ltb_ℤ last r ≡ false
unfolding ◌+ℤ◌
goes_on_lem n last r e = ground arith

-- A round below the largest int32 does not wrap.
wrap_lem :
    (r last : ℤ) → ltb_ℤ last r ≡ false → last <ℤ max_int32 → wrap_int32 (r +ℤ pos 1) ≡ r +ℤ pos 1
unfolding wrap_int32 ◌+ℤ◌ ◌-ℤ◌
wrap_lem r last h low = ground arith

next_lem : (r : ℤ) (i : ℕ) → (r +ℤ pos 1) +ℤ pos i ≡ r +ℤ pos (suc i)
unfolding ◌+ℤ◌
next_lem r i = ground arith

here_lem : (r : ℤ) → r +ℤ pos 0 ≡ r
unfolding ◌+ℤ◌
here_lem r = ground arith

-- The rounds that were tracked are as they were.
abbrev pub Extends : HeightVoteSet → HeightVoteSet → Type 0
Extends h t =
    (k : ℤ) (x : RoundVoteSet)
    → find ℤ-discrete k h.round_vote_sets ≡ some x
    → find ℤ-discrete k t.round_vote_sets ≡ some x

store-Extends :
    (r : ℤ) (rvs : RoundVoteSet) (h : HeightVoteSet)
    → find ℤ-discrete r h.round_vote_sets ≡ none
    → Extends h (record h { round_vote_sets = store ℤ-discrete r rvs h.round_vote_sets })
store-Extends r rvs h missing k x e = elim (ℤ-discrete r k) [
  | yes same ↦ absurd (ground (arith, ap (λ j. find ℤ-discrete j h.round_vote_sets) same))
  | no differ ↦ find-store_ne ℤ-discrete r k rvs h.round_vote_sets differ ∙ e
]

reached_next :
    (n : ℕ) (r : ℤ) (t : HeightVoteSet) (x : RoundVoteSet)
    → find ℤ-discrete r t.round_vote_sets ≡ some x
    → ((i : ℕ)
        → i < n
        → (y : RoundVoteSet) × (find ℤ-discrete ((r +ℤ pos 1) +ℤ pos i) t.round_vote_sets ≡ some y))
    → (i : ℕ) → i < suc n
    → (y : RoundVoteSet) × (find ℤ-discrete (r +ℤ pos i) t.round_vote_sets ≡ some y)
reached_next n r t x here reached zero low =
    (x, ap (λ j. find ℤ-discrete j t.round_vote_sets) (here_lem r) ∙ here)
reached_next n r t x here reached (suc i) low =
    let (y, found) = reached i (omega (arith, low)) in
    (y, ap (λ j. find ℤ-discrete j t.round_vote_sets) (sym (next_lem r i)) ∙ found)

module _ (crypto : Crypto) where
  last_turn : (last r : ℤ) (h : HeightVoteSet) → ltb_ℤ last r ≡ true → add_rounds 1 last r h ≡ ok h
  unfolding add_rounds
  last_turn last r h over = rw over refl

  turn-known :
      (n : ℕ) (last r next : ℤ) (h : HeightVoteSet) (x : RoundVoteSet)
      → ltb_ℤ last r ≡ false
      → wrap_int32 (r +ℤ pos 1) ≡ next
      → find ℤ-discrete r h.round_vote_sets ≡ some x
      → add_rounds (suc n) last r h ≡ add_rounds n last next h
  unfolding add_rounds
  turn-known n last r next h x goes_on step found = rw (goes_on, found, step) refl

  turn-new :
      (n : ℕ) (last r next : ℤ) (h u : HeightVoteSet)
      → ltb_ℤ last r ≡ false
      → wrap_int32 (r +ℤ pos 1) ≡ next
      → find ℤ-discrete r h.round_vote_sets ≡ none
      → add_round r h ≡ ok u
      → add_rounds (suc n) last r h ≡ add_rounds n last next u
  unfolding add_rounds
  turn-new n last r next h u goes_on step missing grown = rw (goes_on, missing, grown, step) refl

  -- The loop over `n` rounds to the last one ends, and tracks every round that it reaches.
  pub add_rounds_lem :
      (n : ℕ) (last r : ℤ) (h : HeightVoteSet)
      → last +ℤ pos 1 ≡ r +ℤ pos n
      → last <ℤ max_int32
      → Good crypto h
      → (t : HeightVoteSet) × (add_rounds (suc n) last r h ≡ ok t)
        × Good crypto t
        × Extends h t
        × ((i : ℕ)
            → i < n
            → (x : RoundVoteSet) × (find ℤ-discrete (r +ℤ pos i) t.round_vote_sets ≡ some x))
  add_rounds_lem zero last r h size low good = (
    h,
    last_turn last r h (over_lem last r size),
    good,
    λ k x e. e,
    λ i below. absurd (omega (arith, below)),
  )
  add_rounds_lem (suc n) last r h size low good =
      let goes_on = goes_on_lem n last r size in
      let size' : last +ℤ pos 1 ≡ (r +ℤ pos 1) +ℤ pos n = size ∙ sym (next_lem r n) in
      let step = wrap_lem r last goes_on low in
      elim (Option-cases (find ℤ-discrete r h.round_vote_sets)) [
        | inr (x, found) ↦
            let (t, run, good', ext, reached) =
              add_rounds_lem n last (r +ℤ pos 1) h size' low good in
            (
              t,
              turn-known (suc n) last r _ h x goes_on step found ∙ run,
              good',
              ext,
              reached_next n r t x (ext r x found) reached,
            )
        | inl missing ↦
            let (rvs, grown, _, good1) = add_round_lem crypto r h good missing in
            let u : HeightVoteSet = record h {
              round_vote_sets = store ℤ-discrete r rvs h.round_vote_sets;
            } in
            let (t, run, good', ext, reached) =
              add_rounds_lem n last (r +ℤ pos 1) u size' low good1 in
            let here : find ℤ-discrete r u.round_vote_sets ≡ some rvs =
              find-store_self ℤ-discrete r rvs h.round_vote_sets in
            (
              t,
              turn-new (suc n) last r _ h u goes_on step missing grown ∙ run,
              good',
              λ k x e. ext k x (store-Extends r rvs h missing k x e),
              reached_next n r t rvs (ext r rvs here) reached,
            )
      ]
