-- ===== src/HeightVoteSet/Rounds.antt =====
-- `SetRound`: which rounds are tracked afterwards.
use tendermintx.Common.{
  ℕ, suc, ◌-◌, ◌≤◌, ◌<◌, ◌^◌, ◌<ℤ◌, ℤ, pos, negsuc, ◌+ℤ◌, ◌-ℤ◌, ◌==ℤ◌, ltb_ℤ, ℤ-discrete, false,
  not, ◌&&◌, some, ◌≡◌, refl, sym, ap, ◌∙◌, arith, find, ok,
}
use tendermintx.VoteSet.Defs.{Crypto}
use tendermintx.HeightVoteSet.Defs.{
  RoundVoteSet, HeightVoteSet, add_rounds, set_round, safe_sub_int32, turns, max_int32,
}
use tendermintx.HeightVoteSet.Good.{Good}
use tendermintx.HeightVoteSet.Loop.{Extends, add_rounds_lem}

safe_sub_lem : (n : ℕ) → safe_sub_int32 (pos n) (pos 1) ≡ ok (pos n -ℤ pos 1)
unfolding safe_sub_int32 ◌+ℤ◌ ◌-ℤ◌
safe_sub_lem n = ground arith

-- The loop reaches every round from the first to the last.
turns_lem : (n m k : ℕ) → n ≤ k → k ≤ m → suc (k - n) < turns (pos n -ℤ pos 1) (pos m)
unfolding turns ◌+ℤ◌ ◌-ℤ◌
turns_lem n m k low high = ground arith

size_lem :
    (n m : ℕ)
    → n ≤ suc m
    → pos m +ℤ pos 1 ≡ (pos n -ℤ pos 1) +ℤ pos (turns (pos n -ℤ pos 1) (pos m))
unfolding turns ◌+ℤ◌ ◌-ℤ◌
size_lem n m low = ground arith

-- A round below the largest one.
below_max_lem : (m : ℕ) → m < 2 ^ 31 - 1 → pos m <ℤ max_int32
below_max_lem m low = omega (arith, low)

reached_lem : (n k : ℕ) → n ≤ k → (pos n -ℤ pos 1) +ℤ pos (suc (k - n)) ≡ pos k
unfolding ◌+ℤ◌ ◌-ℤ◌
reached_lem n k low = ground arith

some_turn_lem : (m : ℕ) → 0 < turns (pos 0 -ℤ pos 1) (pos m)
unfolding turns ◌+ℤ◌ ◌-ℤ◌
some_turn_lem m = ground arith

before_first_lem : (pos 0 -ℤ pos 1) +ℤ pos 0 ≡ negsuc 0
unfolding ◌+ℤ◌ ◌-ℤ◌
before_first_lem = refl

-- The guard of `SetRound`.
guard_lem :
    (n m : ℕ) → n ≤ suc m → (not (pos n ==ℤ pos 0) && ltb_ℤ (pos m) (pos n -ℤ pos 1)) ≡ false
unfolding ◌-ℤ◌
guard_lem n m low = ground arith

module _ (crypto : Crypto) where
  set_round-run :
      (h t : HeightVoteSet) (first last : ℤ)
      → safe_sub_int32 h.round (pos 1) ≡ ok first
      → (not (h.round ==ℤ pos 0) && ltb_ℤ last first) ≡ false
      → add_rounds (suc (turns first last)) last first h ≡ ok t
      → set_round last h ≡ ok (record t { round = last })
  unfolding set_round
  set_round-run h t first last sub fine run = rw (set_round, sub, fine, run)

  -- In a good state at round `n`, setting a round that is at least `n - 1`, and
  -- less than the largest int32, returns without a panic.
  -- The state is good afterwards and at that round, what was tracked is as it was, and every round
  -- from `n` to the new one is tracked.
  pub set_round_correct :
      (h : HeightVoteSet) (n m : ℕ)
      → Good crypto h
      → h.round ≡ pos n
      → n ≤ suc m
      → m < 2 ^ 31 - 1
      → (t : HeightVoteSet) × (set_round (pos m) h ≡ ok t)
        × Good crypto t
        × (t.round ≡ pos m)
        × Extends h t
        × ((k : ℕ)
            → n ≤ k
            → k ≤ m
            → (x : RoundVoteSet) × (find ℤ-discrete (pos k) t.round_vote_sets ≡ some x))
  set_round_correct h n m good at low small =
      let first = pos n -ℤ pos 1 in
      let (t, run, good', ext, reached) =
        add_rounds_lem crypto (turns first (pos m)) (pos m) first h (size_lem n m low)
          (below_max_lem m small) good in
      (
        record t { round = pos m },
        set_round-run h t first (pos m) (ap (λ q. safe_sub_int32 q (pos 1)) at ∙ safe_sub_lem n)
            (ap (λ q. not (q ==ℤ pos 0) && ltb_ℤ (pos m) first) at ∙ guard_lem n m low) run,
        record {
          nonzero = good'.nonzero;
          total = good'.total;
          rounds = good'.rounds;
          catchup = good'.catchup;
        },
        refl,
        ext,
        λ k from to.
            let (x, found) = reached (suc (k - n)) (turns_lem n m k from to) in
            (x, ap (λ j. find ℤ-discrete j t.round_vote_sets) (sym (reached_lem n k from)) ∙ found),
      )

  -- In a good state at round 0, setting any round but the largest int32 also tracks round -1.
  pub set_round-tracks_before_first :
      (h : HeightVoteSet) (m : ℕ)
      → Good crypto h
      → h.round ≡ pos 0
      → m < 2 ^ 31 - 1
      → (t : HeightVoteSet) × (x : RoundVoteSet) × (set_round (pos m) h ≡ ok t)
        × (find ℤ-discrete (negsuc 0) t.round_vote_sets ≡ some x)
  set_round-tracks_before_first h m good at small =
      let first = pos 0 -ℤ pos 1 in
      let (t, run, good', ext, reached) =
        add_rounds_lem crypto (turns first (pos m)) (pos m) first h (size_lem 0 m (omega arith))
          (below_max_lem m small) good in
      let (x, found) = reached 0 (some_turn_lem m) in
      (
        record t { round = pos m },
        x,
        set_round-run h t first (pos m) (ap (λ q. safe_sub_int32 q (pos 1)) at ∙ safe_sub_lem 0)
            (ap (λ q. not (q ==ℤ pos 0) && ltb_ℤ (pos m) first) at ∙ guard_lem 0 m (omega arith))
            run,
        ap (λ j. find ℤ-discrete j t.round_vote_sets) (sym before_first_lem) ∙ found,
      )
