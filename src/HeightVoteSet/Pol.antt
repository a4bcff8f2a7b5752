-- ===== src/HeightVoteSet/Pol.antt =====
-- `POLInfo`: the last round with a majority of prevotes.
use tendermintx.Common.{
  ℕ, zero, suc, ◌*◌, ◌<◌, ◌≤◌, pos, ℤ-discrete, none, some, ◌≡◌, ◌⊎◌, inl, inr, arith, find,
  All-find, Option-cases, ℕ_discrete, ap, sym, ◌∙◌,
}
use tendermintx.Types.BlockId.{BlockId}
use tendermintx.VoteSet.Defs.{Crypto, key, two_thirds_majority}
use tendermintx.VoteSet.Power.{power_sum, power_total}
use tendermintx.VoteSet.Support.{supporters}
use tendermintx.VoteSet.Majority.{majority_power}
use tendermintx.HeightVoteSet.Defs.{
  RoundVoteSet, HeightVoteSet, prevote_majority, pol_below, pol_info,
}
use tendermintx.HeightVoteSet.Good.{Good, RoundOk}

pol_below-step :
    (n : ℕ) (h : HeightVoteSet)
    → ((prevote_majority n h ≡ none) × (pol_below (suc n) h ≡ pol_below n h))
      ⊎ ((b : BlockId) × (prevote_majority n h ≡ some b) × (pol_below (suc n) h ≡ some (n, b)))
unfolding pol_below
pol_below-step n h = elim (Option-cases (prevote_majority n h)) [
  | inl e ↦ inl (e, rw (pol_below, e))
  | inr (b, e) ↦ inr (b, e, rw (pol_below, e))
]

none_at :
    (n : ℕ) (h : HeightVoteSet) (k : ℕ)
    → prevote_majority n h ≡ none
    → k < suc n
    → (k < n → prevote_majority k h ≡ none)
    → prevote_majority k h ≡ none
none_at n h k e low below = elim (ℕ_discrete k n) [
  | yes same ↦ ap (λ j. prevote_majority j h) same ∙ e
  | no differ ↦ below (ground arith)
]

not-pol_below-zero : (h : HeightVoteSet) {x : ℕ × BlockId} → ¬ (pol_below zero h ≡ some x)
unfolding pol_below
not-pol_below-zero h e = cc

-- What the loop returns, and what it passes over.
pol_below-some :
    (n : ℕ) (h : HeightVoteSet) {r : ℕ} {b : BlockId}
    → pol_below n h ≡ some (r, b)
    → (r < n)
      × (prevote_majority r h ≡ some b)
      × ((k : ℕ) → r < k → k < n → prevote_majority k h ≡ none)
pol_below-some zero h e = absurd (not-pol_below-zero h e)
pol_below-some (suc n) h {r} {b} e = elim (pol_below-step n h) [
  | inl (here, run) ↦
      let (low, found, above) = pol_below-some n h (sym run ∙ e) in
      (omega (arith, low), found, λ k up top. none_at n h k here top (above k up))
  | inr (c, here, run) ↦
      let same_r : n ≡ r = cc in
      let same_b : c ≡ b = cc in
      (
        omega (arith, same_r),
        ap (λ j. prevote_majority j h) (sym same_r) ∙ here ∙ ap some same_b,
        λ k up top. absurd (omega (arith, same_r, up, top)),
      )
]

pol_below-none :
    (n : ℕ) (h : HeightVoteSet)
    → pol_below n h ≡ none
    → (k : ℕ) → k < n
    → prevote_majority k h ≡ none
pol_below-none zero h e k low = absurd (omega (arith, low))
pol_below-none (suc n) h e k low = elim (pol_below-step n h) [
  | inl (here, run) ↦ none_at n h k here low (pol_below-none n h (sym run ∙ e) k)
  | inr (c, here, run) ↦ absurd (cc)
]

prevote_majority_lem :
    (r : ℕ) (h : HeightVoteSet) {b : BlockId}
    → prevote_majority r h ≡ some b
    → (rvs : RoundVoteSet) × (find ℤ-discrete (pos r) h.round_vote_sets ≡ some rvs)
      × (two_thirds_majority rvs.prevotes ≡ some b)
unfolding prevote_majority
prevote_majority_lem r h e = elim (Option-cases (find ℤ-discrete (pos r) h.round_vote_sets)) [
  | inl missing ↦ absurd (ground arith)
  | inr (rvs, found) ↦ (rvs, found, ground arith)
]

pol_info_round : (h : HeightVoteSet) (n : ℕ) → h.round ≡ pos n → pol_info h ≡ pol_below (suc n) h
unfolding pol_info
pol_info_round h n e = ground arith

module _ (crypto : Crypto) where
  -- In a good state at round `n`, the round and the block that `POLInfo` returns: the round is at
  -- most `n`, its prevotes for the block have more than two thirds of the power, and no later round
  -- up to `n` has a majority of prevotes.
  pub pol_info_correct :
      (h : HeightVoteSet) (n : ℕ) {r : ℕ} {b : BlockId}
      → Good crypto h
      → h.round ≡ pos n
      → pol_info h ≡ some (r, b)
      → (r ≤ n)
        × ((rvs : RoundVoteSet) × (find ℤ-discrete (pos r) h.round_vote_sets ≡ some rvs)
            × (2 * power_total h.val_set.validators
                < 3
                  * power_sum h.val_set.validators
                      (supporters crypto (key crypto b) rvs.prevotes.votes)))
        × ((k : ℕ) → r < k → k ≤ n → prevote_majority k h ≡ none)
  pol_info_correct h n {r} {b} good at e =
      let (low, here, above) = pol_below-some (suc n) h (sym (pol_info_round h n at) ∙ e) in
      let (rvs, found, m) = prevote_majority_lem r h here in
      let fits =
        (All-find ℤ-discrete (RoundOk crypto h.chain_id h.height h.val_set) (pos r)
          h.round_vote_sets good.rounds found).0 in
      (
        omega (arith, low),
        (rvs, found, rw (← fits.same_vals) (majority_power crypto b fits.reach m)),
        λ k up top. above k up (omega (arith, top)),
      )

-- If `POLInfo` returns no round at round `n`, no round up to `n` has a majority of prevotes.
pub pol_info-none :
    (h : HeightVoteSet) (n : ℕ)
    → h.round ≡ pos n
    → pol_info h ≡ none
    → (k : ℕ) → k ≤ n
    → prevote_majority k h ≡ none
pol_info-none h n at e k low =
    pol_below-none (suc n) h (sym (pol_info_round h n at) ∙ e) k (omega (arith, low))

-- No round above that of `POLInfo` has a majority of prevotes.
pub pol_info-above :
    (h : HeightVoteSet) (n : ℕ) {r : ℕ} {b : BlockId}
    → h.round ≡ pos n
    → pol_info h ≡ some (r, b)
    → (k : ℕ) → r < k
    → k ≤ n
    → prevote_majority k h ≡ none
pol_info-above h n at e k up top =
    (pol_below-some (suc n) h (sym (pol_info_round h n at) ∙ e)).2 k up (omega (arith, top))
