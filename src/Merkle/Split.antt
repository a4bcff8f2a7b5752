-- ===== src/Merkle/Split.antt =====
-- `getSplitPoint`: where a list of items is split.
use native.Mathlib.Nat.{pow-suc, one-le-pow}
use tendermintx.Common.{
  ℕ, zero, suc, ◌+◌, ◌-◌, ◌*◌, ◌/◌, ◌^◌, ◌≤◌, ◌<◌, ◌≡◌, inl, inr, refl, ap, ◌∙◌, ℕ_discrete, arith,
  ◌==◌, leb, if◌then◌else◌, Bool-cases,
}

-- `bits.Len`: the number of binary digits; as many turns as the number itself are enough.
unfoldable pub bits_len_from : ℕ → ℕ → ℕ
bits_len_from zero n = 0
bits_len_from (suc f) n = let rest = bits_len_from f (n / 2) in if n == 0 then 0 else 1 + rest

unfoldable pub bits_len : ℕ → ℕ
unfolding bits_len_from
bits_len n = bits_len_from n n

-- `getSplitPoint`; its panic for a length below 1 is met by no caller, since they split only lists
-- of two items and more.
unfoldable pub get_split_point : ℕ → ℕ
unfolding bits_len
get_split_point length = let k = 2 ^ (bits_len length - 1) in if k == length then k / 2 else k

bits_len_from-zero : (f : ℕ) → bits_len_from f 0 ≡ 0
unfolding bits_len_from
bits_len_from-zero zero = refl
bits_len_from-zero (suc f) = refl

len_step : (f n : ℕ) → 0 < n → bits_len_from (suc f) n ≡ suc (bits_len_from f (n / 2))
unfolding bits_len_from
len_step f n h = ground arith

len_one : (f : ℕ) → bits_len_from (suc f) 1 ≡ 1
len_one f = len_step f 1 (omega arith) ∙ ap suc (bits_len_from-zero f)

-- A number other than zero lies between the power of its first digit and the next one.
bits_len_from_bound :
    (f n : ℕ)
    → n ≤ f
    → 0 < n
    → (l : ℕ) × (bits_len_from f n ≡ suc l) × (2 ^ l ≤ n) × (n < 2 * 2 ^ l)
bits_len_from_bound zero n h p = absurd (omega (arith, h, p))
bits_len_from_bound (suc f) n h p = elim (Bool-cases (leb n 1)) [
  | inl one ↦
      let low : n ≡ 1 = ground arith in
      (0, rw low (len_one f), omega (arith, low), omega (arith, low))
  | inr more ↦
      let two : 2 ≤ n = ground arith in
      let (l, e, lo, hi) = bits_len_from_bound f (n / 2) (omega (arith, h)) (omega (arith, two)) in
      (
        suc l,
        len_step f n p ∙ ap suc e,
        omega (arith, pow-suc 2 l, lo),
        omega (arith, pow-suc 2 l, hi),
      )
]

split_bounds :
    (n l : ℕ)
    → 2 ≤ n
    → bits_len n ≡ suc l
    → 2 ^ l ≤ n
    → n < 2 * 2 ^ l
    → (0 < get_split_point n) × (get_split_point n < n) × (n ≤ 2 * get_split_point n)
unfolding get_split_point
split_bounds n zero h e lo hi = absurd (omega (arith, h, hi))
split_bounds n (suc l) h e lo hi = rw e (ground (arith, pow-suc 2 l, one-le-pow l 2 (omega arith)))

-- The list is split strictly inside, and at the middle or after it.
pub get_split_point_bounds :
    (n : ℕ)
    → 2 ≤ n
    → (0 < get_split_point n) × (get_split_point n < n) × (n ≤ 2 * get_split_point n)
get_split_point_bounds n h =
    let (l, e, lo, hi) = bits_len_from_bound n n (omega arith) (omega (arith, h)) in
    split_bounds n l h (unfold bits_len in e) lo hi

split_power :
    (n l : ℕ)
    → 2 ≤ n
    → bits_len n ≡ suc l
    → 2 ^ l ≤ n
    → n < 2 * 2 ^ l
    → (j : ℕ) × (get_split_point n ≡ 2 ^ j) × (2 ^ j < n) × (n ≤ 2 * 2 ^ j)
unfolding get_split_point
split_power n zero h e lo hi = absurd (omega (arith, h, hi))
split_power n (suc l) h e lo hi = elim (ℕ_discrete (2 ^ suc l) n) [
  | yes same ↦ (
    l,
    rw e (ground (arith, pow-suc 2 l)),
    omega (arith, pow-suc 2 l, one-le-pow l 2 (omega arith), same),
    omega (arith, pow-suc 2 l, same),
  )
  | no differ ↦ (suc l, rw e (ground arith), ground (arith, lo), omega (arith, hi))
]

-- The split point is the power of two below the length and not below its half.
get_split_point_power :
    (n : ℕ) → 2 ≤ n → (j : ℕ) × (get_split_point n ≡ 2 ^ j) × (2 ^ j < n) × (n ≤ 2 * 2 ^ j)
get_split_point_power n h =
    let (l, e, lo, hi) = bits_len_from_bound n n (omega arith) (omega (arith, h)) in
    split_power n l h (unfold bits_len in e) lo hi

-- There is one such power.
power_unique : (n i j : ℕ) → 2 ^ i < n → n ≤ 2 * 2 ^ i → 2 ^ j < n → n ≤ 2 * 2 ^ j → 2 ^ i ≡ 2 ^ j
power_unique n zero zero a b c d = refl
power_unique n zero (suc j) a b c d =
    absurd (omega (arith, b, c, pow-suc 2 j, one-le-pow j 2 (omega arith)))
power_unique n (suc i) zero a b c d =
    absurd (omega (arith, d, a, pow-suc 2 i, one-le-pow i 2 (omega arith)))
power_unique n (suc i) (suc j) a b c d =
    let halved =
      power_unique ((n + 1) / 2) i j (omega (arith, a, pow-suc 2 i)) (omega (arith, b, pow-suc 2 i))
        (omega (arith, c, pow-suc 2 j)) (omega (arith, d, pow-suc 2 j)) in
    omega (arith, halved, pow-suc 2 i, pow-suc 2 j)

-- From three items on, the split point is twice that of half as many items, rounded up.
pub get_split_point_half : (n : ℕ) → 3 ≤ n → get_split_point n ≡ 2 * get_split_point ((n + 1) / 2)
get_split_point_half n h =
    let (i, e, lo, hi) = get_split_point_power n (omega (arith, h)) in
    let (j, e', lo', hi') = get_split_point_power ((n + 1) / 2) (omega (arith, h)) in
    let same =
      power_unique n i (suc j) lo hi (omega (arith, lo', pow-suc 2 j))
        (omega (arith, hi', pow-suc 2 j)) in
    omega (arith, e, e', same, pow-suc 2 j)
