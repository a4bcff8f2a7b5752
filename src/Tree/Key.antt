-- ===== src/Tree/Key.antt =====
-- Keys and their order: interface.go, and `compare` of llrb.go.
use Prim.Native.Nat.{Ordering}
use tendermintx.Common.{
  ℕ, ℤ, Bytes, [], ◌∷◌, ◌≡◌, refl, arith, ltb, ltb_ℤ, if◌then◌else◌, eq_of_parts, negsuc, replicate,
  ◌^◌, ◌-◌,
}

pub record NodeKey : Type 0 where
  pub priority : ℕ  -- uint64
  pub ts : ℤ
  pub hash : Bytes

-- `bytes.Compare`: lexicographic, with a prefix first
unfoldable pub bytes_compare : Bytes → Bytes → Ordering
bytes_compare [] [] = Ordering.eq
bytes_compare [] (b ∷ bs) = Ordering.lt
bytes_compare (a ∷ as') [] = Ordering.gt
bytes_compare (a ∷ as') (b ∷ bs) =
    if ltb a b then Ordering.lt else if ltb b a then Ordering.gt else bytes_compare as' bs

-- A higher priority is greater, and then an earlier time.
unfoldable pub compare : NodeKey → NodeKey → Ordering
compare a b =
    if ltb b.priority a.priority
    then Ordering.gt
    else if ltb a.priority b.priority
    then Ordering.lt
    else if ltb_ℤ a.ts b.ts
    then Ordering.gt
    else if ltb_ℤ b.ts a.ts
    then Ordering.lt
    else bytes_compare a.hash b.hash

-- A comparison that orders its keys linearly, and tells different keys apart.
pub record IsLinearOrder {K : Type 0} (cmp : K → K → Ordering) : Type 0 where
  pub cmp_refl : (a : K) → cmp a a ≡ Ordering.eq
  pub eq_of_cmp : (a b : K) → cmp a b ≡ Ordering.eq → a ≡ b
  pub gt_of_lt : (a b : K) → cmp a b ≡ Ordering.lt → cmp b a ≡ Ordering.gt
  pub lt_of_gt : (a b : K) → cmp a b ≡ Ordering.gt → cmp b a ≡ Ordering.lt
  pub lt_trans : (a b c : K) → cmp a b ≡ Ordering.lt → cmp b c ≡ Ordering.lt → cmp a c ≡ Ordering.lt

bytes_compare_refl : (a : Bytes) → bytes_compare a a ≡ Ordering.eq
unfolding bytes_compare
bytes_compare_refl [] = refl
bytes_compare_refl (a ∷ l) = ground (arith, bytes_compare_refl l)

bytes_eq_of_compare : (a b : Bytes) → bytes_compare a b ≡ Ordering.eq → a ≡ b
unfolding bytes_compare
bytes_eq_of_compare [] [] h = refl
bytes_eq_of_compare [] (b ∷ bs) h = absurd (cc)
bytes_eq_of_compare (a ∷ l) [] h = absurd (cc)
bytes_eq_of_compare (a ∷ l) (b ∷ m) h = ground (arith, bytes_eq_of_compare l m)

bytes_gt_of_lt : (a b : Bytes) → bytes_compare a b ≡ Ordering.lt → bytes_compare b a ≡ Ordering.gt
unfolding bytes_compare
bytes_gt_of_lt [] [] h = absurd (cc)
bytes_gt_of_lt [] (b ∷ bs) h = refl
bytes_gt_of_lt (a ∷ l) [] h = absurd (cc)
bytes_gt_of_lt (a ∷ l) (b ∷ m) h = ground (arith, bytes_gt_of_lt l m)

bytes_lt_of_gt : (a b : Bytes) → bytes_compare a b ≡ Ordering.gt → bytes_compare b a ≡ Ordering.lt
unfolding bytes_compare
bytes_lt_of_gt [] [] h = absurd (cc)
bytes_lt_of_gt [] (b ∷ bs) h = absurd (cc)
bytes_lt_of_gt (a ∷ l) [] h = refl
bytes_lt_of_gt (a ∷ l) (b ∷ m) h = ground (arith, bytes_lt_of_gt l m)

bytes_lt_trans :
    (a b c : Bytes)
    → bytes_compare a b ≡ Ordering.lt
    → bytes_compare b c ≡ Ordering.lt
    → bytes_compare a c ≡ Ordering.lt
unfolding bytes_compare
bytes_lt_trans [] [] c h k = absurd (cc)
bytes_lt_trans [] (b ∷ m) [] h k = absurd (cc)
bytes_lt_trans [] (b ∷ m) (c ∷ n) h k = refl
bytes_lt_trans (a ∷ l) [] c h k = absurd (cc)
bytes_lt_trans (a ∷ l) (b ∷ m) [] h k = absurd (cc)
bytes_lt_trans (a ∷ l) (b ∷ m) (c ∷ n) h k = ground (arith, bytes_lt_trans l m n)

compare_refl : (a : NodeKey) → compare a a ≡ Ordering.eq
unfolding compare
compare_refl a = ground (arith, bytes_compare_refl a.hash)

compare_eq : (a b : NodeKey) → compare a b ≡ Ordering.eq → a ≡ b
unfolding compare
compare_eq a b h = ground (arith, bytes_eq_of_compare a.hash b.hash, eq_of_parts a.ts b.ts)

compare_gt_of_lt : (a b : NodeKey) → compare a b ≡ Ordering.lt → compare b a ≡ Ordering.gt
unfolding compare
compare_gt_of_lt a b h = ground (arith, bytes_gt_of_lt a.hash b.hash)

compare_lt_of_gt : (a b : NodeKey) → compare a b ≡ Ordering.gt → compare b a ≡ Ordering.lt
unfolding compare
compare_lt_of_gt a b h = ground (arith, bytes_lt_of_gt a.hash b.hash)

compare_trans :
    (a b c : NodeKey)
    → compare a b ≡ Ordering.lt
    → compare b c ≡ Ordering.lt
    → compare a c ≡ Ordering.lt
unfolding compare
compare_trans a b c h k = ground (arith, bytes_lt_trans a.hash b.hash c.hash)

-- The comparison of keys is a linear order, and it calls two keys equal only if their priority, time
-- and hash agree.
pub compare-IsLinearOrder : IsLinearOrder compare
compare-IsLinearOrder = record {
  cmp_refl = compare_refl;
  eq_of_cmp = compare_eq;
  gt_of_lt = compare_gt_of_lt;
  lt_of_gt = compare_lt_of_gt;
  lt_trans = compare_trans;
}

-- Time zero in Go, 1 January of year 1.
abbrev zero_time : ℤ
zero_time = negsuc 62_135_596_799_999_999_999

-- The key that `GetNext` starts from when it is given none.
unfoldable pub start_key : NodeKey
start_key = record { priority = 2 ^ 64 - 1; ts = zero_time; hash = replicate 32 0 }
