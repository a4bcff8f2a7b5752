-- ===== src/Merkle/Tree.antt =====
-- hash.go and `HashFromByteSlices`.
use tendermintx.Common.{
  ℕ, zero, suc, ◌-◌, ◌≤◌, ◌<◌, Bytes, List, [], ◌∷◌, ◌++◌, ◌≡◌, refl, ap, ◌∙◌, arith, length, take,
  drop, length-take, length-drop,
}
use tendermintx.Merkle.Split.{get_split_point, get_split_point_bounds}

-- `tmhash.Sum`, and the size of what it returns.
pub record Hash : Type 0 where
  pub sum : Bytes → Bytes
  pub size : (b : Bytes) → length (sum b) ≡ 32

module _ (hash : Hash) where
  unfoldable pub leaf_hash : Bytes → Bytes
  leaf_hash leaf = hash.sum (0 ∷ leaf)

  unfoldable pub inner_hash : Bytes → Bytes → Bytes
  inner_hash left right = hash.sum (1 ∷ left ++ right)

  -- `HashFromByteSlices`, with fuel.
  unfoldable pub tree_hash : ℕ → List Bytes → Bytes
  tree_hash f [] = []
  tree_hash f (x ∷ []) = leaf_hash x
  tree_hash zero (x ∷ y ∷ items) = []
  tree_hash (suc f) (x ∷ y ∷ items) =
      let k = get_split_point (length (x ∷ y ∷ items)) in
      inner_hash (tree_hash f (take k (x ∷ y ∷ items))) (tree_hash f (drop k (x ∷ y ∷ items)))

  unfoldable pub hash_from_byte_slices : List Bytes → Bytes
  unfolding tree_hash
  hash_from_byte_slices items = tree_hash (length items) items

  -- The halves of a list of two items and more are shorter, and not empty.
  pub halves_lem :
      (items : List Bytes)
      → 2 ≤ length items
      → (length (take (get_split_point (length items)) items) ≡ get_split_point (length items))
        × (length (drop (get_split_point (length items)) items)
            ≡ length items - get_split_point (length items))
  halves_lem items h =
      let (low, high, mid) = get_split_point_bounds (length items) h in
      (
        length-take (get_split_point (length items)) items (omega (arith, high)),
        length-drop (get_split_point (length items)) items,
      )

  -- The length of the list is enough fuel: more of it gives the same hash.
  pub tree_hash_fuel :
      (f g : ℕ) (items : List Bytes)
      → length items ≤ f
      → length items ≤ g
      → tree_hash f items ≡ tree_hash g items
  unfolding tree_hash
  tree_hash_fuel f g [] h k = refl
  tree_hash_fuel f g (x ∷ []) h k = refl
  tree_hash_fuel zero g (x ∷ y ∷ items) h k = absurd (omega (arith, h))
  tree_hash_fuel (suc f) zero (x ∷ y ∷ items) h k = absurd (omega (arith, k))
  tree_hash_fuel (suc f) (suc g) (x ∷ y ∷ items) h k =
      let l = x ∷ y ∷ items in
      let n = get_split_point (length l) in
      let (low, high, mid) = get_split_point_bounds (length l) (omega arith) in
      let (left, right) = halves_lem l (omega arith) in
      cc (
        tree_hash_fuel f g (take n l) (omega (arith, left, high, h)) (omega (arith, left, high, k)),
        tree_hash_fuel f g (drop n l) (omega (arith, right, low, h)) (omega (arith, right, low, k)),
      )

  -- The hash of two items and more is that of the hashes of their halves.
  pub hash_from_byte_slices-split :
      (items : List Bytes)
      → 2 ≤ length items
      → hash_from_byte_slices items
        ≡ inner_hash
            (hash_from_byte_slices (take (get_split_point (length items)) items))
            (hash_from_byte_slices (drop (get_split_point (length items)) items))
  unfolding hash_from_byte_slices
  hash_from_byte_slices-split [] h = absurd (omega (arith, h))
  hash_from_byte_slices-split (x ∷ []) h = absurd (omega (arith, h))
  hash_from_byte_slices-split (x ∷ y ∷ items) h =
      let l = x ∷ y ∷ items in
      let n = get_split_point (length l) in
      let (low, high, mid) = get_split_point_bounds (length l) h in
      let (left, right) = halves_lem l h in
      cc (
        tree_hash_fuel (suc (length items)) (length (take n l)) (take n l)
            (omega (arith, left, high)) (omega arith),
        tree_hash_fuel (suc (length items)) (length (drop n l)) (drop n l)
            (omega (arith, right, low)) (omega arith),
      )

  pub hash_from_byte_slices-one : (x : Bytes) → hash_from_byte_slices (x ∷ []) ≡ leaf_hash x
  unfolding hash_from_byte_slices
  hash_from_byte_slices-one x = refl

  pub length-leaf_hash : (x : Bytes) → length (leaf_hash x) ≡ 32
  unfolding leaf_hash
  length-leaf_hash x = hash.size (0 ∷ x)

  pub length-inner_hash : (l r : Bytes) → length (inner_hash l r) ≡ 32
  unfolding inner_hash
  length-inner_hash l r = hash.size (1 ∷ l ++ r)

  -- The hash of a list that is not empty has the size of a hash.
  pub length-hash_from_byte_slices :
      (items : List Bytes) → 0 < length items → length (hash_from_byte_slices items) ≡ 32
  length-hash_from_byte_slices [] h = absurd (omega (arith, h))
  length-hash_from_byte_slices (x ∷ []) h =
      ap length (hash_from_byte_slices-one x) ∙ length-leaf_hash x
  length-hash_from_byte_slices (x ∷ y ∷ items) h =
      ap length (hash_from_byte_slices-split (x ∷ y ∷ items) (omega arith)) ∙ length-inner_hash _ _
