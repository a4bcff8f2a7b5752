-- ===== src/Merkle/Iterative.antt =====
-- `HashFromByteSlicesIterative`, and that it gives the hash of the recursive function.
use tendermintx.Common.{
  ℕ, zero, suc, ◌+◌, ◌*◌, ◌/◌, ◌≤◌, Bytes, List, [], ◌∷◌, map, ◌≡◌, refl, sym, ap, ◌∙◌, arith,
  length, take, drop, length-map,
}
use tendermintx.Merkle.Split.{get_split_point, get_split_point_bounds, get_split_point_half}
use tendermintx.Merkle.Tree.{
  Hash, leaf_hash, inner_hash, tree_hash, hash_from_byte_slices, halves_lem,
}

module _ (hash : Hash) where
  -- One pass of the loop: the read position is never behind the write position.
  unfoldable pub pair_up : List Bytes → List Bytes
  pair_up [] = []
  pair_up (x ∷ []) = x ∷ []
  pair_up (x ∷ y ∷ items) = inner_hash hash x y ∷ pair_up items

  -- The outer loop, with fuel.
  unfoldable pub passes : ℕ → List Bytes → Bytes
  passes f [] = []
  passes f (x ∷ []) = x
  passes zero (x ∷ y ∷ items) = []
  passes (suc f) (x ∷ y ∷ items) = passes f (pair_up (x ∷ y ∷ items))

  unfoldable pub hash_from_byte_slices_iterative : List Bytes → Bytes
  unfolding passes
  hash_from_byte_slices_iterative input = passes (length input) (map (leaf_hash hash) input)

  -- The recursive function on the hashes of the leaves.
  folded : ℕ → List Bytes → Bytes
  folded f [] = []
  folded f (x ∷ []) = x
  folded zero (x ∷ y ∷ items) = []
  folded (suc f) (x ∷ y ∷ items) =
      let k = get_split_point (length (x ∷ y ∷ items)) in
      inner_hash hash (folded f (take k (x ∷ y ∷ items))) (folded f (drop k (x ∷ y ∷ items)))

  length-pair_up : (items : List Bytes) → length (pair_up items) ≡ (length items + 1) / 2
  unfolding pair_up
  length-pair_up [] = refl
  length-pair_up (x ∷ []) = refl
  length-pair_up (x ∷ y ∷ items) = omega (arith, length-pair_up items)

  take_nothing : (k : ℕ) → take {A = Bytes} k [] ≡ []
  take_nothing zero = refl
  take_nothing (suc k) = refl

  drop_nothing : (k : ℕ) → drop {A = Bytes} k [] ≡ []
  drop_nothing zero = refl
  drop_nothing (suc k) = refl

  -- A pass over an even number of items is a pass over each part.
  take-pair_up :
      (k m : ℕ) (items : List Bytes) → m ≡ 2 * k → take k (pair_up items) ≡ pair_up (take m items)
  unfolding pair_up
  take-pair_up zero zero items h = refl
  take-pair_up zero (suc m) items h = absurd (omega (arith, h))
  take-pair_up (suc k) zero items h = absurd (omega (arith, h))
  take-pair_up (suc k) (suc zero) items h = absurd (omega (arith, h))
  take-pair_up (suc k) (suc (suc m)) [] h = refl
  take-pair_up (suc k) (suc (suc m)) (x ∷ []) h =
      ap (λ rest. x ∷ rest) (take_nothing k)
      ∙ ap (λ rest. pair_up (x ∷ rest)) (sym (take_nothing (suc m)))
  take-pair_up (suc k) (suc (suc m)) (x ∷ y ∷ items) h =
      ap (λ rest. inner_hash hash x y ∷ rest) (take-pair_up k m items (omega (arith, h)))

  drop-pair_up :
      (k m : ℕ) (items : List Bytes) → m ≡ 2 * k → drop k (pair_up items) ≡ pair_up (drop m items)
  unfolding pair_up
  drop-pair_up zero zero items h = refl
  drop-pair_up zero (suc m) items h = absurd (omega (arith, h))
  drop-pair_up (suc k) zero items h = absurd (omega (arith, h))
  drop-pair_up (suc k) (suc zero) items h = absurd (omega (arith, h))
  drop-pair_up (suc k) (suc (suc m)) [] h = refl
  drop-pair_up (suc k) (suc (suc m)) (x ∷ []) h =
      drop_nothing k ∙ ap pair_up (sym (drop_nothing (suc m)))
  drop-pair_up (suc k) (suc (suc m)) (x ∷ y ∷ items) h = drop-pair_up k m items (omega (arith, h))

  folded-split :
      (f : ℕ) (items : List Bytes)
      → 2 ≤ length items
      → folded (suc f) items
        ≡ inner_hash hash
            (folded f (take (get_split_point (length items)) items))
            (folded f (drop (get_split_point (length items)) items))
  unfolding folded
  folded-split f [] h = absurd (omega (arith, h))
  folded-split f (x ∷ []) h = absurd (omega (arith, h))
  folded-split f (x ∷ y ∷ items) h = refl

  split_pair : get_split_point 2 ≡ 1
  unfolding get_split_point
  split_pair = refl

  folded_pair : (f : ℕ) (x y : Bytes) → folded (suc f) (x ∷ y ∷ []) ≡ inner_hash hash x y
  unfolding folded
  folded_pair f x y = rw split_pair refl

  -- A pass changes nothing of the hash that the recursive function gives.
  folded-pair_up :
      (f : ℕ) (items : List Bytes) → length items ≤ f → folded f (pair_up items) ≡ folded f items
  unfolding pair_up folded
  folded-pair_up f [] h = refl
  folded-pair_up f (x ∷ []) h = refl
  folded-pair_up zero (x ∷ y ∷ items) h = absurd (omega (arith, h))
  folded-pair_up (suc f) (x ∷ y ∷ []) h = sym (folded_pair f x y)
  folded-pair_up (suc f) (x ∷ y ∷ z ∷ items) h =
      let l = x ∷ y ∷ z ∷ items in
      let n = get_split_point (length l) in
      let k = get_split_point (length (pair_up l)) in
      let (low, high, mid) = get_split_point_bounds (length l) (omega arith) in
      let (left, right) = halves_lem hash l (omega arith) in
      let half : n ≡ 2 * k =
        get_split_point_half (length l) (omega arith)
        ∙ ap (λ i. 2 * get_split_point i) (sym (length-pair_up l)) in
      let first : folded f (take k (pair_up l)) ≡ folded f (take n l) =
        ap (folded f) (take-pair_up k n l half)
        ∙ folded-pair_up f (take n l) (omega (arith, left, high, h)) in
      let second : folded f (drop k (pair_up l)) ≡ folded f (drop n l) =
        ap (folded f) (drop-pair_up k n l half)
        ∙ folded-pair_up f (drop n l) (omega (arith, right, low, h)) in
      folded-split f (pair_up l) (omega (arith, length-pair_up l))
      ∙ ap (λ a. inner_hash hash a (folded f (drop k (pair_up l)))) first
      ∙ ap (inner_hash hash (folded f (take n l))) second

  passes-folded :
      (f g : ℕ) (items : List Bytes)
      → length items ≤ f
      → length items ≤ g
      → passes f items ≡ folded g items
  unfolding passes folded
  passes-folded f g [] h k = refl
  passes-folded f g (x ∷ []) h k = refl
  passes-folded zero g (x ∷ y ∷ items) h k = absurd (omega (arith, h))
  passes-folded (suc f) g (x ∷ y ∷ items) h k =
      let l = x ∷ y ∷ items in
      passes-folded f g (pair_up l) (omega (arith, length-pair_up l, h))
        (omega (arith, length-pair_up l, k))
      ∙ folded-pair_up g l k

  take-map :
      (n : ℕ) (items : List Bytes)
      → take n (map (leaf_hash hash) items) ≡ map (leaf_hash hash) (take n items)
  take-map zero items = refl
  take-map (suc n) [] = refl
  take-map (suc n) (x ∷ items) = ap (λ rest. leaf_hash hash x ∷ rest) (take-map n items)

  drop-map :
      (n : ℕ) (items : List Bytes)
      → drop n (map (leaf_hash hash) items) ≡ map (leaf_hash hash) (drop n items)
  drop-map zero items = refl
  drop-map (suc n) [] = refl
  drop-map (suc n) (x ∷ items) = drop-map n items

  folded-tree_hash :
      (f : ℕ) (items : List Bytes) → folded f (map (leaf_hash hash) items) ≡ tree_hash hash f items
  unfolding folded tree_hash
  folded-tree_hash f [] = refl
  folded-tree_hash f (x ∷ []) = refl
  folded-tree_hash zero (x ∷ y ∷ items) = refl
  folded-tree_hash (suc f) (x ∷ y ∷ items) =
      let l = x ∷ y ∷ items in
      let n = get_split_point (length l) in
      let size = length-map (leaf_hash hash) items in
      rw size (
        cc (
          take-map n l,
          folded-tree_hash f (take n l),
          drop-map n l,
          folded-tree_hash f (drop n l),
        ))

  -- The iterative function returns the hash of the recursive one.
  pub iterative_same :
      (items : List Bytes)
      → hash_from_byte_slices_iterative items ≡ hash_from_byte_slices hash items
  unfolding hash_from_byte_slices_iterative hash_from_byte_slices
  iterative_same items =
      let n = length items in
      let size = length-map (leaf_hash hash) items in
      passes-folded n n (map (leaf_hash hash) items) (omega (arith, size)) (omega (arith, size))
      ∙ folded-tree_hash n items
