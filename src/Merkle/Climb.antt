-- ===== src/Merkle/Climb.antt =====
-- How crypto/merkle/proof.go computes a hash from a leaf and its aunts, and what that says of the leaf.
use tendermintx.Common.{
  ℕ, zero, suc, ◌-◌, ◌≤◌, ◌<◌, Bytes, Bytes-discrete, Option, none, some, List, [], ◌∷◌, ◌++◌, ◌≡◌,
  ◌≢◌, ◌⊎◌, inl, inr, sym, ap, ◌∙◌, arith, length, get_elem?, ltb, ◌==◌, take, drop, get_elem?-take,
  get_elem?-drop, append_cancel, All, Bool-cases, Option-cases,
}
use tendermintx.Merkle.Split.{get_split_point, get_split_point_bounds}
use tendermintx.Merkle.Tree.{
  Hash, leaf_hash, inner_hash, hash_from_byte_slices, hash_from_byte_slices-split,
  hash_from_byte_slices-one, length-leaf_hash, length-inner_hash, length-hash_from_byte_slices,
  halves_lem,
}
use tendermintx.Merkle.Proof.{compute_hash}

-- Two inputs with one hash.
abbrev pub Collision : Hash → Type 0
Collision hash = (a : Bytes) × (b : Bytes) × (a ≢ b) × (hash.sum a ≡ hash.sum b)

-- Hashes of the size that the source accepts.
abbrev pub Sized : List Bytes → Type 0
Sized = All (λ a. length a ≡ 32)

module _ (hash : Hash) where
  same_input : (a b : Bytes) → hash.sum a ≡ hash.sum b → (a ≡ b) ⊎ Collision hash
  same_input a b e = elim (Bytes-discrete a b) [
    | yes same ↦ inl same
    | no differ ↦ inr (a, b, differ, e)
  ]

  leaf_hash_cancel : (a b : Bytes) → leaf_hash hash a ≡ leaf_hash hash b → (a ≡ b) ⊎ Collision hash
  unfolding leaf_hash
  leaf_hash_cancel a b e = elim (same_input (0 ∷ a) (0 ∷ b) e) [
    | inl same ↦ inl (cc)
    | inr c ↦ inr c
  ]

  -- Equal inner hashes have equal parts, if the left parts have one size.
  inner_hash_cancel :
      (a b c d : Bytes)
      → length a ≡ length c
      → inner_hash hash a b ≡ inner_hash hash c d
      → ((a ≡ c) × (b ≡ d)) ⊎ Collision hash
  unfolding inner_hash
  inner_hash_cancel a b c d n e = elim (same_input (1 ∷ a ++ b) (1 ∷ c ++ d) e) [
    | inl same ↦ inl (append_cancel a b c d n (cc))
    | inr k ↦ inr k
  ]

  -- How a hash is computed from the outermost aunt.
  compute_hash-inv :
      (i n : ℕ) (leaf h aunt : Bytes) (aunts : List Bytes)
      → i < n
      → compute_hash (inner_hash hash) i n (some leaf) (aunt ∷ aunts) ≡ some h
      → (2 ≤ n)
        × (((i < get_split_point n)
              × ((g : Bytes) × (compute_hash
                      (inner_hash hash)
                      i
                      (get_split_point n)
                      (some leaf)
                      aunts
                    ≡ some g)
                  × (h ≡ inner_hash hash g aunt)))
            ⊎ ((get_split_point n ≤ i)
                × ((g : Bytes) × (compute_hash
                        (inner_hash hash)
                        (i - get_split_point n)
                        (n - get_split_point n)
                        (some leaf)
                        aunts
                      ≡ some g)
                    × (h ≡ inner_hash hash aunt g))))
  unfolding compute_hash
  compute_hash-inv i n leaf h aunt aunts low e =
      let k = get_split_point n in
      elim (Bool-cases (n == 1)) [
        | inl one ↦ absurd (ground arith)
        | inr more ↦ elim (Bool-cases (ltb i k)) [
          | inl before ↦
              elim (Option-cases (compute_hash (inner_hash hash) i k (some leaf) aunts)) [
                | inl nothing ↦ absurd (ground arith)
                | inr (g, q) ↦ (ground arith, inl (ground arith, (g, q, ground arith)))
              ]
          | inr after ↦
              elim (Option-cases
                (compute_hash (inner_hash hash) (i - k) (n - k) (some leaf) aunts)) [
                  | inl nothing ↦ absurd (ground arith)
                  | inr (g, q) ↦ (ground arith, inr (ground arith, (g, q, ground arith)))
                ]
        ]
      ]

  compute_hash-nil :
      (i n : ℕ) (leaf h : Bytes)
      → i < n
      → compute_hash (inner_hash hash) i n (some leaf) [] ≡ some h
      → (n ≡ 1) × (h ≡ leaf)
  unfolding compute_hash
  compute_hash-nil i n leaf h low e = ground arith

  -- What is computed from a leaf of the size of a hash has that size.
  length-compute_hash :
      (i n : ℕ) (leaf h : Bytes) (aunts : List Bytes)
      → i < n
      → length leaf ≡ 32
      → compute_hash (inner_hash hash) i n (some leaf) aunts ≡ some h
      → length h ≡ 32
  length-compute_hash i n leaf h [] low size e =
      let (one, same) = compute_hash-nil i n leaf h low e in ap length same ∙ size
  length-compute_hash i n leaf h (aunt ∷ aunts) low size e =
      let (two, way) = compute_hash-inv i n leaf h aunt aunts low e in
      elim way [
        | inl (before, (g, q, made)) ↦ ap length made ∙ length-inner_hash hash g aunt
        | inr (after, (g, q, made)) ↦ ap length made ∙ length-inner_hash hash aunt g
      ]

  one_item :
      (i : ℕ) (items : List Bytes) (leaf : Bytes)
      → i < length items
      → length items ≡ 1
      → hash_from_byte_slices hash items ≡ leaf_hash hash leaf
      → (get_elem? items i ≡ some leaf) ⊎ Collision hash
  one_item i [] leaf low one e = absurd (omega (arith, low))
  one_item zero (x ∷ []) leaf low one e =
      elim (leaf_hash_cancel x leaf (sym (hash_from_byte_slices-one hash x) ∙ e)) [
        | inl same ↦ inl (ap some same)
        | inr c ↦ inr c
      ]
  one_item (suc i) (x ∷ []) leaf low one e = absurd (omega (arith, low))
  one_item i (x ∷ y ∷ items) leaf low one e = absurd (omega (arith, one))

  -- The hash of a list is computed from a leaf and aunts only if the leaf is the item there.
  pub compute_hash_sound :
      (i : ℕ) (items : List Bytes) (leaf : Bytes) (aunts : List Bytes)
      → i < length items
      → Sized aunts
      → compute_hash (inner_hash hash) i (length items) (some (leaf_hash hash leaf)) aunts
        ≡ some (hash_from_byte_slices hash items)
      → (get_elem? items i ≡ some leaf) ⊎ Collision hash
  compute_hash_sound i items leaf [] low sized e =
      let (one, same) = compute_hash-nil i (length items) (leaf_hash hash leaf) _ low e in
      one_item i items leaf low one same
  compute_hash_sound i items leaf (aunt ∷ aunts) low sized e =
      let k = get_split_point (length items) in
      let (two, way) = compute_hash-inv i (length items) (leaf_hash hash leaf) _ aunt aunts low e in
      let (first, last, mid) = get_split_point_bounds (length items) two in
      let (left, right) = halves_lem hash items two in
      let split = hash_from_byte_slices-split hash items two in
      let size_left =
        length-hash_from_byte_slices hash (take k items) (omega (arith, left, first)) in
      elim way [
        | inl (before, (g, q, made)) ↦
            let size_g =
              length-compute_hash i k (leaf_hash hash leaf) g aunts before
                (length-leaf_hash hash leaf) q in
            elim (inner_hash_cancel g aunt (hash_from_byte_slices hash (take k items))
              (hash_from_byte_slices hash (drop k items)) (size_g ∙ sym size_left)
              (sym made ∙ split)) [
                | inr c ↦ inr c
                | inl (same, _) ↦
                    elim (compute_hash_sound i (take k items) leaf aunts
                      (omega (arith, left, before)) sized.1
                      (ap
                          (λ n.
                            compute_hash (inner_hash hash) i n (some (leaf_hash hash leaf)) aunts)
                          left
                        ∙ q
                        ∙ ap some same)) [
                          | inr c ↦ inr c
                          | inl found ↦ inl (sym (get_elem?-take k items i before) ∙ found)
                        ]
              ]
        | inr (after, (g, q, made)) ↦
            elim (inner_hash_cancel aunt g (hash_from_byte_slices hash (take k items))
              (hash_from_byte_slices hash (drop k items)) (sized.0 ∙ sym size_left)
              (sym made ∙ split)) [
                | inr c ↦ inr c
                | inl (_, same) ↦
                    elim (compute_hash_sound (i - k) (drop k items) leaf aunts
                      (omega (arith, right, after, low, last)) sized.1
                      (ap
                          (λ n.
                            compute_hash (inner_hash hash) (i - k) n (some (leaf_hash hash leaf))
                              aunts)
                          right
                        ∙ q
                        ∙ ap some same)) [
                          | inr c ↦ inr c
                          | inl found ↦ inl (sym (get_elem?-drop k items i after) ∙ found)
                        ]
              ]
      ]

  pub compute_hash-beyond :
      (i n : ℕ) (leaf : Option Bytes) (aunts : List Bytes)
      → n ≤ i
      → compute_hash (inner_hash hash) i n leaf aunts ≡ none
  unfolding compute_hash
  compute_hash-beyond i n leaf [] h = ground arith
  compute_hash-beyond i n leaf (a ∷ aunts) h = ground arith
