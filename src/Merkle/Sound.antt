-- ===== src/Merkle/Sound.antt =====
-- crypto/merkle/proof.go: a verified proof is for the item at its index, or two inputs of the hash
-- function collide.
use mathlib.Core.List.{reverse, reverse-cons}
use tendermintx.Common.{
  ℕ, ◌≤◌, ◌<◌, pos, Bytes, Bytes-discrete, true, Option, none, some, List, [], ◌∷◌, ◌≡◌, ◌⊎◌, inl,
  inr, refl, ap, subst, arith, length, get_elem?, ltb, holds, All-append, Bool-cases,
}
use tendermintx.Merkle.Tree.{
  Hash, leaf_hash, hash_from_byte_slices, length-leaf_hash, length-hash_from_byte_slices,
}
use tendermintx.Merkle.Proof.{
  Proof, compute_hash_from_aunts, verify, validate_proof, aunts_sized, same_bytes,
}
use tendermintx.Merkle.Climb.{Collision, Sized, compute_hash_sound, compute_hash-beyond}

module _ (hash : Hash) where
  Sized-reverse : (aunts : List Bytes) → Sized aunts → Sized (reverse aunts)
  Sized-reverse [] h = tt
  Sized-reverse (a ∷ aunts) h =
      rw (reverse-cons a aunts) (
        All-append (λ a. length a ≡ 32) (reverse aunts) (a ∷ []) (Sized-reverse aunts h.1)
          (h.0, tt))

  aunts_sized-Sized : (aunts : List Bytes) → aunts_sized aunts ≡ true → Sized aunts
  unfolding aunts_sized
  aunts_sized-Sized [] h = tt
  aunts_sized-Sized (a ∷ aunts) h = (ground arith, aunts_sized-Sized aunts (ground arith))

  validate_proof-none : (p : Proof) → validate_proof p ≡ none → aunts_sized p.aunts ≡ true
  unfolding validate_proof
  validate_proof-none p e = ground arith

  same_bytes_lem :
      (o : Option Bytes) (b : Bytes) → same_bytes hash o b ≡ true → length b ≡ 32 → o ≡ some b
  same_bytes_lem none [] e n = absurd (omega (arith, n))
  same_bytes_lem none (x ∷ b) e n = elim (Bytes-discrete [] (x ∷ b)) [
    | yes same ↦ absurd (cc)
    | no differ ↦ absurd (ground arith)
  ]
  same_bytes_lem (some a) b e n = elim (Bytes-discrete a b) [
    | yes same ↦ ap some same
    | no differ ↦ absurd (ground arith)
  ]

  verify-none :
      (p : Proof) (root leaf : Bytes)
      → verify hash p root leaf ≡ none
      → (same_bytes hash p.leaf_hash (leaf_hash hash leaf) ≡ true)
        × (same_bytes hash (compute_hash_from_aunts hash p.index p.total p.leaf_hash p.aunts) root
            ≡ true)
  unfolding verify
  verify-none p root leaf e = ground arith

  computed_lem :
      (i : ℕ) (items : List Bytes) (leaf : Bytes) (aunts : List Bytes)
      → Sized aunts
      → compute_hash_from_aunts hash (pos i) (pos (length items)) (some (leaf_hash hash leaf)) aunts
        ≡ some (hash_from_byte_slices hash items)
      → (get_elem? items i ≡ some leaf) ⊎ Collision hash
  unfolding compute_hash_from_aunts
  computed_lem i items leaf aunts sized e = elim (Bool-cases (ltb i (length items))) [
    | inl low ↦
        compute_hash_sound hash i items leaf (reverse aunts) (ground arith)
          (Sized-reverse aunts sized) e
    | inr high ↦
        let nothing =
          compute_hash-beyond hash i (length items) (some (leaf_hash hash leaf)) (reverse aunts)
            (ground arith) in
        absurd (cc)
  ]

  -- A proof that `ValidateBasic` accepts and that verifies a leaf against the hash of a list which is
  -- not empty, with the list's length as its total: the leaf is the list's item at the proof's index,
  -- or two inputs of the hash function with one hash have been found.
  pub verify_sound :
      (items : List Bytes) (leaf : Bytes) (p : Proof) (i : ℕ)
      → 0 < length items
      → p.total ≡ pos (length items)
      → p.index ≡ pos i
      → validate_proof p ≡ none
      → verify hash p (hash_from_byte_slices hash items) leaf ≡ none
      → (get_elem? items i ≡ some leaf) ⊎ Collision hash
  verify_sound items leaf p i some_items total index valid verified =
      let root = hash_from_byte_slices hash items in
      let (same_leaf, same_root) = verify-none p root leaf verified in
      let leaf_is =
        same_bytes_lem p.leaf_hash (leaf_hash hash leaf) same_leaf (length-leaf_hash hash leaf) in
      let root_is =
        same_bytes_lem (compute_hash_from_aunts hash p.index p.total p.leaf_hash p.aunts) root
          same_root (length-hash_from_byte_slices hash items some_items) in
      computed_lem i items leaf p.aunts (aunts_sized-Sized p.aunts (validate_proof-none p valid))
        (cc (index, total, leaf_is, root_is))

  pub same_bytes_self : (b : Bytes) → same_bytes hash (some b) b ≡ true
  same_bytes_self b = elim (Bytes-discrete b b) as (λ d. holds d ≡ true) [
    | yes _ ↦ refl
    | no differ ↦ absurd (differ refl)
  ]

  verify_beyond :
      (leaf : Bytes) (aunts : List Bytes) (i n : ℕ)
      → n ≤ i
      → verify hash
          (record {
            total = pos n;
            index = pos i;
            leaf_hash = some (leaf_hash hash leaf);
            aunts = aunts;
          })
          []
          leaf
        ≡ none
  unfolding verify compute_hash_from_aunts Bytes-discrete
  verify_beyond leaf aunts i n beyond = ground (
    arith,
    same_bytes_self (leaf_hash hash leaf),
    compute_hash-beyond hash i n (some (leaf_hash hash leaf)) (reverse aunts),
  )

  -- A proof whose index is not below its total, and which holds the leaf's hash, verifies the leaf
  -- against the empty root hash.
  pub verify_empty_root :
      (leaf : Bytes) (p : Proof) (i n : ℕ)
      → p.total ≡ pos n
      → p.index ≡ pos i
      → n ≤ i
      → p.leaf_hash ≡ some (leaf_hash hash leaf)
      → verify hash p [] leaf ≡ none
  verify_empty_root leaf p i n total index beyond held =
      let q : Proof = record {
        total = pos n;
        index = pos i;
        leaf_hash = some (leaf_hash hash leaf);
        aunts = p.aunts;
      } in
      let same : q ≡ p = ground (arith, total, index, held) in
      subst (λ (r : Proof). verify hash r [] leaf ≡ none) same
        (verify_beyond leaf p.aunts i n beyond)
