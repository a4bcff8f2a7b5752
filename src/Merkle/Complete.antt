-- ===== src/Merkle/Complete.antt =====
-- The proofs that are made verify.
use tendermintx.Common.{
  ℕ, zero, suc, ◌+◌, ◌<◌, pos, Bytes, none, some, List, [], ◌∷◌, ◌≡◌, refl, ap, ◌∙◌, arith, length,
  get_elem?, ok,
}
use tendermintx.Merkle.Tree.{Hash, leaf_hash, tree_hash, hash_from_byte_slices}
use tendermintx.Merkle.Proof.{
  Proof, Trail, flatten_aunts, trails, number, proofs_from_byte_slices, compute_hash_from_aunts,
  verify,
}
use tendermintx.Merkle.Sound.{same_bytes_self}
use tendermintx.Merkle.Trails.{Leads, trails-Trailed}

module _ (hash : Hash) where
  -- The proof of a trail at an index.
  abbrev proof_of : ℕ → ℕ → Trail → Proof
  proof_of total i t = record {
    total = pos total;
    index = pos i;
    leaf_hash = some t.hash;
    aunts = flatten_aunts t;
  }

  number_lem :
      (total j : ℕ) (ts : List Trail) (i : ℕ) {t : Trail}
      → get_elem? ts i ≡ some t
      → get_elem? (number hash total j ts) i ≡ some (proof_of total (j + i) t)
  unfolding number
  number_lem total j [] i e = absurd (cc)
  number_lem total j (t ∷ ts) zero e = ground arith
  number_lem total j (x ∷ ts) (suc i) {t} e =
      let next : suc j + i ≡ j + suc i = omega arith in
      number_lem total (suc j) ts i e ∙ ap (λ n. some (proof_of total n t)) next

  length-number : (total j : ℕ) (ts : List Trail) → length (number hash total j ts) ≡ length ts
  unfolding number
  length-number total j [] = refl
  length-number total j (t ∷ ts) = ap suc (length-number total (suc j) ts)

  verify_trail :
      (total i : ℕ) (item root : Bytes) (t : Trail)
      → Leads hash i total item root t
      → verify hash (proof_of total i t) root item ≡ none
  unfolding verify compute_hash_from_aunts
  verify_trail total i item root t (h, e) =
      ground
        (arith, same_bytes_self hash (leaf_hash hash item), same_bytes_self hash root, e, ap some h)

  proofs-run :
      (items : List Bytes) {root : Bytes}
      → (trails hash (length items) items).1 ≡ some root
      → proofs_from_byte_slices hash items
        ≡ ok (root, number hash (length items) 0 (trails hash (length items) items).0)
  unfolding proofs_from_byte_slices
  proofs-run items e = rw (proofs_from_byte_slices, e)

  -- For a list that is not empty, the root that `ProofsFromByteSlices` returns is that of
  -- `HashFromByteSlices`, there are as many proofs as items, and the proof at each index verifies the
  -- item there against the root; its index and total are right.
  pub proofs_complete :
      (items : List Bytes)
      → 0 < length items
      → (proofs : List Proof) × (proofs_from_byte_slices hash items
          ≡ ok (hash_from_byte_slices hash items, proofs))
        × (length proofs ≡ length items)
        × ((i : ℕ) (item : Bytes)
            → get_elem? items i ≡ some item
            → (p : Proof) × (get_elem? proofs i ≡ some p)
              × (verify hash p (hash_from_byte_slices hash items) item ≡ none)
              × (p.index ≡ pos i)
              × (p.total ≡ pos (length items)))
  unfolding hash_from_byte_slices
  proofs_complete items some_items =
      let n = length items in
      let made = trails-Trailed hash n items (omega arith) some_items in
      let ts = (trails hash n items).0 in
      (
        number hash n 0 ts,
        proofs-run items made.rooted,
        length-number n 0 ts ∙ made.as_long,
        λ i item e.
            let (t, at, leads) = made.leads i item e in
            (
              proof_of n i t,
              number_lem n 0 ts i at ∙ ap (λ j. some (proof_of n j t)) (omega arith),
              verify_trail n i item (tree_hash hash n items) t leads,
              refl,
              refl,
            ),
      )
