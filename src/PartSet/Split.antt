-- ===== src/PartSet/Split.antt =====
-- `NewPartSetFromData`: data are split into parts, and read back.
use native.Mathlib.Nat.{div-add-mod', mod-lt, suc-mul}
use tendermintx.Common.{
  ℕ, zero, suc, ◌+◌, ◌-◌, ◌*◌, ◌/◌, ◌%◌, ◌^◌, ◌≤◌, ◌<◌, Bytes, true, false, ltb, ◌==◌, panic,
  Option, some, List, [], ◌∷◌, ◌++◌, ◌≡◌, inl, inr, refl, sym, ap, ◌∙◌, arith, length, take, drop,
  length-drop, ℕ_discrete, leb, if◌then◌else◌, Bool-cases, Run, ok, ◌>>=◌,
}
use tendermintx.Merkle.Tree.{Hash, hash_from_byte_slices}
use tendermintx.Merkle.Proof.{Proof, proofs_from_byte_slices, trails}
use tendermintx.Merkle.Complete.{proofs_complete}
use tendermintx.PartSet.{Part, PartSet, is_complete, read_parts, read_all}
use tendermintx.PartSet.Assembly.{joined, read_all-parts}

unfoldable pub min_int : ℕ → ℕ → ℕ
min_int a b = if leb a b then a else b

unfoldable pub wrap_uint32 : ℕ → ℕ
wrap_uint32 n = n % 2 ^ 32

-- The loop that slices the bytes, from an index on, for so many parts; a slice that ends before it
-- begins is a panic.
unfoldable pub slices : ℕ → ℕ → ℕ → Bytes → Run (List Bytes)
unfolding min_int wrap_uint32
slices zero i size bytes = ok []
slices (suc n) i size bytes =
    let first = wrap_uint32 (i * size) in
    let last = min_int (length bytes) (wrap_uint32 (suc i * size)) in
    let rest = slices n (suc i) size bytes in
    if ltb last first
    then panic
    else rest >>= λ items. ok (take (last - first) (drop first bytes) ∷ items)

-- The parts, from an index on; a proof that is missing is a nil dereference, which is not met.
unfoldable pub parts_with : ℕ → List Bytes → List Proof → List (Option Part)
parts_with i [] proofs = []
parts_with i (x ∷ items) [] = []
parts_with i (x ∷ items) (p ∷ proofs) =
    some (record { index = i; bytes = x; proof = p }) ∷ parts_with (suc i) items proofs

module _ (hash : Hash) where
  unfoldable pub new_part_set_from_data : Bytes → ℕ → Run PartSet
  unfolding slices parts_with wrap_uint32
  new_part_set_from_data bytes size = if size == 0 then panic else (do
    let total = wrap_uint32 (length bytes + size - 1) / size
    items ← slices total 0 size bytes
    (root, proofs) ← proofs_from_byte_slices hash items
    ok (record { total = total; hash = root; parts = parts_with 0 items proofs; count = total }))

-- The slices from an offset on, of numbers that do not wrap.
chunks : ℕ → ℕ → ℕ → Bytes → List Bytes
unfolding min_int
chunks zero offset size bytes = []
chunks (suc n) offset size bytes =
    take (min_int (length bytes) (offset + size) - offset) (drop offset bytes)
    ∷ chunks n (offset + size) size bytes

wrap_uint32_lem : (n : ℕ) → n < 2 ^ 32 → wrap_uint32 n ≡ n
unfolding wrap_uint32
wrap_uint32_lem n h = omega (arith, h)

wrapped_sum_lem : (n size : ℕ) → n ≤ 2 ^ 32 → 2 ^ 32 < n + size → wrap_uint32 (n + size - 1) < size
unfolding wrap_uint32
wrapped_sum_lem n size long over = omega (arith, long, over)

no_whole : (n m : ℕ) → n < m → n / m ≡ 0
no_whole n m h = elim (ℕ_discrete (n / m) 0) [
  | yes e ↦ e
  | no some_parts ↦
      let k = n / m - 1 in
      let whole = div-add-mod' n m in
      let e : n / m ≡ suc k = ground (arith, some_parts) in
      let more : n / m * m ≡ k * m + m = ap (λ q. q * m) e ∙ suc-mul k m in
      absurd (omega (arith, h, whole, more))
]

slices_step :
    (n i size offset : ℕ) (bytes : Bytes)
    → wrap_uint32 (i * size) ≡ offset
    → wrap_uint32 (suc i * size) ≡ offset + size
    → offset ≤ length bytes
    → slices n (suc i) size bytes ≡ ok (chunks n (offset + size) size bytes)
    → slices (suc n) i size bytes ≡ ok (chunks (suc n) offset size bytes)
unfolding slices min_int chunks
slices_step n i size offset bytes first last low rest =
    let fine : ltb (min_int (length bytes) (offset + size)) offset ≡ false = ground arith in
    rw (first, last, fine, rest) refl

slices-chunks :
    (n i size : ℕ) (bytes : Bytes)
    → i * size + n * size < length bytes + size
    → length bytes + size ≤ 2 ^ 32
    → slices n i size bytes ≡ ok (chunks n (i * size) size bytes)
slices-chunks zero i size bytes fits small = unfold slices chunks in refl
slices-chunks (suc n) i size bytes fits small =
    let next : suc i * size ≡ i * size + size = suc-mul i size in
    let more : suc n * size ≡ n * size + size = suc-mul n size in
    slices_step n i size (i * size) bytes
      (wrap_uint32_lem (i * size) (omega (arith, fits, small, more)))
      (ap wrap_uint32 next ∙ wrap_uint32_lem (i * size + size) (omega (arith, fits, small, more)))
      (omega (arith, fits, more))
      (slices-chunks n (suc i) size bytes (omega (arith, fits, more, next)) small
        ∙ ap (λ offset. ok (chunks n offset size bytes)) next)

length-chunks : (n offset size : ℕ) (bytes : Bytes) → length (chunks n offset size bytes) ≡ n
unfolding chunks
length-chunks zero offset size bytes = refl
length-chunks (suc n) offset size bytes = ap suc (length-chunks n (offset + size) size bytes)

take-drop : (k : ℕ) (b : Bytes) → take k b ++ drop k b ≡ b
take-drop zero b = refl
take-drop (suc k) [] = refl
take-drop (suc k) (x ∷ b) = ap (λ c. x ∷ c) (take-drop k b)

drop_all : (k : ℕ) (b : Bytes) → length b ≤ k → drop k b ≡ []
drop_all zero [] h = refl
drop_all zero (x ∷ b) h = absurd (omega (arith, h))
drop_all (suc k) [] h = refl
drop_all (suc k) (x ∷ b) h = drop_all k b (omega (arith, h))

drop-drop : (i k m : ℕ) (b : Bytes) → m ≡ i + k → drop k (drop i b) ≡ drop m b
drop-drop zero k m b e = let same : k ≡ m = omega (arith, e) in ap (λ n. drop n b) same
drop-drop (suc i) k zero b e = absurd (omega (arith, e))
drop-drop (suc i) k (suc m) [] e = drop_all k [] (omega arith)
drop-drop (suc i) k (suc m) (x ∷ b) e = drop-drop i k m b (omega (arith, e))

-- One slice, and what is left after it.
slice_lem :
    (offset size : ℕ) (bytes : Bytes)
    → drop (min_int (length bytes) (offset + size) - offset) (drop offset bytes)
      ≡ drop (offset + size) bytes
unfolding min_int
slice_lem offset size bytes = elim (Bool-cases (leb (length bytes) (offset + size))) [
  | inl short ↦
      drop_all _ (drop offset bytes) (ground (arith, short, length-drop offset bytes))
      ∙ sym (drop_all (offset + size) bytes (ground (arith, short)))
  | inr long ↦ drop-drop offset _ (offset + size) bytes (ground (arith, long))
]

joined-chunks :
    (n offset size : ℕ) (bytes : Bytes)
    → length bytes ≤ offset + n * size
    → joined (chunks n offset size bytes) ≡ drop offset bytes
unfolding chunks
joined-chunks zero offset size bytes h = sym (drop_all offset bytes (omega (arith, h)))
joined-chunks (suc n) offset size bytes h =
    let k = min_int (length bytes) (offset + size) - offset in
    ap (λ rest. take k (drop offset bytes) ++ rest)
      (joined-chunks n (offset + size) size bytes (omega (arith, h, suc-mul n size))
        ∙ sym (slice_lem offset size bytes))
    ∙ take-drop k (drop offset bytes)

read-parts_with :
    (i : ℕ) (items : List Bytes) (proofs : List Proof)
    → length proofs ≡ length items
    → read_parts (parts_with i items proofs) ≡ ok (joined items)
unfolding read_parts parts_with
read-parts_with i [] proofs e = refl
read-parts_with i (x ∷ items) [] e = absurd (omega (arith, e))
read-parts_with i (x ∷ items) (p ∷ proofs) e =
    rw (read-parts_with (suc i) items proofs (omega (arith, e))) refl

-- The number of parts covers the data.
total_lem :
    (n size : ℕ)
    → 0 < n
    → 0 < size
    → (n ≤ 0 + (n + size - 1) / size * size)
      × (0 < (n + size - 1) / size)
      × ((n + size - 1) / size * size < n + size)
total_lem n size some_bytes some_size =
    let m = n + size - 1 in
    let whole = div-add-mod' m size in
    let rest = mod-lt m some_size in
    let covers : n ≤ m / size * size = omega (arith, whole, rest, some_bytes, some_size) in
    (
      omega (arith, covers),
      elim (ℕ_discrete (m / size) 0) [
        | yes none_at_all ↦ absurd (
            let e : m / size * size ≡ 0 * size = ap (λ q. q * size) none_at_all in
            omega (arith, e, covers, some_bytes))
        | no some_parts ↦ ground (arith, some_parts)
      ],
      omega (arith, whole, some_size),
    )

complete_self : (ps : PartSet) → ps.count ≡ ps.total → is_complete ps ≡ true
unfolding is_complete
complete_self ps e = ground (arith, e)

module _ (hash : Hash) where
  some_part :
      (items : List Bytes) (proofs : List Proof)
      → 0 < length items
      → length proofs ≡ length items
      → 0 < length (parts_with 0 items proofs)
  unfolding parts_with
  some_part [] proofs some_items e = absurd (omega (arith, some_items))
  some_part (x ∷ items) [] some_items e = absurd (omega (arith, e))
  some_part (x ∷ items) (p ∷ proofs) some_items e = omega arith

  -- Data that are not empty, split into parts of a size that is not zero, where the two lengths
  -- add up to 2^32 at most: there is no panic, the set is complete, and reading gives the data.
  pub new_part_set-read :
      (bytes : Bytes) (size : ℕ)
      → 0 < length bytes
      → 0 < size
      → length bytes + size ≤ 2 ^ 32
      → (ps : PartSet) × (new_part_set_from_data hash bytes size ≡ ok ps)
        × (is_complete ps ≡ true)
        × (read_all ps ≡ ok bytes)
  unfolding new_part_set_from_data
  new_part_set-read bytes size some_bytes some_size small =
      let total = (length bytes + size - 1) / size in
      let items = chunks total 0 size bytes in
      let (covers, some_parts, fits) = total_lem (length bytes) size some_bytes some_size in
      let some_items : 0 < length items =
        omega (arith, length-chunks total 0 size bytes, some_parts) in
      let (proofs, run, count, each) = proofs_complete hash items some_items in
      let ps : PartSet = record {
        total = total;
        hash = hash_from_byte_slices hash items;
        parts = parts_with 0 items proofs;
        count = total;
      } in
      let full : is_complete ps ≡ true = complete_self ps refl in
      let nonzero : (size == 0) ≡ false = ground (arith, some_size) in
      let plain : wrap_uint32 (length bytes + size - 1) ≡ length bytes + size - 1 =
        wrap_uint32_lem _ (omega (arith, small, some_size)) in
      let sliced : slices total 0 size bytes ≡ ok items =
        slices-chunks total 0 size bytes (omega (arith, fits)) small
        ∙ (let none_yet : 0 * size ≡ 0 = omega arith in
            ap (λ offset. ok (chunks total offset size bytes)) none_yet) in
      (
        ps,
        rw (nonzero, plain, sliced, run) refl,
        full,
        read_all-parts hash ps full (some_part items proofs some_items count)
            ∙ read-parts_with 0 items proofs count
            ∙ ap ok (joined-chunks total 0 size bytes covers),
      )

  -- Data of up to 2^32 bytes and a part size of an uint32 that add up to more than 2^32: the number
  -- of parts wraps around to zero, and the constructor panics.
  pub new_part_set-overflow :
      (bytes : Bytes) (size : ℕ)
      → length bytes ≤ 2 ^ 32
      → size < 2 ^ 32
      → 2 ^ 32 < length bytes + size
      → new_part_set_from_data hash bytes size ≡ panic
  unfolding new_part_set_from_data proofs_from_byte_slices trails slices
  new_part_set-overflow bytes size long wide over =
      let nonzero : (size == 0) ≡ false = ground (arith, long, over) in
      let low : wrap_uint32 (length bytes + size - 1) < size =
        wrapped_sum_lem (length bytes) size long over in
      let total = no_whole (wrap_uint32 (length bytes + size - 1)) size low in
      rw (nonzero, total) refl
