-- ===== src/PartSet/Assembly.antt =====
-- What the parts that a part set accepts are, and what they are read as.
use tendermintx.Common.{
  ℕ, zero, suc, ◌+◌, ◌≤◌, ◌<◌, pos, Bytes, Bool, true, false, Option, none, some, List, [], ◌∷◌,
  ◌++◌, ◌≡◌, ◌⊎◌, inl, inr, refl, sym, ap, subst, ◌∙◌, arith, length, get_elem?, get_elem?-below,
  set, replicate, leb, All, Option-cases, Bool-cases, Run, ok, ◌>>=◌,
}
use tendermintx.Types.BlockId.{PartSetHeader}
use tendermintx.Merkle.Tree.{Hash, hash_from_byte_slices}
use tendermintx.Merkle.Proof.{Proof, verify, validate_proof}
use tendermintx.Merkle.Climb.{Collision}
use tendermintx.Merkle.Sound.{verify_sound}
use tendermintx.Merkle.Complete.{proofs_complete}
use tendermintx.PartSet.{
  Part, PartSet, PartSetError, unexpected_index, invalid_proof, new_part_set_from_header, add_part,
  is_complete, read_parts, read_all,
}

-- The number of parts that are there.
abbrev pub filled : List (Option Part) → ℕ
filled [] = 0
filled (none ∷ parts) = filled parts
filled (some p ∷ parts) = suc (filled parts)

abbrev pub joined : List Bytes → Bytes
joined [] = []
joined (x ∷ items) = x ++ joined items

-- The calls of `AddPart` for parts that come in this order.
unfoldable pub add_parts : Hash → List Part → PartSet → Run PartSet
unfolding add_part
add_parts hash [] ps = ok ps
add_parts hash (p ∷ parts) ps = add_part hash p ps >>= λ r. add_parts hash parts r.0

-- The header of the items.
abbrev pub header_of : Hash → List Bytes → PartSetHeader
header_of hash items = record { total = length items; hash = hash_from_byte_slices hash items }

module _ (hash : Hash) where
  pub data Matches : List Bytes → List (Option Part) → Type 0 where
    ended : Matches [] []
    missing :
        (x : Bytes) {items : List Bytes} {parts : List (Option Part)}
        → Matches items parts
        → Matches (x ∷ items) (none ∷ parts)
    there :
        (x : Bytes) (p : Part) {items : List Bytes} {parts : List (Option Part)}
        → (x ≡ p.bytes) ⊎ Collision hash
        → Matches items parts
        → Matches (x ∷ items) (some p ∷ parts)

  Matches-empty : (items : List Bytes) → Matches items (replicate (length items) none)
  Matches-empty [] = ended
  Matches-empty (x ∷ items) = missing x (Matches-empty items)

  filled-empty : (n : ℕ) → filled (replicate n none) ≡ 0
  filled-empty zero = refl
  filled-empty (suc n) = filled-empty n

  length-Matches :
      {items : List Bytes} {parts : List (Option Part)}
      → Matches items parts
      → length parts ≡ length items
  length-Matches ended = refl
  length-Matches (missing x m) = ap suc (length-Matches m)
  length-Matches (there x p e m) = ap suc (length-Matches m)

  filled_bound :
      {items : List Bytes} {parts : List (Option Part)}
      → Matches items parts
      → filled parts ≤ length items
  filled_bound ended = omega arith
  filled_bound (missing x m) = omega (arith, filled_bound m)
  filled_bound (there x p e m) = omega (arith, filled_bound m)

  -- A new part at a free place.
  set-Matches :
      (i : ℕ) (p : Part) {items : List Bytes} {parts : List (Option Part)}
      → Matches items parts
      → get_elem? parts i ≡ some none
      → (get_elem? items i ≡ some p.bytes) ⊎ Collision hash
      → Matches items (set parts i (some p)) × (filled (set parts i (some p)) ≡ suc (filled parts))
  set-Matches i p ended free right = absurd (cc)
  set-Matches zero p (missing x m) free (inl right) = (there x p (inl (cc)) m, refl)
  set-Matches zero p (missing x m) free (inr c) = (there x p (inr c) m, refl)
  set-Matches (suc i) p (missing x m) free right =
      let (m', more) = set-Matches i p m free right in (missing x m', more)
  set-Matches zero p (there x q e m) free right = absurd (cc)
  set-Matches (suc i) p (there x q e m) free right =
      let (m', more) = set-Matches i p m free right in (there x q e m', ap suc more)

  -- All parts are there: they are read as the items.
  read-Matches :
      {items : List Bytes} {parts : List (Option Part)}
      → Matches items parts
      → filled parts ≡ length items
      → (read_parts parts ≡ ok (joined items)) ⊎ Collision hash
  unfolding read_parts
  read-Matches ended full = inl refl
  read-Matches (missing x m) full =
      absurd (let bound = filled_bound m in omega (arith, bound, full))
  read-Matches (there x p (inr c) m) full = inr c
  read-Matches (there x p (inl same) m) full = elim (read-Matches m (omega (arith, full))) [
    | inl rest ↦ inl (rw rest (cc (same)))
    | inr c ↦ inr c
  ]

  -- A part set for the items whose parts are theirs.
  pub record Assembles (items : List Bytes) (ps : PartSet) : Type 0 where
    pub matches : Matches items ps.parts
    pub counted : filled ps.parts ≡ ps.count
    pub same_total : ps.total ≡ length items
    pub same_hash : ps.hash ≡ hash_from_byte_slices hash items

  -- The proof of a part is for the part's own place.
  pub record Placed (items : List Bytes) (p : Part) : Type 0 where
    pub total : p.proof.total ≡ pos (length items)
    pub index : p.proof.index ≡ pos p.index
    pub valid : validate_proof p.proof ≡ none

  add_part-Assembles :
      (items : List Bytes) (p : Part) (ps : PartSet)
      → 0 < length items
      → Assembles items ps
      → Placed items p
      → (r : PartSet × Bool × Option PartSetError) × (add_part hash p ps ≡ ok r)
        × Assembles items r.0
  unfolding add_part
  add_part-Assembles items p ps some_items a placed = elim (Bool-cases (leb ps.total p.index)) [
    | inl beyond ↦ ((ps, false, some unexpected_index), ground (arith, beyond), a)
    | inr within ↦
        let (o, at) =
          get_elem?-below ps.parts p.index
            (ground (arith, within, length-Matches a.matches, a.same_total)) in
        elim (Option-cases o) [
          | inr (q, known) ↦ ((ps, false, none), ground (arith, within, at, known), a)
          | inl free ↦ elim (Option-cases (verify hash p.proof ps.hash p.bytes)) [
            | inr (e, bad) ↦
                ((ps, false, some invalid_proof), ground (arith, within, at, free, bad), a)
            | inl good ↦
                let right =
                  verify_sound hash items p.bytes p.proof p.index some_items placed.total
                    placed.index placed.valid
                    (subst (λ h. verify hash p.proof h p.bytes ≡ none) a.same_hash good) in
                let (m, more) = set-Matches p.index p a.matches (at ∙ ap some free) right in
                (
                  (
                    record ps { parts = set ps.parts p.index (some p); count = ps.count + 1 },
                    true,
                    none,
                  ),
                  ground (arith, within, at, free, good),
                  record {
                    matches = m;
                    counted = omega (arith, more, a.counted);
                    same_total = a.same_total;
                    same_hash = a.same_hash;
                  },
                )
          ]
        ]
  ]

  add_parts-Assembles :
      (items : List Bytes) (parts : List Part) (ps : PartSet)
      → 0 < length items
      → Assembles items ps
      → All (Placed items) parts
      → (t : PartSet) × (add_parts hash parts ps ≡ ok t) × Assembles items t
  unfolding add_parts
  add_parts-Assembles items [] ps some_items a placed = (ps, refl, a)
  add_parts-Assembles items (p ∷ parts) ps some_items a (here, rest) =
      let (r, run, a') = add_part-Assembles items p ps some_items a here in
      let (t, runs, a'') = add_parts-Assembles items parts r.0 some_items a' rest in
      (t, rw run runs, a'')

  first_part :
      (parts : List (Option Part)) (ps : PartSet)
      → is_complete ps ≡ true
      → ps.parts ≡ parts
      → 0 < length parts
      → read_all ps ≡ read_parts parts
  unfolding read_all
  first_part [] ps full e some_parts = absurd (omega (arith, some_parts))
  first_part (p ∷ parts) ps full e some_parts = ground (arith, full, e)

  pub read_all-parts :
      (ps : PartSet)
      → is_complete ps ≡ true
      → 0 < length ps.parts
      → read_all ps ≡ read_parts ps.parts
  read_all-parts ps full some_parts = first_part ps.parts ps full refl some_parts

  begin_lem :
      (items : List Bytes) → Assembles items (new_part_set_from_header (header_of hash items))
  unfolding new_part_set_from_header
  begin_lem items = record {
    matches = Matches-empty items;
    counted = filled-empty (length items);
    same_total = refl;
    same_hash = refl;
  }

  complete_lem :
      (items : List Bytes) (ps : PartSet)
      → 0 < length items
      → Assembles items ps
      → is_complete ps ≡ true
      → (read_all ps ≡ ok (joined items)) ⊎ Collision hash
  unfolding is_complete
  complete_lem items ps some_items a full =
      let bytes = read-Matches a.matches (ground (arith, full, a.counted, a.same_total)) in
      let some_parts : 0 < length ps.parts = omega (arith, length-Matches a.matches, some_items) in
      let read : read_all ps ≡ read_parts ps.parts = read_all-parts ps full some_parts in
      elim bytes [ inl e ↦ inl (read ∙ e) | inr c ↦ inr c ]

  -- For items that are not empty, whatever parts with the proofs of their own places come, in any
  -- order and any number of times: they are added without a panic to the empty part set of the
  -- items' header, and once it is complete it is read as the joined items, or two different inputs
  -- of the hash function with one hash are found.
  pub add_parts-joined :
      (items : List Bytes) (parts : List Part)
      → 0 < length items
      → All (Placed items) parts
      → (ps : PartSet) × (add_parts hash parts (new_part_set_from_header (header_of hash items))
          ≡ ok ps)
        × (is_complete ps ≡ true → (read_all ps ≡ ok (joined items)) ⊎ Collision hash)
  add_parts-joined items parts some_items placed =
      let (ps, run, a) = add_parts-Assembles items parts _ some_items (begin_lem items) placed in
      (ps, run, complete_lem items ps some_items a)

  blank_at : (n j : ℕ) → j < n → get_elem? {A = Option Part} (replicate n none) j ≡ some none
  blank_at zero j low = absurd (omega (arith, low))
  blank_at (suc n) zero low = refl
  blank_at (suc n) (suc j) low = blank_at n j (omega (arith, low))

  parts_of_header :
      (h : PartSetHeader) → (new_part_set_from_header h).parts ≡ replicate h.total none
  unfolding new_part_set_from_header
  parts_of_header h = refl

  -- The part of an item with its own proof is accepted at any place of the empty part set, also at
  -- that of another item.
  pub add_part_anywhere :
      (items : List Bytes) (i j : ℕ) (item : Bytes)
      → get_elem? items i ≡ some item
      → j < length items
      → (p : Proof) × (ps : PartSet) × (p.index ≡ pos i)
        × (add_part hash
              (record { index = j; bytes = item; proof = p })
              (new_part_set_from_header (header_of hash items))
            ≡ ok (ps, true, none))
  unfolding add_part
  add_part_anywhere items i j item at low =
      let (proofs, run, size, each) = proofs_complete hash items (omega (arith, low)) in
      let (p, found, verified, index, total) = each i item at in
      let part : Part = record { index = j; bytes = item; proof = p } in
      let ps = new_part_set_from_header (header_of hash items) in
      let begun = begin_lem items in
      let free : get_elem? ps.parts j ≡ some none =
        ap (λ ps. get_elem? ps j) (parts_of_header (header_of hash items))
        ∙ blank_at (length items) j low in
      let verified' : verify hash p ps.hash item ≡ none =
        subst (λ h. verify hash p h item ≡ none) (sym begun.same_hash) verified in
      let within : leb ps.total j ≡ false = ground (arith, low, begun.same_total) in
      (
        p,
        record ps { parts = set ps.parts j (some part); count = ps.count + 1 },
        index,
        ground (arith, free, verified', within),
      )
