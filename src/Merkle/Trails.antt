-- ===== src/Merkle/Trails.antt =====
-- The trails of the items lead to the root.
use mathlib.Core.List.{reverse, reverse-append, map-append}
use tendermintx.Common.{
  ℕ, zero, suc, ◌-◌, ◌≤◌, ◌<◌, Bytes, Option, some, List, [], ◌∷◌, ◌++◌, map, ◌≡◌, inl, inr, refl,
  sym, ap, subst, ◌∙◌, arith, length, length-append, get_elem?, ltb, take, drop, get_elem?-take,
  get_elem?-drop, get_elem?-map, get_elem?-append_left, get_elem?-append_right, length-map,
  Bool-cases,
}
use tendermintx.Merkle.Split.{get_split_point, get_split_point_bounds}
use tendermintx.Merkle.Tree.{Hash, leaf_hash, inner_hash, tree_hash, halves_lem}
use tendermintx.Merkle.Proof.{
  Trail, Sibling, left, right, sibling_hash, flatten_aunts, grow, trails, compute_hash,
}

module _ (hash : Hash) where
  -- A trail leads from an item's leaf to the root.
  abbrev pub Leads : ℕ → ℕ → Bytes → Bytes → Trail → Type 0
  Leads i n item root t =
      (t.hash ≡ leaf_hash hash item)
      × (compute_hash (inner_hash hash) i n (some t.hash) (reverse (flatten_aunts t)) ≡ some root)

  reverse-grow :
      (s : Sibling) (t : Trail)
      → reverse (flatten_aunts (grow s t)) ≡ sibling_hash s ∷ reverse (flatten_aunts t)
  unfolding flatten_aunts grow
  reverse-grow s t =
      ap reverse (map-append sibling_hash t.siblings (s ∷ []))
      ∙ reverse-append (map sibling_hash t.siblings) (sibling_hash s ∷ [])

  compute_hash-left :
      (i n : ℕ) (leaf h aunt : Bytes) (aunts : List Bytes)
      → 2 ≤ n
      → i < n
      → i < get_split_point n
      → compute_hash (inner_hash hash) i (get_split_point n) (some leaf) aunts ≡ some h
      → compute_hash (inner_hash hash) i n (some leaf) (aunt ∷ aunts)
        ≡ some (inner_hash hash h aunt)
  unfolding compute_hash
  compute_hash-left i n leaf h aunt aunts two low before e = ground arith

  compute_hash-right :
      (i n : ℕ) (leaf h aunt : Bytes) (aunts : List Bytes)
      → 2 ≤ n
      → i < n
      → get_split_point n ≤ i
      → compute_hash
          (inner_hash hash)
          (i - get_split_point n)
          (n - get_split_point n)
          (some leaf)
          aunts
        ≡ some h
      → compute_hash (inner_hash hash) i n (some leaf) (aunt ∷ aunts)
        ≡ some (inner_hash hash aunt h)
  unfolding compute_hash
  compute_hash-right i n leaf h aunt aunts two low after e = ground arith

  trails_step :
      (f : ℕ) (x y : Bytes) (items : List Bytes) (a b : Bytes)
      → (trails hash f (take (get_split_point (length (x ∷ y ∷ items))) (x ∷ y ∷ items))).1 ≡ some a
      → (trails hash f (drop (get_split_point (length (x ∷ y ∷ items))) (x ∷ y ∷ items))).1 ≡ some b
      → trails hash (suc f) (x ∷ y ∷ items) ≡ (
        map
              (grow (right b))
              (trails hash f (take (get_split_point (length (x ∷ y ∷ items))) (x ∷ y ∷ items))).0
            ++ map
                (grow (left a))
                (trails hash f (drop (get_split_point (length (x ∷ y ∷ items))) (x ∷ y ∷ items))).0,
        some (inner_hash hash a b),
      )
  unfolding trails
  trails_step f x y items a b l r = rw (trails, l, r)

  grow-Leads_left :
      (i n : ℕ) (item a b : Bytes) (t : Trail)
      → 2 ≤ n
      → i < n
      → i < get_split_point n
      → Leads i (get_split_point n) item a t
      → Leads i n item (inner_hash hash a b) (grow (right b) t)
  unfolding grow
  grow-Leads_left i n item a b t two low before (h, e) = (
    h,
    ap (compute_hash (inner_hash hash) i n (some t.hash)) (reverse-grow (right b) t)
        ∙ compute_hash-left i n t.hash a b (reverse (flatten_aunts t)) two low before e,
  )

  grow-Leads_right :
      (i n : ℕ) (item a b : Bytes) (t : Trail)
      → 2 ≤ n
      → i < n
      → get_split_point n ≤ i
      → Leads (i - get_split_point n) (n - get_split_point n) item b t
      → Leads i n item (inner_hash hash a b) (grow (left a) t)
  unfolding grow
  grow-Leads_right i n item a b t two low after (h, e) = (
    h,
    ap (compute_hash (inner_hash hash) i n (some t.hash)) (reverse-grow (left a) t)
        ∙ compute_hash-right i n t.hash b a (reverse (flatten_aunts t)) two low after e,
  )

  -- What `trailsFromByteSlices` gives for a list: its root, and a trail of each item to the root.
  pub record Trailed (items : List Bytes) (root : Bytes) (made : List Trail × Option Bytes)
      : Type 0 where
    pub rooted : made.1 ≡ some root
    pub as_long : length made.0 ≡ length items
    pub leads :
        (i : ℕ) (item : Bytes)
        → get_elem? items i ≡ some item
        → (t : Trail) × (get_elem? made.0 i ≡ some t) × Leads i (length items) item root t

  get_elem?-lt {ℓ} :
      {A : Type ℓ} (xs : List A) (i : ℕ) {x : A} → get_elem? xs i ≡ some x → i < length xs
  get_elem?-lt [] i e = absurd (cc)
  get_elem?-lt (y ∷ xs) zero e = omega arith
  get_elem?-lt (y ∷ xs) (suc i) e = omega (arith, get_elem?-lt xs i e)

  joined-Trailed :
      (items : List Bytes) (a b : Bytes) (lefts rights : List Trail × Option Bytes)
      → 2 ≤ length items
      → Trailed (take (get_split_point (length items)) items) a lefts
      → Trailed (drop (get_split_point (length items)) items) b rights
      → Trailed items
          (inner_hash hash a b)
          (map (grow (right b)) lefts.0 ++ map (grow (left a)) rights.0, some (inner_hash hash a b))
  joined-Trailed items a b lefts rights two l r =
      let k = get_split_point (length items) in
      let (first, last, mid) = get_split_point_bounds (length items) two in
      let (size_l, size_r) = halves_lem hash items two in
      let ls = map (grow (right b)) lefts.0 in
      let rs = map (grow (left a)) rights.0 in
      let len_l : length ls ≡ k = length-map (grow (right b)) lefts.0 ∙ l.as_long ∙ size_l in
      let len_r : length rs ≡ length items - k =
        length-map (grow (left a)) rights.0 ∙ r.as_long ∙ size_r in
      record {
        rooted = refl;
        as_long = omega (arith, length-append ls rs, len_l, len_r, last);
        leads = λ i item e.
            let low = get_elem?-lt items i e in
            elim (Bool-cases (ltb i k)) [
              | inl before ↦
                  let before' : i < k = ground arith in
                  let (t, at, leads) = l.leads i item (get_elem?-take k items i before' ∙ e) in
                  (
                    grow (right b) t,
                    get_elem?-append_left ls rs i (omega (arith, len_l, before'))
                        ∙ get_elem?-map (grow (right b)) lefts.0 i at,
                    grow-Leads_left i (length items) item a b t two low before'
                        (subst (λ n. Leads i n item a t) size_l leads),
                  )
              | inr after ↦
                  let after' : k ≤ i = ground arith in
                  let (t, at, leads) = r.leads (i - k) item (get_elem?-drop k items i after' ∙ e) in
                  (
                    grow (left a) t,
                    get_elem?-append_right ls rs i (omega (arith, len_l, after'))
                        ∙ ap (λ n. get_elem? rs (i - n)) len_l
                        ∙ get_elem?-map (grow (left a)) rights.0 (i - k) at,
                    grow-Leads_right i (length items) item a b t two low after'
                        (subst (λ n. Leads (i - k) n item b t) size_r leads),
                  )
            ];
      }

  abbrev bare : Bytes → Trail
  bare x = record { hash = leaf_hash hash x; siblings = [] }

  one-Leads :
      (x : Bytes) (i : ℕ) (item : Bytes)
      → get_elem? (x ∷ []) i ≡ some item
      → (t : Trail) × (get_elem? (bare x ∷ []) i ≡ some t) × Leads i 1 item (leaf_hash hash x) t
  unfolding flatten_aunts compute_hash
  one-Leads x zero item e =
      let same : x ≡ item = cc in (bare x, refl, (ap (leaf_hash hash) same, refl))
  one-Leads x (suc i) item e = absurd (cc)

  one-Trailed :
      (f : ℕ) (x : Bytes) → Trailed (x ∷ []) (tree_hash hash f (x ∷ [])) (trails hash f (x ∷ []))
  unfolding trails tree_hash
  one-Trailed f x = record { rooted = refl; as_long = refl; leads = one-Leads x }

  -- With enough fuel, the root is the hash of the list, and each item has a trail that leads to it.
  pub trails-Trailed :
      (f : ℕ) (items : List Bytes)
      → length items ≤ f
      → 0 < length items
      → Trailed items (tree_hash hash f items) (trails hash f items)
  unfolding tree_hash
  trails-Trailed f [] h p = absurd (omega (arith, p))
  trails-Trailed f (x ∷ []) h p = one-Trailed f x
  trails-Trailed zero (x ∷ y ∷ items) h p = absurd (omega (arith, h))
  trails-Trailed (suc f) (x ∷ y ∷ items) h p =
      let l = x ∷ y ∷ items in
      let k = get_split_point (length l) in
      let (first, last, mid) = get_split_point_bounds (length l) (omega arith) in
      let (size_l, size_r) = halves_lem hash l (omega arith) in
      let lefts =
        trails-Trailed f (take k l) (omega (arith, size_l, last, h))
          (omega (arith, size_l, first)) in
      let rights =
        trails-Trailed f (drop k l) (omega (arith, size_r, first, h))
          (omega (arith, size_r, last)) in
      subst
        (Trailed l (inner_hash hash (tree_hash hash f (take k l)) (tree_hash hash f (drop k l))))
        (sym (
          trails_step f x y items (tree_hash hash f (take k l)) (tree_hash hash f (drop k l))
            lefts.rooted rights.rooted))
        (joined-Trailed l (tree_hash hash f (take k l)) (tree_hash hash f (drop k l))
          (trails hash f (take k l)) (trails hash f (drop k l)) (omega arith) lefts rights)
