-- ===== src/Tree/Llrb/Next.antt =====
-- The search for the next entry.
use Prim.Native.Nat.{Ordering}
use tendermintx.Common.{
  ℕ, Bool, true, false, List, [], ◌∷◌, ◌++◌, ◌≡◌, refl, sym, ◌∙◌, arith, Option, none, some, All,
  if◌then◌else◌, ◌⊎◌, inl, inr,
}
use tendermintx.Tree.Key.{IsLinearOrder}
use tendermintx.Tree.Llrb.{Tree, leaf, node, Llrb, next_from, get_next}
use tendermintx.Tree.Llrb.List.{to_list, IsSorted, IsSorted-left, IsSorted-right}
use tendermintx.Tree.Llrb.Insert.{IsValid}
use tendermintx.Tree.Llrb.Rebalance.{Ordering-cases}

All-around {ℓ κ} :
    {A : Type ℓ} (P : A → Type κ) (l : List A) (x : A) (r : List A)
    → All P (l ++ x ∷ r)
    → All P l × P x × All P r
All-around P [] x r h = (tt, h.0, h.1)
All-around P (y ∷ l) x r h = let (a, b, c) = All-around P l x r h.1 in ((h.0, a), b, c)

module _ {K D : Type 0} (cmp : K → K → Ordering) where
  -- The specification: the last entry, in ascending order, that is below the starter and that the
  -- predicate accepts.
  unfoldable pub last_below : K → (D → Bool) → List (K × D) → Option (K × D) → Option (K × D)
  last_below start pred [] found = found
  last_below start pred ((k, d) ∷ l) found =
      last_below start pred l
        (elim (cmp k start) [ Ordering.lt ↦ if pred d then some (k, d) else found | _ ↦ found ])

module _ {K D : Type 0} (cmp : K → K → Ordering) (lin : IsLinearOrder cmp) (start : K)
    (pred : D → Bool) where
  last_below-append :
      (l r : List (K × D)) (found : Option (K × D))
      → last_below cmp start pred (l ++ r) found
        ≡ last_below cmp start pred r (last_below cmp start pred l found)
  unfolding last_below
  last_below-append [] r found = refl
  last_below-append ((k, d) ∷ l) r found = last_below-append l r _

  -- Entries that are not below the starter change nothing.
  last_below-above :
      (k : K) (l : List (K × D)) (found : Option (K × D))
      → (cmp k start ≡ Ordering.eq) ⊎ (cmp k start ≡ Ordering.gt)
      → All (λ e. cmp k e.0 ≡ Ordering.lt) l
      → last_below cmp start pred l found ≡ found
  unfolding last_below
  last_below-above k [] found h b = refl
  last_below-above k ((a, e) ∷ l) found h b =
      ground (arith, lin.lt_trans k a start b.0, last_below-above k l found h b.1)

  -- The candidate is below each entry that is still to be searched.
  abbrev Behind : Option (K × D) → List (K × D) → Type 0
  Behind none l = Unit
  Behind (some (c, _)) l = All (λ e. cmp c e.0 ≡ Ordering.lt) l

  Behind-left : (o : Option (K × D)) (l r : List (K × D)) → Behind o (l ++ r) → Behind o l
  Behind-left none l r b = tt
  Behind-left (some c) [] r b = tt
  Behind-left (some c) (x ∷ l) r b = (b.0, Behind-left (some c) l r b.1)

  Behind-root :
      (o : Option (K × D)) (l r : List (K × D)) (k : K) (d : D)
      → Behind o (l ++ (k, d) ∷ r)
      → (o ≡ none) ⊎ ((c : K) × (e : D) × (o ≡ some (c, e)) × (cmp c k ≡ Ordering.lt))
  Behind-root none l r k d b = inl refl
  Behind-root (some (c, e)) [] r k d b = inr (c, e, refl, b.0)
  Behind-root (some (c, e)) (x ∷ l) r k d b = Behind-root (some (c, e)) l r k d b.1

  module _ (l r : Tree K D) (k : K) (d : D) (c : Bool) (found : Option (K × D)) where
    next_from-lt :
        cmp k start ≡ Ordering.lt
        → pred d ≡ true
        → (found ≡ none) ⊎ ((a : K) × (e : D) × (found ≡ some (a, e)) × (cmp a k ≡ Ordering.lt))
        → next_from cmp start pred (node l k d c r) found ≡ next_from cmp start pred r (some (k, d))
    unfolding next_from
    next_from-lt h p b = ground arith

    next_from-not_lt :
        (cmp k start ≡ Ordering.eq) ⊎ (cmp k start ≡ Ordering.gt)
        → next_from cmp start pred (node l k d c r) found ≡ next_from cmp start pred l found
    unfolding next_from
    next_from-not_lt h = ground arith

    -- Once an entry below the starter fails the predicate, nothing to its left is looked at.
    next_from-rejected :
        cmp k start ≡ Ordering.lt
        → pred d ≡ false
        → next_from cmp start pred (node l k d c r) found ≡ next_from cmp start pred r found
    unfolding next_from
    next_from-rejected h p = ground arith

  last_below-root :
      (l r : List (K × D)) (k : K) (d : D) (found : Option (K × D))
      → cmp k start ≡ Ordering.lt
      → pred d ≡ true
      → last_below cmp start pred (l ++ (k, d) ∷ r) found
        ≡ last_below cmp start pred r (some (k, d))
  unfolding last_below
  last_below-root l r k d found h p = rw (last_below-append l ((k, d) ∷ r) found) (ground arith)

  last_below-left :
      (l r : List (K × D)) (k : K) (d : D) (found : Option (K × D))
      → (cmp k start ≡ Ordering.eq) ⊎ (cmp k start ≡ Ordering.gt)
      → All (λ e. cmp k e.0 ≡ Ordering.lt) r
      → last_below cmp start pred (l ++ (k, d) ∷ r) found ≡ last_below cmp start pred l found
  unfolding last_below
  last_below-left l r k d found h b =
      rw (last_below-append l ((k, d) ∷ r) found)
        (ground (arith, last_below-above k r (last_below cmp start pred l found) h b))

  -- Without a predicate the search finds the specified entry.
  next_from-all :
      ((d : D) → pred d ≡ true)
      → (t : Tree K D) (found : Option (K × D)) → IsSorted cmp (to_list t)
      → Behind found (to_list t)
      → next_from cmp start pred t found ≡ last_below cmp start pred (to_list t) found
  next_from-all all leaf found s b = unfold next_from last_below in refl
  next_from-all all (node l k d c r) found s b =
      let sl = IsSorted-left cmp lin (to_list l) _ s in
      let (br, sr) = IsSorted-right cmp lin (to_list l) _ s in
      let left_case = λ (h : (cmp k start ≡ Ordering.eq) ⊎ (cmp k start ≡ Ordering.gt)).
        next_from-not_lt l r k d c found h
        ∙ next_from-all all l found sl (Behind-left found (to_list l) _ b)
        ∙ sym (last_below-left (to_list l) (to_list r) k d found h br) in
      elim (Ordering-cases (cmp k start)) [
        | inl h ↦
            next_from-lt l r k d c found h (all d) (Behind-root found (to_list l) (to_list r) k d b)
            ∙ next_from-all all r (some (k, d)) sr br
            ∙ sym (last_below-root (to_list l) (to_list r) k d found h (all d))
        | inr (inl h) ↦ left_case (inr h)
        | inr (inr h) ↦ left_case (inl h)
      ]

module _ {K D : Type 0} (cmp : K → K → Ordering) (lin : IsLinearOrder cmp) (top start : K)
    (pred : D → Bool) where
  -- On a valid tree, a search whose predicate accepts every entry returns the greatest entry below
  -- the starter, and stops the iteration exactly if there is none.
  pub get_next_correct :
      (t : Llrb K D)
      → IsValid cmp t
      → ((d : D) → pred d ≡ true)
      → get_next cmp top (some start) pred t ≡ last_below cmp start pred (to_list t.root) none
  unfolding get_next
  get_next_correct t i all = next_from-all cmp lin start pred all t.root none i.sorted tt

  -- A tree in which another one is reached by going left only, with the entries and the right
  -- subtrees that are passed.
  abbrev pub left_of : List (K × D × Bool × Tree K D) → Tree K D → Tree K D
  left_of [] t = t
  left_of ((k, d, black, r) ∷ passed) t = node (left_of passed t) k d black r

  -- A tree without an acceptable entry below the starter changes nothing.
  next_from-rejecting :
      (t : Tree K D) (found : Option (K × D))
      → All (λ e. cmp e.0 start ≡ Ordering.lt → pred e.1 ≡ false) (to_list t)
      → next_from cmp start pred t found ≡ found
  next_from-rejecting leaf found none_below = unfold next_from in refl
  next_from-rejecting (node l k d c r) found none_below =
      let (on_left, here, on_right) =
        All-around (λ e. cmp e.0 start ≡ Ordering.lt → pred e.1 ≡ false) (to_list l) (k, d)
          (to_list r) none_below in
      elim (Ordering-cases (cmp k start)) [
        | inl h ↦
            next_from-rejected cmp lin start pred l r k d c found h (here h)
            ∙ next_from-rejecting r found on_right
        | inr (inl h) ↦
            next_from-not_lt cmp lin start pred l r k d c found (inr h)
            ∙ next_from-rejecting l found on_left
        | inr (inr h) ↦
            next_from-not_lt cmp lin start pred l r k d c found (inl h)
            ∙ next_from-rejecting l found on_left
      ]

  next_from-left_of :
      (passed : List (K × D × Bool × Tree K D)) (t : Tree K D)
      → All (λ e. (cmp e.0 start ≡ Ordering.eq) ⊎ (cmp e.0 start ≡ Ordering.gt)) passed
      → next_from cmp start pred (left_of passed t) none ≡ next_from cmp start pred t none
  next_from-left_of [] t above = refl
  next_from-left_of ((k, d, black, r) ∷ passed) t above =
      next_from-not_lt cmp lin start pred (left_of passed t) r k d black none above.0
      ∙ next_from-left_of passed t above.1

  -- A search that passes entries which are not below the starter, and then meets one below it which
  -- the predicate rejects, as it rejects each entry below the starter in the subtree to the right of
  -- that one, stops the iteration, whatever entries there are to the left.
  pub get_next-skips_left :
      (size : ℕ) (passed : List (K × D × Bool × Tree K D)) (l r : Tree K D) (k : K) (d : D)
      (black : Bool)
      → All (λ e. (cmp e.0 start ≡ Ordering.eq) ⊎ (cmp e.0 start ≡ Ordering.gt)) passed
      → cmp k start ≡ Ordering.lt
      → pred d ≡ false
      → All (λ e. cmp e.0 start ≡ Ordering.lt → pred e.1 ≡ false) (to_list r)
      → get_next cmp top
          (some start)
          pred
          (record { size = size; root = left_of passed (node l k d black r) })
        ≡ none
  unfolding get_next
  get_next-skips_left size passed l r k d black above below rejected right =
      next_from-left_of passed (node l k d black r) above
      ∙ next_from-rejected cmp lin start pred l r k d black none below rejected
      ∙ next_from-rejecting r none right
