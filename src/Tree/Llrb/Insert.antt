-- ===== src/Tree/Llrb/Insert.antt =====
-- Insertion into a valid tree: it returns, and the tree stays valid and gains the entry.
use Prim.Native.Nat.{Ordering}
use tendermintx.Common.{
  ℕ, ◌+◌, inl, inr, Bool, true, false, List, [], ◌∷◌, ◌++◌, ◌≡◌, refl, ap, sym, ◌∙◌, arith, ok,
  ◌>>=◌, length, if◌then◌else◌, >>=-eq-ok, All,
}
use tendermintx.Tree.Key.{IsLinearOrder}
use tendermintx.Tree.Llrb.{Tree, leaf, node, Llrb, balance, blacken, insert_node, insert}
use tendermintx.Tree.Llrb.List.{
  to_list, IsSorted, put, has_key, put-root, IsSorted-left, has_key-before, All-trans,
  IsSorted-right,
}
use tendermintx.Tree.Llrb.Shape.{Shape, blacken-Shape}
use tendermintx.Tree.Llrb.Rebalance.{insert_node-Inserted, balance-to_list, Ordering-cases}

module _ {K D : Type 0} (cmp : K → K → Ordering) where
  -- The tree has the shape of a red-black tree with a black root, its keys ascend, and the size
  -- counts its entries.
  pub record IsValid (t : Llrb K D) : Type 0 where
    pub shape : (n : ℕ) × Shape false n t.root
    pub sorted : IsSorted cmp (to_list t.root)
    pub sized : t.size ≡ length (to_list t.root)

blacken-to_list : {K D : Type 0} (t : Tree K D) → to_list (blacken t) ≡ to_list t
unfolding blacken
blacken-to_list leaf = refl
blacken-to_list (node l k d b r) = refl

module _ {K D : Type 0} (cmp : K → K → Ordering) (lin : IsLinearOrder cmp) (key : K) (v : D) where
  -- An insertion into a child that returned, and the repairs after it.
  module _ (l r : Tree K D) (k : K) (d : D) (b : Bool) {t : Tree K D} {known : Bool} where
    lt-inversion :
        cmp key k ≡ Ordering.lt
        → insert_node cmp key v (node l k d b r) ≡ ok (t, known)
        → (l' : Tree K D) × (insert_node cmp key v l ≡ ok (l', known))
          × (balance (node l' k d b r) ≡ ok t)
    unfolding insert_node
    lt-inversion h e =
        let e' : ◌>>=◌ {A = Tree K D × Bool} {B = Tree K D × Bool} (insert_node cmp key v l)
              (λ (l', known). balance (node l' k d b r) >>= λ h. ok (h, known))
            ≡ ok (t, known) =
          ground arith in
        let ((l', kl), il, e1) = >>=-eq-ok (insert_node cmp key v l) _ e' in
        let (t1, et, e2) = >>=-eq-ok (balance (node l' k d b r)) _ e1 in
        (l', ground arith, ground arith)

    gt-inversion :
        cmp key k ≡ Ordering.gt
        → insert_node cmp key v (node l k d b r) ≡ ok (t, known)
        → (r' : Tree K D) × (insert_node cmp key v r ≡ ok (r', known))
          × (balance (node l k d b r') ≡ ok t)
    unfolding insert_node
    gt-inversion h e =
        let e' : ◌>>=◌ {A = Tree K D × Bool} {B = Tree K D × Bool} (insert_node cmp key v r)
              (λ (r', known). balance (node l k d b r') >>= λ h. ok (h, known))
            ≡ ok (t, known) =
          ground arith in
        let ((r', kr), ir, e1) = >>=-eq-ok (insert_node cmp key v r) _ e' in
        let (t1, et, e2) = >>=-eq-ok (balance (node l k d b r')) _ e1 in
        (r', ground arith, ground arith)

    eq-inversion :
        cmp key k ≡ Ordering.eq
        → insert_node cmp key v (node l k d b r) ≡ ok (t, known)
        → (t ≡ node l k d b r) × (known ≡ true)
    unfolding insert_node
    eq-inversion h e = ground arith

  leaf-inversion :
      {t : Tree K D} {known : Bool}
      → insert_node cmp key v leaf ≡ ok (t, known)
      → (t ≡ node leaf key v false leaf) × (known ≡ false)
  unfolding insert_node
  leaf-inversion e = ground arith

  insert_node-to_list :
      (t : Tree K D) {t' : Tree K D} {known : Bool}
      → IsSorted cmp (to_list t)
      → insert_node cmp key v t ≡ ok (t', known)
      → (to_list t' ≡ put cmp key v (to_list t)) × (known ≡ has_key cmp key (to_list t))
  insert_node-to_list leaf s e =
      let (same, fresh) = leaf-inversion e in unfold put has_key in (rw same, fresh)
  insert_node-to_list (node l k d b r) {t'} {known} s e =
      let (gt, lt, eq) = put-root cmp lin key v (to_list l) k d (to_list r) s in
      let sl = IsSorted-left cmp lin (to_list l) _ s in
      let sr = (IsSorted-right cmp lin (to_list l) _ s).1 in
      elim (Ordering-cases (cmp key k)) [
        | inl h ↦
            let (l', il, e1) = lt-inversion l r k d b h e in
            let (same, found) = insert_node-to_list l sl il in
            let (p, q) = lt h in
            (
              balance-to_list (node l' k d b r) e1 ∙ ap (λ x. x ++ (k, d) ∷ to_list r) same ∙ sym p,
              found ∙ sym q,
            )
        | inr (inl h) ↦
            let (r', ir, e1) = gt-inversion l r k d b h e in
            let (same, found) = insert_node-to_list r sr ir in
            let (p, q) = gt h in
            (
              balance-to_list (node l k d b r') e1 ∙ ap (λ x. to_list l ++ (k, d) ∷ x) same ∙ sym p,
              found ∙ sym q,
            )
        | inr (inr h) ↦
            let (same, found) = eq-inversion l r k d b h e in
            let (p, q) = eq h in (ap to_list same ∙ sym p, found ∙ sym q)
      ]

  put-All :
      (a : K) (l : List (K × D))
      → cmp a key ≡ Ordering.lt
      → All (λ e. cmp a e.0 ≡ Ordering.lt) l
      → All (λ e. cmp a e.0 ≡ Ordering.lt) (put cmp key v l)
  unfolding put
  put-All a [] h b = (h, tt)
  put-All a ((k, d) ∷ l) h b = ground (arith, put-All a l h b.1)

  put-IsSorted : (l : List (K × D)) → IsSorted cmp l → IsSorted cmp (put cmp key v l)
  unfolding put
  put-IsSorted [] s = (tt, tt)
  put-IsSorted ((k, d) ∷ l) s =
      ground (arith, All-trans cmp lin key k l, lin.lt_of_gt key k, put-All k l, put-IsSorted l s.1)

  length-put :
      (l : List (K × D))
      → IsSorted cmp l
      → length (put cmp key v l) ≡ (if has_key cmp key l then length l else length l + 1)
  unfolding put has_key
  length-put [] s = refl
  length-put ((k, d) ∷ l) s =
      ground (arith, length-put l s.1, has_key-before cmp lin key l, All-trans cmp lin key k l)

  -- Insertion into a valid tree returns without a panic. The new tree is valid, and its entries in
  -- order are the old ones with the new entry at its place; a key that was there keeps its old
  -- entry.
  pub insert_correct :
      (t : Llrb K D)
      → IsValid cmp t
      → (t' : Llrb K D) × (insert cmp key v t ≡ ok t')
        × IsValid cmp t'
        × (to_list t'.root ≡ put cmp key v (to_list t.root))
  unfolding insert
  insert_correct t i =
      let (root, known, e, s) = insert_node-Inserted cmp key v i.shape.1 in
      let (same, found) = insert_node-to_list t.root i.sorted e in
      let kept = blacken-to_list root ∙ same in
      (
        record { size = if known then t.size else t.size + 1; root = blacken root },
        rw e,
        record {
          shape = blacken-Shape false i.shape.0 root s;
          sorted = rw kept (put-IsSorted (to_list t.root) i.sorted);
          sized = rw (kept, found, length-put (to_list t.root) i.sorted, i.sized);
        },
        kept,
      )
