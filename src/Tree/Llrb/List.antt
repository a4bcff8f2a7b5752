-- ===== src/Tree/Llrb/List.antt =====
-- The entries of a tree in order, and what insertion and lookup mean on them.
use Prim.Native.Nat.{Ordering}
use tendermintx.Common.{Bool, true, false, List, [], ◌∷◌, ◌++◌, ◌≡◌, refl, All, arith}
use tendermintx.Tree.Key.{IsLinearOrder}
use tendermintx.Tree.Llrb.{Tree, leaf, node}

module _ {K D : Type 0} where
  abbrev pub to_list : Tree K D → List (K × D)
  to_list leaf = []
  to_list (node l k d _ r) = to_list l ++ (k, d) ∷ to_list r

module _ {K D : Type 0} (cmp : K → K → Ordering) where
  -- Each key is less than the keys behind it.
  abbrev pub IsSorted : List (K × D) → Type 0
  IsSorted [] = Unit
  IsSorted ((k, d) ∷ l) = All (λ e. cmp k e.0 ≡ Ordering.lt) l × IsSorted l

  -- A new entry goes where its key belongs, and a key that is there keeps its entry.
  unfoldable pub put : K → D → List (K × D) → List (K × D)
  put key v [] = (key, v) ∷ []
  put key v ((k, d) ∷ l) =
      let rest = put key v l in
      elim (cmp key k) [
        | Ordering.lt ↦ (key, v) ∷ (k, d) ∷ l
        | Ordering.eq ↦ (k, d) ∷ l
        | Ordering.gt ↦ (k, d) ∷ rest
      ]

  unfoldable pub has_key : K → List (K × D) → Bool
  has_key key [] = false
  has_key key ((k, d) ∷ l) =
      let rest = has_key key l in elim (cmp key k) [ Ordering.eq ↦ true | _ ↦ rest ]

  pub put-append_lt :
      (key : K) (v : D) (l : List (K × D)) (k : K) (d : D) (r : List (K × D))
      → cmp key k ≡ Ordering.lt
      → put key v (l ++ (k, d) ∷ r) ≡ put key v l ++ (k, d) ∷ r
  unfolding put
  put-append_lt key v [] k d r h = ground arith
  put-append_lt key v ((a, e) ∷ l) k d r h = ground (arith, put-append_lt key v l k d r)

module _ {K D : Type 0} (cmp : K → K → Ordering) (lin : IsLinearOrder cmp) where
  -- In a sorted list the entries before a key are less than it.
  pub All-before :
      (l : List (K × D)) (k : K) (d : D) (r : List (K × D))
      → IsSorted cmp (l ++ (k, d) ∷ r)
      → All (λ e. cmp e.0 k ≡ Ordering.lt) l
  All-before [] k d r s = tt
  All-before ((a, e) ∷ l) k d r s = (All-middle a l k d r s.0, All-before l k d r s.1)
    where
      All-middle :
          (a : K) (l : List (K × D)) (k : K) (d : D) (r : List (K × D))
          → All (λ e. cmp a e.0 ≡ Ordering.lt) (l ++ (k, d) ∷ r)
          → cmp a k ≡ Ordering.lt
      All-middle a [] k d r h = h.0
      All-middle a (x ∷ l) k d r h = All-middle a l k d r h.1

  pub IsSorted-left : (l r : List (K × D)) → IsSorted cmp (l ++ r) → IsSorted cmp l
  IsSorted-left [] r s = tt
  IsSorted-left ((a, e) ∷ l) r s = (All-left l r s.0, IsSorted-left l r s.1)
    where
      All-left :
          (l r : List (K × D))
          → All (λ e. cmp a e.0 ≡ Ordering.lt) (l ++ r)
          → All (λ e. cmp a e.0 ≡ Ordering.lt) l
      All-left [] r h = tt
      All-left (x ∷ l) r h = (h.0, All-left l r h.1)

  pub IsSorted-right : (l r : List (K × D)) → IsSorted cmp (l ++ r) → IsSorted cmp r
  IsSorted-right [] r s = s
  IsSorted-right (x ∷ l) r s = IsSorted-right l r s.1

  put-past :
      (key : K) (v : D) (l : List (K × D)) (k : K) (d : D) (r : List (K × D))
      → All (λ e. cmp e.0 k ≡ Ordering.lt) l
      → cmp k key ≡ Ordering.lt
      → put cmp key v (l ++ (k, d) ∷ r) ≡ l ++ (k, d) ∷ put cmp key v r
  unfolding put
  put-past key v [] k d r b h = ground (arith, lin.gt_of_lt k key)
  put-past key v ((a, e) ∷ l) k d r b h =
      ground (arith, lin.gt_of_lt a key, lin.lt_trans a k key, put-past key v l k d r b.1 h)

  put-here :
      (key : K) (v : D) (l : List (K × D)) (k : K) (d : D) (r : List (K × D))
      → All (λ e. cmp e.0 k ≡ Ordering.lt) l
      → key ≡ k
      → put cmp key v (l ++ (k, d) ∷ r) ≡ l ++ (k, d) ∷ r
  unfolding put
  put-here key v [] k d r b h = ground (arith, lin.cmp_refl k)
  put-here key v ((a, e) ∷ l) k d r b h =
      ground (arith, lin.gt_of_lt a k, put-here key v l k d r b.1 h)

  pub has_key-before :
      (key : K) (l : List (K × D))
      → All (λ e. cmp key e.0 ≡ Ordering.lt) l
      → has_key cmp key l ≡ false
  unfolding has_key
  has_key-before key [] b = refl
  has_key-before key ((a, e) ∷ l) b = ground (arith, has_key-before key l b.1)

  has_key-past :
      (key : K) (l : List (K × D)) (r : List (K × D)) (k : K) (d : D)
      → All (λ e. cmp e.0 k ≡ Ordering.lt) l
      → cmp k key ≡ Ordering.lt
      → has_key cmp key (l ++ (k, d) ∷ r) ≡ has_key cmp key r
  unfolding has_key
  has_key-past key [] r k d b h = ground (arith, lin.gt_of_lt k key)
  has_key-past key ((a, e) ∷ l) r k d b h =
      ground (arith, lin.gt_of_lt a key, lin.lt_trans a k key, has_key-past key l r k d b.1 h)

  has_key-here :
      (key : K) (l : List (K × D)) (r : List (K × D)) (k : K) (d : D)
      → key ≡ k
      → has_key cmp key (l ++ (k, d) ∷ r) ≡ true
  unfolding has_key
  has_key-here key [] r k d h = ground (arith, lin.cmp_refl k)
  has_key-here key ((a, e) ∷ l) r k d h = ground (arith, has_key-here key l r k d h)

  pub All-trans :
      (key k : K) (l : List (K × D))
      → cmp key k ≡ Ordering.lt
      → All (λ e. cmp k e.0 ≡ Ordering.lt) l
      → All (λ e. cmp key e.0 ≡ Ordering.lt) l
  All-trans key k [] h b = tt
  All-trans key k ((a, e) ∷ l) h b = (lin.lt_trans key k a h b.0, All-trans key k l h b.1)

  has_key-append_lt :
      (key : K) (l : List (K × D)) (r : List (K × D)) (k : K) (d : D)
      → IsSorted cmp (l ++ (k, d) ∷ r)
      → cmp key k ≡ Ordering.lt
      → has_key cmp key (l ++ (k, d) ∷ r) ≡ has_key cmp key l
  unfolding has_key
  has_key-append_lt key [] r k d s h =
      ground (arith, has_key-before key r (All-trans key k r h s.0))
  has_key-append_lt key ((a, e) ∷ l) r k d s h = ground (arith, has_key-append_lt key l r k d s.1 h)

  -- The entry at the root of a sorted tree tells where a key belongs.
  pub put-root :
      (key : K) (v : D) (l : List (K × D)) (k : K) (d : D) (r : List (K × D))
      → IsSorted cmp (l ++ (k, d) ∷ r)
      → (cmp key k ≡ Ordering.gt
          → (put cmp key v (l ++ (k, d) ∷ r) ≡ l ++ (k, d) ∷ put cmp key v r)
            × (has_key cmp key (l ++ (k, d) ∷ r) ≡ has_key cmp key r))
        × (cmp key k ≡ Ordering.lt
            → (put cmp key v (l ++ (k, d) ∷ r) ≡ put cmp key v l ++ (k, d) ∷ r)
              × (has_key cmp key (l ++ (k, d) ∷ r) ≡ has_key cmp key l))
        × (cmp key k ≡ Ordering.eq
            → (put cmp key v (l ++ (k, d) ∷ r) ≡ l ++ (k, d) ∷ r)
              × (has_key cmp key (l ++ (k, d) ∷ r) ≡ true))
  put-root key v l k d r s =
      let b = All-before l k d r s in
      (
        λ h. (
          put-past key v l k d r b (lin.lt_of_gt key k h),
          has_key-past key l r k d b (lin.lt_of_gt key k h),
        ),
        λ h. (put-append_lt cmp key v l k d r h, has_key-append_lt key l r k d s h),
        λ h. (
          put-here key v l k d r b (lin.eq_of_cmp key k h),
          has_key-here key l r k d (lin.eq_of_cmp key k h),
        ),
      )
