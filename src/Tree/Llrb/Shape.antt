-- ===== src/Tree/Llrb/Shape.antt =====
-- The shape of a left-leaning red-black tree, and the repairs that restore it.
use tendermintx.Common.{◌&&◌, ◌&&◌, ℕ, suc, Bool, true, false, ◌≡◌, refl, arith, ok}
use tendermintx.Tree.Llrb.{Tree, leaf, node, is_red, left, balance, blacken}

module _ {K D : Type 0} where
  -- `Shape c n t`: every way down `t` meets `n` black nodes, a red node has black children and a
  -- right child is black; `c` says whether the root is red.
  pub data Shape : Bool → ℕ → Tree K D → Type 0 where
    empty : Shape false 0 leaf
    red :
        {n : ℕ} {l r : Tree K D} {k : K} {d : D}
        → Shape false n l
        → Shape false n r
        → Shape true n (node l k d false r)
    black :
        {c : Bool} {n : ℕ} {l r : Tree K D} {k : K} {d : D}
        → Shape c n l
        → Shape false n r
        → Shape false (suc n) (node l k d true r)

  -- What an insertion into a red node can leave: a red node with a red left child.
  pub data Almost (n : ℕ) : Tree K D → Type 0 where
    fixed : {c : Bool} {t : Tree K D} → Shape c n t → Almost n t
    double :
        {l r : Tree K D} {k : K} {d : D}
        → Shape true n l
        → Shape false n r
        → Almost n (node l k d false r)

  abbrev pub Inserted : Bool → ℕ → Tree K D → Type 0
  Inserted true n t = Almost n t
  Inserted false n t = (c : Bool) × Shape c n t

  pub Shape-is_red : {c : Bool} {n : ℕ} {t : Tree K D} → Shape c n t → is_red t ≡ c
  Shape-is_red empty = refl
  Shape-is_red (red a b) = refl
  Shape-is_red (black a b) = refl

  pub Shape-no_red_red :
      {c : Bool} {n : ℕ} {t : Tree K D} → Shape c n t → (is_red t && is_red (left t)) ≡ false
  Shape-no_red_red empty = refl
  Shape-no_red_red (red a b) = Shape-is_red a
  Shape-no_red_red (black a b) = refl

  -- The repairs at a black node whose left child was inserted into.
  pub balance-left :
      {n : ℕ} {l r : Tree K D} (k : K) (d : D)
      → Almost n l
      → Shape false n r
      → (t : Tree K D) × (balance (node l k d true r) ≡ ok t) × Inserted false (suc n) t
  unfolding balance
  balance-left {r = r} k d (fixed empty) s =
      (node leaf k d true r, ground (arith, Shape-is_red s), (false, black empty s))
  balance-left {l = l} {r = r} k d (fixed (red a b)) s = (
    node l k d true r,
    ground (arith, Shape-is_red s, Shape-is_red a),
    (false, black (red a b) s),
  )
  balance-left {l = l} {r = r} k d (fixed (black a b)) s =
      (node l k d true r, ground (arith, Shape-is_red s), (false, black (black a b) s))
  balance-left {r = r} k d
        (double {r = m} {k = lk} {d = ld} (red {l = a} {r = b} {k = ak} {d = ad} p q) t) s =
      (
        node (node a ak ad true b) lk ld false (node m k d true r),
        ground (arith, Shape-is_red s, Shape-is_red t),
        (true, red (black p q) (black t s)),
      )

  -- ... at a black node whose right child was inserted into.
  pub balance-right :
      {c c' : Bool} {n : ℕ} {l r : Tree K D} (k : K) (d : D)
      → Shape c n l
      → Shape c' n r
      → (t : Tree K D) × (balance (node l k d true r) ≡ ok t) × Inserted false (suc n) t
  unfolding balance
  balance-right {l = l} {r = r} k d (red {l = a} {r = b} {k = ak} {d = ad} p q)
        (red {l = x} {r = y} {k = yk} {d = yd} u v) =
      (
        node (node a ak ad true b) k d false (node x yk yd true y),
        ground (arith, Shape-is_red p),
        (true, red (black p q) (black u v)),
      )
  balance-right {l = l} k d empty (red {l = x} {r = y} {k = yk} {d = yd} u v) = (
    node (node l k d false x) yk yd true y,
    ground (arith, Shape-is_red v),
    (false, black (red empty u) v),
  )
  balance-right {l = l} k d (black p q) (red {l = x} {r = y} {k = yk} {d = yd} u v) = (
    node (node l k d false x) yk yd true y,
    ground (arith, Shape-is_red v),
    (false, black (red (black p q) u) v),
  )
  balance-right {l = l} {r = r} k d p empty =
      (node l k d true r, ground (arith, Shape-no_red_red p), (false, black p empty))
  balance-right {l = l} {r = r} k d p (black u v) =
      (node l k d true r, ground (arith, Shape-no_red_red p), (false, black p (black u v)))

  -- ... and at a red node, whose children were black.
  pub balance-red_left :
      {c : Bool} {n : ℕ} {l r : Tree K D} (k : K) (d : D)
      → Shape c n l
      → Shape false n r
      → (t : Tree K D) × (balance (node l k d false r) ≡ ok t) × Inserted true n t
  unfolding balance
  balance-red_left {c = true} {l = l} {r = r} k d p q =
      (node l k d false r, ground (arith, Shape-is_red q, Shape-no_red_red p), double p q)
  balance-red_left {c = false} {l = l} {r = r} k d p q =
      (node l k d false r, ground (arith, Shape-is_red q, Shape-no_red_red p), fixed (red p q))

  pub balance-red_right :
      {c : Bool} {n : ℕ} {l r : Tree K D} (k : K) (d : D)
      → Shape false n l
      → Shape c n r
      → (t : Tree K D) × (balance (node l k d false r) ≡ ok t) × Inserted true n t
  unfolding balance
  balance-red_right {l = l} k d p (red {l = x} {r = y} {k = yk} {d = yd} u v) = (
    node (node l k d false x) yk yd false y,
    ground (arith, Shape-is_red p, Shape-is_red v),
    double (red p u) v,
  )
  balance-red_right {l = l} {r = r} k d p empty =
      (node l k d false r, ground (arith, Shape-is_red p), fixed (red p empty))
  balance-red_right {l = l} {r = r} k d p (black u v) =
      (node l k d false r, ground (arith, Shape-is_red p), fixed (red p (black u v)))

  blacken-any :
      {c : Bool} {n : ℕ} {t : Tree K D} → Shape c n t → (m : ℕ) × Shape false m (blacken t)
  unfolding blacken
  blacken-any empty = (0, empty)
  blacken-any (red p q) = (_, black p q)
  blacken-any (black p q) = (_, black p q)

  -- The root of an insertion is blackened.
  pub blacken-Shape :
      (c : Bool) (n : ℕ) (t : Tree K D) → Inserted c n t → (m : ℕ) × Shape false m (blacken t)
  unfolding blacken
  blacken-Shape false n t (c, s) = blacken-any s
  blacken-Shape true n t (fixed s) = blacken-any s
  blacken-Shape true n t (double p q) = (_, black p q)
