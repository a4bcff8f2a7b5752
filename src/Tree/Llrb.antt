-- ===== src/Tree/Llrb.antt =====
-- llrb.go: insertion, removal and the search for the next entry.
pub mod List
pub mod Shape
pub mod Rebalance
pub mod Insert
pub mod Next
mod Tests
use Prim.Native.Nat.{Ordering}
use tendermintx.Common.{
  ℕ, ◌+◌, ◌-◌, Bool, true, false, not, ◌&&◌, ◌||◌, Option, none, some, Run, ok, panic, ◌>>=◌,
  if◌then◌else◌,
}

-- `node left key datum black right`
pub data Tree (K D : Type 0) : Type 0 where
  leaf : Tree K D
  node : Tree K D → K → D → Bool → Tree K D → Tree K D

module _ {K D : Type 0} where
  abbrev pub is_red : Tree K D → Bool
  is_red leaf = false
  is_red (node _ _ _ black _) = not black

  -- `isRed(h.left)` and so on, at a node
  abbrev pub left : Tree K D → Tree K D
  left leaf = leaf
  left (node l _ _ _ _) = l

  abbrev pub right : Tree K D → Tree K D
  right leaf = leaf
  right (node _ _ _ _ r) = r

  unfoldable pub rotate_left : Tree K D → Run (Tree K D)
  rotate_left (node l k d b (node rl rk rd false rr)) = ok (node (node l k d false rl) rk rd b rr)
  rotate_left _ = panic

  unfoldable pub rotate_right : Tree K D → Run (Tree K D)
  rotate_right (node (node ll lk ld false lr) k d b r) = ok (node ll lk ld b (node lr k d false r))
  rotate_right _ = panic

  unfoldable pub flip : Tree K D → Run (Tree K D)
  flip (node (node ll lk ld lb lr) k d b (node rl rk rd rb rr)) =
      ok (node (node ll lk ld (not lb) lr) k d (not b) (node rl rk rd (not rb) rr))
  flip _ = panic

  -- the last two repairs of `insert` and of `fixUp`
  lean_right : Tree K D → Run (Tree K D)
  unfolding rotate_right
  lean_right h = if is_red (left h) && is_red (left (left h)) then rotate_right h else ok h

  split : Tree K D → Run (Tree K D)
  unfolding flip
  split h = if is_red (left h) && is_red (right h) then flip h else ok h

  -- the repairs at the end of `insert`
  unfoldable pub balance : Tree K D → Run (Tree K D)
  unfolding lean_right split rotate_left
  balance h = do
    a ← if is_red (right h) && not (is_red (left h)) then rotate_left h else ok h
    b ← lean_right a
    split b

  unfoldable pub fix_up : Tree K D → Run (Tree K D)
  unfolding lean_right split rotate_left
  fix_up h = do a ← if is_red (right h) then rotate_left h else ok h; b ← lean_right a; split b

  -- the assignments `h.left = …` and `h.right = …`
  abbrev pub with_left : Tree K D → Tree K D → Tree K D
  with_left leaf l = leaf
  with_left (node _ k d b r) l = node l k d b r

  abbrev pub with_right : Tree K D → Tree K D → Tree K D
  with_right leaf r = leaf
  with_right (node l k d b _) r = node l k d b r

  unfoldable pub move_red_left : Tree K D → Run (Tree K D)
  move_red_left h = do
    f ← flip h
    if is_red (left (right f))
        then (do r ← rotate_right (right f); g ← rotate_left (with_right f r); flip g)
        else ok f

  unfoldable pub move_red_right : Tree K D → Run (Tree K D)
  move_red_right h = do f ← flip h; if is_red (left (left f)) then rotate_right f >>= flip else ok f

  unfoldable pub blacken : Tree K D → Tree K D
  blacken leaf = leaf
  blacken (node l k d _ r) = node l k d true r

-- The tree and its size.
pub record Llrb (K D : Type 0) : Type 0 where
  pub size : ℕ
  pub root : Tree K D

module _ {K D : Type 0} (cmp : K → K → Ordering) where
  -- The new tree, and whether the key was there already.
  unfoldable pub insert_node : K → D → Tree K D → Run (Tree K D × Bool)
  insert_node key v leaf = ok (node leaf key v false leaf, false)
  insert_node key v (node l k d b r) =
      let below =
        insert_node key v l >>= λ (l', known). balance (node l' k d b r) >>= λ h. ok (h, known) in
      let above =
        insert_node key v r >>= λ (r', known). balance (node l k d b r') >>= λ h. ok (h, known) in
      elim (cmp key k) [
        | Ordering.lt ↦ below
        | Ordering.gt ↦ above
        | Ordering.eq ↦ ok (node l k d b r, true)
      ]

  unfoldable pub insert : K → D → Llrb K D → Run (Llrb K D)
  insert key v t = do
    (root, known) ← insert_node key v t.root
    ok (record { size = if known then t.size else t.size + 1; root = blacken root })

  -- The search loop: the candidate is the entry found so far.
  unfoldable pub next_from : K → (D → Bool) → Tree K D → Option (K × D) → Option (K × D)
  next_from start pred leaf candidate = candidate
  next_from start pred (node l k d b r) candidate =
      let better : Bool = elim candidate [
        | none ↦ true
        | some (c, _) ↦ elim (cmp c k) [ Ordering.lt ↦ true | _ ↦ false ]
      ] in
      let below = next_from start pred r (if pred d && better then some (k, d) else candidate) in
      let above = next_from start pred l candidate in
      elim (cmp k start) [ Ordering.lt ↦ below | _ ↦ above ]

  -- `GetNext`: a nil starter stands for the key `top`, and a nil predicate accepts everything.
  -- `none` is ErrorStopIteration.
  unfoldable pub get_next : K → Option K → (D → Bool) → Llrb K D → Option (K × D)
  get_next top none pred t = next_from top pred t.root none
  get_next top (some start) pred t = next_from start pred t.root none
