-- ===== src/Tree/Llrb/Rebalance.antt =====
-- Insertion into a node, the repairs included, returns, and the repairs keep the entries in order.
use Prim.Native.Nat.{Ordering}
use tendermintx.Common.{
  ℕ, ◌⊎◌, inl, inr, Bool, true, false, ◌∷◌, ◌≡◌, not, ◌&&◌, refl, ap, sym, ◌∙◌, arith, Run, ok,
  if◌then◌else◌, >>=-eq-ok,
}
use mathlib.Core.List.{append_assoc}
use tendermintx.Tree.Llrb.{
  Tree, leaf, node, balance, rotate_left, rotate_right, flip, lean_right, insert_node, is_red, left,
  right,
}
use tendermintx.Tree.Llrb.List.{to_list}
use tendermintx.Tree.Llrb.Shape.{
  Shape, empty, red, black, Inserted, balance-left, balance-right, balance-red_left,
  balance-red_right, fixed,
}

pub Ordering-cases : (o : Ordering) → (o ≡ Ordering.lt) ⊎ (o ≡ Ordering.gt) ⊎ (o ≡ Ordering.eq)
Ordering-cases Ordering.lt = inl refl
Ordering-cases Ordering.gt = inr (inl refl)
Ordering-cases Ordering.eq = inr (inr refl)

pub ok-injective {ℓ} : {A : Type ℓ} {a b : A} → ◌≡◌ {A = Run A} (ok a) (ok b) → a ≡ b
ok-injective e = cc

module _ {K D : Type 0} (cmp : K → K → Ordering) (key : K) (v : D) where
  module _ (l r : Tree K D) (k : K) (d : D) (b : Bool) where
    insert_node-lt :
        {l' t : Tree K D} {known : Bool}
        → cmp key k ≡ Ordering.lt
        → insert_node cmp key v l ≡ ok (l', known)
        → balance (node l' k d b r) ≡ ok t
        → insert_node cmp key v (node l k d b r) ≡ ok (t, known)
    unfolding insert_node
    insert_node-lt h i j = ground arith

    insert_node-gt :
        {r' t : Tree K D} {known : Bool}
        → cmp key k ≡ Ordering.gt
        → insert_node cmp key v r ≡ ok (r', known)
        → balance (node l k d b r') ≡ ok t
        → insert_node cmp key v (node l k d b r) ≡ ok (t, known)
    unfolding insert_node
    insert_node-gt h i j = ground arith

    insert_node-eq :
        cmp key k ≡ Ordering.eq → insert_node cmp key v (node l k d b r) ≡ ok (node l k d b r, true)
    unfolding insert_node
    insert_node-eq h = ground arith

  -- Inserting into a tree of the right shape returns.
  pub insert_node-Inserted :
      {c : Bool} {n : ℕ} {t : Tree K D}
      → Shape c n t
      → (t' : Tree K D) × (known : Bool) × (insert_node cmp key v t ≡ ok (t', known))
        × Inserted c n t'
  unfolding insert_node
  insert_node-Inserted empty = (node leaf key v false leaf, false, refl, (true, red empty empty))
  insert_node-Inserted (red {l = l} {r = r} {k = k} {d = d} p q) =
      let (l', kl, il, (cl, sl)) = insert_node-Inserted p in
      let (r', kr, ir, (cr, sr)) = insert_node-Inserted q in
      elim (Ordering-cases (cmp key k)) [
        | inl h ↦
            let (t, e, s) = balance-red_left k d sl q in
            (t, kl, insert_node-lt l r k d false h il e, s)
        | inr (inl h) ↦
            let (t, e, s) = balance-red_right k d p sr in
            (t, kr, insert_node-gt l r k d false h ir e, s)
        | inr (inr h) ↦ (node l k d false r, true, insert_node-eq l r k d false h, fixed (red p q))
      ]
  insert_node-Inserted (black {c = true} {l = l} {r = r} {k = k} {d = d} p q) =
      let (l', kl, il, sl) = insert_node-Inserted p in
      let (r', kr, ir, (cr, sr)) = insert_node-Inserted q in
      elim (Ordering-cases (cmp key k)) [
        | inl h ↦
            let (t, e, s) = balance-left k d sl q in (t, kl, insert_node-lt l r k d true h il e, s)
        | inr (inl h) ↦
            let (t, e, s) = balance-right k d p sr in (t, kr, insert_node-gt l r k d true h ir e, s)
        | inr (inr h) ↦ (node l k d true r, true, insert_node-eq l r k d true h, (false, black p q))
      ]
  insert_node-Inserted (black {c = false} {l = l} {r = r} {k = k} {d = d} p q) =
      let (l', kl, il, (cl, sl)) = insert_node-Inserted p in
      let (r', kr, ir, (cr, sr)) = insert_node-Inserted q in
      elim (Ordering-cases (cmp key k)) [
        | inl h ↦
            let (t, e, s) = balance-left k d (fixed sl) q in
            (t, kl, insert_node-lt l r k d true h il e, s)
        | inr (inl h) ↦
            let (t, e, s) = balance-right k d p sr in (t, kr, insert_node-gt l r k d true h ir e, s)
        | inr (inr h) ↦ (node l k d true r, true, insert_node-eq l r k d true h, (false, black p q))
      ]

module _ {K D : Type 0} where
  rotate_left-to_list : (h : Tree K D) {t : Tree K D} → rotate_left h ≡ ok t → to_list t ≡ to_list h
  unfolding rotate_left
  rotate_left-to_list leaf e = absurd (cc)
  rotate_left-to_list (node l k d b leaf) e = absurd (cc)
  rotate_left-to_list (node l k d b (node rl rk rd true rr)) e = absurd (cc)
  rotate_left-to_list (node l k d b (node rl rk rd false rr)) {t} e =
      let same : node (node l k d false rl) rk rd b rr ≡ t = cc in
      rw (← same) (append_assoc (to_list l) ((k, d) ∷ to_list rl) _)

  rotate_right-to_list :
      (h : Tree K D) {t : Tree K D} → rotate_right h ≡ ok t → to_list t ≡ to_list h
  unfolding rotate_right
  rotate_right-to_list leaf e = absurd (cc)
  rotate_right-to_list (node leaf k d b r) e = absurd (cc)
  rotate_right-to_list (node (node ll lk ld true lr) k d b r) e = absurd (cc)
  rotate_right-to_list (node (node ll lk ld false lr) k d b r) {t} e =
      let same : node ll lk ld b (node lr k d false r) ≡ t = cc in
      rw (← same) (sym (append_assoc (to_list ll) ((lk, ld) ∷ to_list lr) _))

  flip-to_list : (h : Tree K D) {t : Tree K D} → flip h ≡ ok t → to_list t ≡ to_list h
  unfolding flip
  flip-to_list leaf e = absurd (cc)
  flip-to_list (node leaf k d b r) e = absurd (cc)
  flip-to_list (node (node ll lk ld lb lr) k d b leaf) e = absurd (cc)
  flip-to_list (node (node ll lk ld lb lr) k d b (node rl rk rd rb rr)) e =
      rw (sym (ok-injective e))

  when-to_list :
      (b : Bool) (f : Tree K D → Run (Tree K D)) (h : Tree K D) {t : Tree K D}
      → ((t : Tree K D) → f h ≡ ok t → to_list t ≡ to_list h)
      → (if b then f h else ok h) ≡ ok t
      → to_list t ≡ to_list h
  when-to_list true f h keep e = keep _ e
  when-to_list false f h keep e = ap to_list (sym (ok-injective e))

  pub balance-to_list : (h : Tree K D) {t : Tree K D} → balance h ≡ ok t → to_list t ≡ to_list h
  unfolding balance
  balance-to_list h e =
      let (a, ea, e1) =
        >>=-eq-ok (if is_red (right h) && not (is_red (left h)) then rotate_left h else ok h) _ e in
      let (b, eb, e2) = >>=-eq-ok (lean_right a) _ e1 in
      when-to_list _ flip b (λ t. flip-to_list b) e2
      ∙ when-to_list _ rotate_right a (λ t. rotate_right-to_list a) eb
      ∙ when-to_list _ rotate_left h (λ t. rotate_left-to_list h) ea
