-- ===== src/Common/Slices.antt =====
-- Slices of a list, and what they hold.
use Prim.Native.Nat.{ℕ, zero, suc, ◌-◌, ◌≤◌, ◌<◌}
use mathlib.Core.Path.{◌≡◌, refl, ap, ◌∙◌}
use mathlib.Core.List.{List, [], ◌∷◌, ◌++◌, map}
use mathlib.Core.Option.{some}
use native.Mathlib.Omega.{arith}
use tendermintx.Common.Lists.{length, get_elem?}

module _ {ℓ} {A : Type ℓ} where
  -- `s[:n]` and `s[n:]`, where the slice has so many elements.
  abbrev pub take : ℕ → List A → List A
  take zero xs = []
  take (suc n) [] = []
  take (suc n) (x ∷ xs) = x ∷ take n xs

  abbrev pub drop : ℕ → List A → List A
  drop zero xs = xs
  drop (suc n) [] = []
  drop (suc n) (x ∷ xs) = drop n xs

  pub length-take : (n : ℕ) (xs : List A) → n ≤ length xs → length (take n xs) ≡ n
  length-take zero xs h = refl
  length-take (suc n) [] h = absurd (omega (arith, h))
  length-take (suc n) (x ∷ xs) h = ap suc (length-take n xs (omega (arith, h)))

  pub length-drop : (n : ℕ) (xs : List A) → length (drop n xs) ≡ length xs - n
  length-drop zero xs = omega arith
  length-drop (suc n) [] = omega arith
  length-drop (suc n) (x ∷ xs) = omega (arith, length-drop n xs)

  pub get_elem?-take :
      (n : ℕ) (xs : List A) (i : ℕ) → i < n → get_elem? (take n xs) i ≡ get_elem? xs i
  get_elem?-take zero xs i h = absurd (omega (arith, h))
  get_elem?-take (suc n) [] i h = refl
  get_elem?-take (suc n) (x ∷ xs) zero h = refl
  get_elem?-take (suc n) (x ∷ xs) (suc i) h = get_elem?-take n xs i (omega (arith, h))

  pub get_elem?-drop :
      (n : ℕ) (xs : List A) (i : ℕ) → n ≤ i → get_elem? (drop n xs) (i - n) ≡ get_elem? xs i
  get_elem?-drop zero xs i h = let e : i - 0 ≡ i = omega arith in ap (get_elem? xs) e
  get_elem?-drop (suc n) [] i h = refl
  get_elem?-drop (suc n) (x ∷ xs) zero h = absurd (omega (arith, h))
  get_elem?-drop (suc n) (x ∷ xs) (suc i) h =
      let e : suc i - suc n ≡ i - n = omega arith in
      ap (get_elem? (drop n xs)) e ∙ get_elem?-drop n xs i (omega (arith, h))

  -- An element of a joined list is one of its first part or of its second.
  pub get_elem?-append_left :
      (xs ys : List A) (i : ℕ) → i < length xs → get_elem? (xs ++ ys) i ≡ get_elem? xs i
  get_elem?-append_left [] ys i h = absurd (omega (arith, h))
  get_elem?-append_left (x ∷ xs) ys zero h = refl
  get_elem?-append_left (x ∷ xs) ys (suc i) h = get_elem?-append_left xs ys i (omega (arith, h))

  pub get_elem?-append_right :
      (xs ys : List A) (i : ℕ)
      → length xs ≤ i
      → get_elem? (xs ++ ys) i ≡ get_elem? ys (i - length xs)
  get_elem?-append_right [] ys i h = let e : i ≡ i - 0 = omega arith in ap (get_elem? ys) e
  get_elem?-append_right (x ∷ xs) ys zero h = absurd (omega (arith, h))
  get_elem?-append_right (x ∷ xs) ys (suc i) h =
      let e : i - length xs ≡ suc i - suc (length xs) = omega arith in
      get_elem?-append_right xs ys i (omega (arith, h)) ∙ ap (get_elem? ys) e

  pub get_elem?-below : (xs : List A) (i : ℕ) → i < length xs → (x : A) × (get_elem? xs i ≡ some x)
  get_elem?-below [] i h = absurd (omega (arith, h))
  get_elem?-below (x ∷ xs) zero h = (x, refl)
  get_elem?-below (x ∷ xs) (suc i) h = get_elem?-below xs i (omega (arith, h))

  -- Two joined lists whose first parts are of one length are equal in both parts.
  pub append_cancel :
      (as' bs cs ds : List A)
      → length as' ≡ length cs
      → as' ++ bs ≡ cs ++ ds
      → (as' ≡ cs) × (bs ≡ ds)
  append_cancel [] bs [] ds n e = (refl, e)
  append_cancel [] bs (c ∷ cs) ds n e = absurd (omega (arith, n))
  append_cancel (a ∷ as') bs [] ds n e = absurd (omega (arith, n))
  append_cancel (a ∷ as') bs (c ∷ cs) ds n e =
      let head : a ≡ c = cc in
      let tail : as' ++ bs ≡ cs ++ ds = cc in
      let (p, q) = append_cancel as' bs cs ds (omega (arith, n)) tail in (cc, q)

module _ {ℓ κ} {A : Type ℓ} {B : Type κ} where
  pub get_elem?-map :
      (f : A → B) (xs : List A) (i : ℕ) {x : A}
      → get_elem? xs i ≡ some x
      → get_elem? (map f xs) i ≡ some (f x)
  get_elem?-map f [] i h = absurd (cc)
  get_elem?-map f (y ∷ xs) zero h = cc
  get_elem?-map f (y ∷ xs) (suc i) h = get_elem?-map f xs i h

  pub length-map : (f : A → B) (xs : List A) → length (map f xs) ≡ length xs
  length-map f [] = refl
  length-map f (x ∷ xs) = ap suc (length-map f xs)
