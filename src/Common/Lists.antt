-- ===== src/Common/Lists.antt =====
-- Lists measured and indexed by native numbers, under the library's names.
use Prim.Native.Nat.{ℕ, zero, suc, ◌+◌}
use mathlib.Core.Path.{◌≡◌, refl, ap}
use mathlib.Core.List.{List, [], ◌∷◌, ◌++◌}
use mathlib.Core.Option.{Option, none, some}
use native.Mathlib.Omega.{arith}
use native.Mathlib.Decide.{ℕ_discrete}

-- A byte is a number; nothing here depends on its range.
abbrev pub Bytes : Type 0
Bytes = List ℕ

unfoldable pub Bytes-discrete : Discrete Bytes
unfolding ℕ_discrete
Bytes-discrete = hlevel ℕ_discrete

module _ {ℓ} {A : Type ℓ} where
  abbrev pub length : List A → ℕ
  length [] = 0
  length (x ∷ xs) = suc (length xs)

  abbrev pub get_elem? : List A → ℕ → Option A
  get_elem? [] i = none
  get_elem? (x ∷ xs) zero = some x
  get_elem? (x ∷ xs) (suc i) = get_elem? xs i

  -- A write out of bounds changes nothing.
  abbrev pub set : List A → ℕ → A → List A
  set [] i v = []
  set (x ∷ xs) zero v = v ∷ xs
  set (x ∷ xs) (suc i) v = x ∷ set xs i v

  abbrev pub replicate : ℕ → A → List A
  replicate zero a = []
  replicate (suc n) a = a ∷ replicate n a

  pub length-append : (xs ys : List A) → length (xs ++ ys) ≡ length xs + length ys
  length-append [] ys = omega arith
  length-append (x ∷ xs) ys = omega (arith, length-append xs ys)

  pub length-set : (xs : List A) (i : ℕ) (v : A) → length (set xs i v) ≡ length xs
  length-set [] i v = refl
  length-set (x ∷ xs) zero v = refl
  length-set (x ∷ xs) (suc i) v = ap suc (length-set xs i v)

  pub length-replicate : (n : ℕ) (a : A) → length (replicate n a) ≡ n
  length-replicate zero a = refl
  length-replicate (suc n) a = ap suc (length-replicate n a)

module _ {ℓ κ} {A : Type ℓ} where
  abbrev pub All : (A → Type κ) → List A → Type κ
  All P [] = Unit
  All P (x ∷ xs) = P x × All P xs

  pub All-append : (P : A → Type κ) (xs ys : List A) → All P xs → All P ys → All P (xs ++ ys)
  All-append P [] ys hx hy = hy
  All-append P (x ∷ xs) ys hx hy = (hx.0, All-append P xs ys hx.1 hy)

module _ {ℓ κ} {A : Type ℓ} {B : Type κ} where
  -- Lists of one length have the same indices.
  pub get_elem?_both :
      (xs : List A) (ys : List B) (i : ℕ) {a : A}
      → length ys ≡ length xs
      → get_elem? xs i ≡ some a
      → (b : B) × (get_elem? ys i ≡ some b)
  get_elem?_both [] ys i e h = absurd (cc)
  get_elem?_both (x ∷ xs) [] i e h = absurd (omega arith)
  get_elem?_both (x ∷ xs) (y ∷ ys) zero e h = (y, refl)
  get_elem?_both (x ∷ xs) (y ∷ ys) (suc i) e h = get_elem?_both xs ys i (omega arith) h

module _ {ℓ} {A : Type ℓ} where
  pub get_elem?-set :
      (xs : List A) (i : ℕ) (v : A) {a : A}
      → get_elem? xs i ≡ some a
      → get_elem? (set xs i v) i ≡ some v
  get_elem?-set [] i v h = absurd (cc)
  get_elem?-set (x ∷ xs) zero v h = refl
  get_elem?-set (x ∷ xs) (suc i) v h = get_elem?-set xs i v h
