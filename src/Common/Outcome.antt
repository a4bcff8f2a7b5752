-- ===== src/Common/Outcome.antt =====
-- How a call that cannot return an error value ends: it returns, or the process panics.
use mathlib.Core.Path.{◌≡◌, refl, subst}
use mathlib.Core.Logic.{◌⊎◌, inl, inr}
use mathlib.Core.Bool.{Bool, true, false}
use tendermintx.Common.Tests.{if◌then◌else◌}

pub data Run {ℓ} (A : Type ℓ) : Type ℓ where
  ok : A → Run A
  panic : Run A

pub Run-cases {ℓ} : {A : Type ℓ} (m : Run A) → (m ≡ panic) ⊎ ((a : A) × (m ≡ ok a))
Run-cases (ok a) = inr (a, refl)
Run-cases panic = inl refl

infixl 5 ◌>>=◌
abbrev pub ◌>>=◌ {ℓ κ} : {A : Type ℓ} {B : Type κ} → Run A → (A → Run B) → Run B
ok a >>= f = f a
panic >>= f = panic

-- A chain of calls that returns: the first call returned, and the second one from its value.
pub >>=-eq-ok {ℓ κ} :
    {X : Type ℓ} {Y : Type κ} (first : Run X) (next : X → Run Y) {y : Y}
    → (first >>= next) ≡ ok y
    → (x : X) × (first ≡ ok x) × (next x ≡ ok y)
>>=-eq-ok (ok x) next e = (x, refl, e)
>>=-eq-ok panic next e = cc

-- What holds of the result, if the calls return.
pub record Ends {ℓ κ} {A : Type ℓ} (P : A → Type κ) (m : Run A) : Type (ℓ ⊔ κ) where
  pub at : (a : A) → m ≡ ok a → P a

pub Ends-ok {ℓ κ} : {A : Type ℓ} {P : A → Type κ} {a : A} → P a → Ends P (ok a)
Ends-ok {P = P} {a} p = record { at = λ b e. let same : a ≡ b = cc in subst P same p }

pub Ends-panic {ℓ κ} : {A : Type ℓ} {P : A → Type κ} → Ends P panic
Ends-panic = record { at = λ b e. absurd (cc) }

pub Ends-bind {ℓ κ ι μ} :
    {A : Type ℓ} {B : Type κ} {P : A → Type ι} {Q : B → Type μ} (m : Run A) (f : A → Run B)
    → Ends P m
    → ((a : A) → P a → Ends Q (f a))
    → Ends Q (m >>= f)
Ends-bind (ok a) f p step = step a (p.at a refl)
Ends-bind panic f p step = Ends-panic

-- A call whose result nothing is known of but that it is the result.
pub Ends-self {ℓ} : {A : Type ℓ} (m : Run A) → Ends (λ a. m ≡ ok a) m
Ends-self m = record { at = λ a e. e }

pub Ends-if {ℓ κ} :
    {A : Type ℓ} {P : A → Type κ} (b : Bool) (x y : Run A)
    → (b ≡ true → Ends P x)
    → (b ≡ false → Ends P y)
    → Ends P (if b then x else y)
Ends-if true x y p q = p refl
Ends-if false x y p q = q refl
