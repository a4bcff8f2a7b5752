-- ===== src/Common/Assoc.antt =====
-- A Go map as an association list over a key with decidable equality.
use mathlib.Core.Path.{◌≡◌, subst₂}
use mathlib.Core.Logic.{◌≢◌, ◌⊎◌, inl, inr}
use mathlib.Core.List.{List, [], ◌∷◌}
use mathlib.Core.Option.{Option, none, some}
use native.Mathlib.Omega.{arith}
use tendermintx.Common.Tests.{if◌then◌else◌, holds}
use tendermintx.Common.Lists.{All}

module _ {K V : Type 0} (dec : Discrete K) where
  unfoldable pub find : K → List (K × V) → Option V
  find k [] = none
  find k ((j, v) ∷ m) = if holds (dec j k) then some v else find k m

  unfoldable pub store : K → V → List (K × V) → List (K × V)
  store k v [] = (k, v) ∷ []
  store k v ((j, w) ∷ m) = if holds (dec j k) then (k, v) ∷ m else (j, w) ∷ store k v m

  unfoldable pub remove : K → List (K × V) → List (K × V)
  remove k [] = []
  remove k ((j, w) ∷ m) = let rest = remove k m in if holds (dec j k) then rest else (j, w) ∷ rest

  pub find-store_self : (k : K) (v : V) (m : List (K × V)) → find k (store k v m) ≡ some v
  unfolding find store
  find-store_self k v [] = ground arith
  find-store_self k v ((j, w) ∷ m) = ground (arith, find-store_self k v m)

  pub find-store_ne : (k j : K) (v : V) (m : List (K × V)) → k ≢ j → find j (store k v m) ≡ find j m
  unfolding find store
  find-store_ne k j v [] h = ground arith
  find-store_ne k j v ((i, w) ∷ m) h = ground (arith, find-store_ne k j v m h)

  pub All-store {κ} :
      (P : K × V → Type κ) (k : K) (v : V) (m : List (K × V))
      → P (k, v)
      → All P m
      → All P (store k v m)
  unfolding store
  All-store P k v [] p h = (p, tt)
  All-store P k v ((j, w) ∷ m) p h =
      elim (dec j k) as (λ q. All P (if holds q then (k, v) ∷ m else (j, w) ∷ store k v m)) [
        | yes _ ↦ (p, h.1)
        | no _ ↦ (h.0, All-store P k v m p h.1)
      ]

  not-find-nil : (k : K) {v : V} → ¬ (find k [] ≡ some v)
  unfolding find
  not-find-nil k e = cc

  find-cons :
      (k j : K) (w : V) (m : List (K × V)) {v : V}
      → find k ((j, w) ∷ m) ≡ some v
      → ((j ≡ k) × (w ≡ v)) ⊎ (find k m ≡ some v)
  unfolding find
  find-cons k j w m e = ground arith

  pub All-find {κ} :
      (P : K × V → Type κ) (k : K) (m : List (K × V)) {v : V}
      → All P m
      → find k m ≡ some v
      → P (k, v)
  All-find P k [] h e = absurd (not-find-nil k e)
  All-find P k ((j, w) ∷ m) h e = elim (find-cons k j w m e) [
    | inl (p, q) ↦ subst₂ (λ a b. P (a, b)) p q h.0
    | inr rest ↦ All-find P k m h.1 rest
  ]
