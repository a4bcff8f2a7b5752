-- ===== src/Common.antt =====
-- The names that the other modules share: library names passed on, Boolean tests, lists and
-- signed integers over the native numbers, and the outcome of a call that can fail or panic.
mod Tests
mod Lists
mod Slices
mod Assoc
mod Int
mod Outcome
pub use Tests.*
unfoldable pub use Assoc.*
unfoldable pub use Lists.*
pub use Slices.*
unfoldable pub use Int.*
pub use Outcome.*
pub use Prim.Native.Nat.{ℕ, zero, suc, ◌+◌, ◌-◌, ◌*◌, ◌/◌, ◌%◌, ◌^◌, ◌≤◌, ◌<◌}
pub use mathlib.Core.Path.{◌≡◌, refl, sym, ap, ◌∙◌, subst}
pub use mathlib.Core.Logic.{◌≢◌, ◌↔◌, ◌⊎◌, inl, inr}
pub use mathlib.Core.Bool.{Bool, true, false, not, ◌&&◌, ◌||◌}
pub use mathlib.Core.Option.{Option, none, some}
pub use mathlib.Core.List.{List, [], ◌∷◌, ◌++◌, map}
pub use native.Mathlib.Omega.{arith}
unfoldable pub use native.Mathlib.Decide.{ℕ_discrete}
