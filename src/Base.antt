-- ===== src/Base.antt =====
-- Names that every module shares: the libraries', passed on, tests on numbers and texts, and lists
-- over the native numbers.
mod Booleans
mod Lists
mod Decimal
unfoldable pub use Booleans.*
pub use Lists.*
unfoldable pub use Decimal.{show, show_from, padded, digit, to_fixed_7, to_fixed_2}
pub use Prim.Native.Nat.{ℕ, zero, suc, ◌+◌, ◌-◌, ◌*◌, ◌/◌, ◌%◌, ◌^◌, ◌≤◌, ◌<◌}
pub use Prim.Native.String.{String}
pub use mathlib.Core.Path.{◌≡◌, refl, sym, ap, ◌∙◌, subst}
pub use mathlib.Core.Logic.{◌≢◌, ◌↔◌, ◌⊎◌, inl, inr}
pub use mathlib.Core.Bool.{Bool, true, false, not, ◌&&◌, ◌||◌}
pub use mathlib.Core.Option.{Option, none, some}
pub use mathlib.Core.List.{List, [], ◌∷◌, ◌++◌, map}
pub use native.Mathlib.Omega.{arith}
