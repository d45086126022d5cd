-- ===== src/Base.antt =====
-- The names that every component shares: the libraries' names, passed on, Boolean tests on the
-- native numbers, lists measured and cut by them, and text as a list of UTF-16 code units.
mod Tests
mod Lists
mod Texts
pub mod Decimal
pub use Tests.*
pub use Lists.*
pub use Texts.*
pub use Prim.Native.Nat.{ℕ, zero, suc, ◌+◌, ◌-◌, ◌*◌, ◌/◌, ◌%◌, ◌^◌, ◌≤◌, ◌<◌, min, max}
pub use Prim.Native.String.{String}
pub use mathlib.Core.Path.{◌≡◌, refl, sym, ap, ap₂, ◌∙◌}
pub use mathlib.Core.Logic.{◌≢◌, ◌↔◌, ◌⊎◌, inl, inr}
pub use mathlib.Core.Bool.{Bool, true, false, not, ◌&&◌, ◌||◌}
pub use mathlib.Core.Option.{Option, none, some}
pub use mathlib.Core.List.{
  List, [], ◌∷◌, ◌++◌, map, map-map, map-append, append-nil, append_assoc, reverse,
}
pub use native.Mathlib.Omega.{arith}
