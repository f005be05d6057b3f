-- ===== src/Base.antt =====
-- Names that every module shares: the libraries', passed on, and those of the children. The
-- children give Boolean tests, list functions over the native numbers, and the JavaScript
-- containers that the sources use: `Map` (Dict) and `Set` (IdSet).
mod Bools
mod Lists
mod Keys
mod Members
pub mod Dict
pub mod IdSet
pub use Bools.*
pub use Lists.*
pub use Members.*
pub use Keys.*
pub use Prim.Native.Nat.{
  ℕ, zero, suc, ◌+◌, ◌-◌, ◌*◌, ◌/◌, ◌%◌, ◌^◌, ◌≤◌, ◌<◌, compare, Ordering, min, max,
}
pub use Prim.Native.String.{String}
pub use mathlib.Core.Path.{◌≡◌, refl, sym, ap, ap₂, ◌∙◌, subst, ◌≡⟨◌⟩◌, ◌∎}
pub use mathlib.Core.Logic.{◌≢◌, ◌↔◌, ◌⊎◌, inl, inr}
pub use mathlib.Core.Bool.{Bool, true, false, not, ◌&&◌, ◌||◌}
pub use mathlib.Core.Option.{Option, none, some}
pub use mathlib.Core.List.{List, [], ◌∷◌, ◌++◌, map}
pub use native.Mathlib.Omega.{arith}
