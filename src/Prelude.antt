-- ===== src/Prelude.antt =====
-- What the other modules share: the libraries' names, passed on, and the tests, lists, integers,
-- results, dictionaries and orders that the components use.
mod Tests
mod Lists
pub mod Int
pub mod Result
pub mod Date
pub mod Keys
pub mod Dict
pub mod Distinct
pub mod Order
pub mod Sort
pub mod Sum
pub mod Blank
pub mod Table
pub mod Domain
pub use Tests.*
pub use Lists.*
pub use Prim.Native.Nat.{
  ℕ, zero, suc, ◌+◌, ◌-◌, ◌*◌, ◌/◌, ◌^◌, ◌≤◌, ◌<◌, compare, Ordering, min, max,
}
pub use Prim.Native.String.{String}
pub use mathlib.Core.Path.{◌≡◌, refl, sym, ap, ◌∙◌}
pub use mathlib.Core.Logic.{◌≢◌, ◌↔◌, ◌⊎◌, inl, inr}
pub use mathlib.Core.Bool.{Bool, true, false, not, ◌&&◌, ◌||◌}
pub use mathlib.Core.Option.{Option, none, some}
pub use mathlib.Core.List.{List, [], ◌∷◌, ◌++◌, map}
pub use native.Mathlib.Omega.{arith}
