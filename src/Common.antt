-- ===== src/Common.antt =====
-- The names that the other modules share: numbers, lists, options, Boolean tests, and text as a
-- list of code points. It models no code of its own.
mod Tests
mod Lists
mod Strings
mod Results
mod Sorting
mod Decimals
mod Trimming
pub use Tests.*
pub use Lists.*
pub use Strings.*
pub use Results.*
pub use Sorting.*
pub use Decimals.*
pub use Trimming.*
pub use Prim.Native.Nat.{ℕ, zero, suc, ◌+◌, ◌-◌, ◌*◌, ◌/◌, ◌%◌, ◌^◌, ◌≤◌, ◌<◌}
pub use mathlib.Core.Path.{◌≡◌, refl, sym, ap, ◌∙◌}
pub use mathlib.Core.Logic.{◌≢◌, ◌↔◌, ◌⊎◌, inl, inr}
pub use mathlib.Core.Bool.{Bool, true, false, not, ◌&&◌, ◌||◌}
pub use mathlib.Core.Option.{Option, none, some}
pub use mathlib.Core.List.{List, [], ◌∷◌, ◌++◌, map}
pub use native.Mathlib.Omega.{arith}
