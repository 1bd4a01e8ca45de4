-- ===== src/Prelude.antt =====
-- The names that every module shares: those of the libraries, passed on, and those of the
-- children on Boolean tests, lists, text, integers and maps.
mod Tests
mod Lists
mod Strings
mod Chars
mod Trim
pub mod Digits
pub mod Utf8
pub mod Results
pub mod Maps
pub mod TextMaps
pub mod Int
pub mod Json
pub use Tests.*
pub use Lists.*
pub use Strings.*
pub use Chars.*
pub use Trim.*
pub use Prim.Native.Nat.{ℕ, zero, suc, ◌+◌, ◌-◌, ◌*◌, ◌/◌, ◌%◌, ◌^◌, ◌≤◌, ◌<◌}
pub use Prim.Native.String.{String}
pub use mathlib.Core.Path.{◌≡◌, refl, sym, ap, ◌∙◌}
pub use mathlib.Core.Logic.{◌≢◌, ◌↔◌, ◌⊎◌, inl, inr}
pub use mathlib.Core.Bool.{Bool, true, false, not, ◌&&◌, ◌||◌}
pub use mathlib.Core.Option.{Option, none, some}
pub use mathlib.Core.List.{List, [], ◌∷◌, ◌++◌, map}
pub use native.Mathlib.Omega.{arith}
