-- ===== src/Prelude.antt =====
-- The names that the other modules share: the libraries', passed on, and those of the children.
-- `Tests` has the Boolean tests, `Equality` equality as an interface, `Lists` lists measured by native
-- numbers, `Int` the signed integers of int32, int64 and time.Duration, `Strings` Go strings as lists
-- of bytes, `Decimal` the decimal printing and parsing of strconv and fmt.
mod Tests
mod Equality
mod Lists
mod Int
mod Strings
mod Decimal
unfoldable pub use Tests.*
unfoldable pub use Equality.*
unfoldable pub use Lists.*
unfoldable pub use Int.*
unfoldable pub use Strings.*
unfoldable pub use Decimal.*
pub use Prim.Native.Nat.{ℕ, zero, suc, ◌+◌, ◌-◌, ◌*◌, ◌/◌, ◌%◌, ◌^◌, ◌≤◌, ◌<◌, min, max}
pub use Prim.Native.String.{String}
pub use mathlib.Core.Path.{◌≡◌, refl, sym, ap, ◌∙◌}
pub use mathlib.Core.Logic.{◌≢◌, ◌↔◌, ◌⊎◌, inl, inr}
pub use mathlib.Core.Bool.{Bool, true, false, ◌&&◌, ◌||◌, not}
pub use mathlib.Core.Option.{Option, none, some}
pub use mathlib.Core.List.{List, [], ◌∷◌, ◌++◌, map}
pub use native.Mathlib.Omega.{arith}
