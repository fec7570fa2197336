-- ===== src/Base.antt =====
-- The names that the modules of this library share: those of the libraries, passed on, and the
-- tests, lists, byte strings and integers of its children.
pub mod Tests
pub mod Lists
pub mod Text
pub mod Int
pub mod Decimal
pub mod Int64
pub use Tests.*
pub use Lists.*
pub use Text.*
pub use Int.*
pub use Int64.{int_lt, add_i64-pos}
unfoldable pub use Int64.{add_i64}
pub use Decimal.{value, IsDigit}
unfoldable pub use Decimal.{format_uint, format_int}
pub use Prim.Native.Nat.{ℕ, zero, suc, ◌+◌, ◌-◌, ◌*◌, ◌/◌, ◌%◌, ◌^◌, ◌≤◌, ◌<◌}
pub use mathlib.Core.Path.{◌≡◌, refl, sym, ap, ◌∙◌}
pub use mathlib.Core.Logic.{◌≢◌, ◌↔◌, ◌⊎◌, inl, inr}
pub use mathlib.Core.Bool.{Bool, true, false, not, ◌&&◌, ◌||◌}
pub use mathlib.Core.Option.{Option, none, some}
pub use mathlib.Core.List.{List, [], ◌∷◌, ◌++◌, map}
pub use native.Mathlib.Omega.{arith}
