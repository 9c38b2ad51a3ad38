-- ===== src/Base.antt =====
-- The names that every module shares: the libraries', passed on, and those of the children.
-- Tests has Boolean tests and the conditional, Lists the lists measured by native numbers, Int the
-- signed integers and the `i64` operations, Text, Trim and Utf8 the byte strings, Numbers
-- their numbers, Errors the error results.
mod Tests
mod Lists
mod Int
mod Errors
mod Text
mod Trim
mod Utf8
mod Numbers
unfoldable pub use Tests.*
pub use Lists.*
unfoldable pub use Int.*
pub use Errors.*
unfoldable pub use Text.*
unfoldable pub use Trim.*
unfoldable pub use Utf8.*
pub use Numbers.*
pub use Prim.Native.Nat.{ℕ, zero, suc, ◌+◌, ◌-◌, ◌*◌, ◌/◌, ◌%◌, ◌^◌, ◌≤◌, ◌<◌, min}
pub use Prim.Native.String.{String}
pub use mathlib.Core.Path.{◌≡◌, refl, sym, subst, ap, ◌∙◌, ◌≡⟨◌⟩◌, ◌∎}
pub use mathlib.Core.Logic.{◌≢◌, ◌↔◌, ◌⊎◌, inl, inr}
pub use mathlib.Core.Bool.{Bool, true, false, not, ◌&&◌, ◌||◌}
pub use mathlib.Core.Option.{Option, none, some}
pub use mathlib.Core.List.{List, [], ◌∷◌, ◌++◌, map, append_assoc, append-nil}
pub use native.Mathlib.Omega.{arith}
