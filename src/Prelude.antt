-- ===== src/Prelude.antt =====
-- The names that the other modules share: the libraries' names, passed on, and those of the
-- children, which hold Boolean tests, lists under native indices, signed integers, text,
-- Go's maps and Go's sorts.
mod Tests
mod Lists
mod Equality
mod Loops
pub mod Int
pub mod Text
pub mod Maps
pub mod Sort
unfoldable pub use Tests.*
pub use Lists.*
pub use Loops.*
unfoldable pub use Equality.*
pub use Prim.Native.Nat.{ℕ, zero, suc, ◌+◌, ◌-◌, ◌*◌, ◌/◌, ◌%◌, ◌^◌, ◌≤◌, ◌<◌, max, min}
pub use Prim.Native.String.{String, ◌++◌ as ◌<>◌}
pub use mathlib.Core.Path.{◌≡◌, refl, sym, ap, ◌∙◌}
pub use mathlib.Core.Logic.{◌≢◌, ◌↔◌, ◌⊎◌, inl, inr, ite}
pub use mathlib.Core.Bool.{Bool, true, false, ◌&&◌, ◌||◌, not}
pub use mathlib.Core.Option.{Option, none, some}
pub use mathlib.Core.List.{List, [], ◌∷◌, ◌++◌, map}
pub use native.Mathlib.Omega.{arith}
