-- ===== src/Prelude.antt =====
-- The names that the other modules share: those of the libraries, passed on, and those of four
-- children (Boolean tests, lists, the interface of equality, Python's exceptions and dicts).
mod Tests
mod Lists
mod Classes
mod Texts
mod Splits
mod Spaces
pub mod Sorting
pub mod Raises
pub mod Each
pub mod Exec
pub mod Dict
pub use Tests.*
pub use Lists.*
pub use Classes.*
unfoldable pub use Texts.*
pub use Splits.*
unfoldable pub use Spaces.*
pub use Prim.Native.Nat.{ℕ, zero, suc, ◌+◌, ◌-◌, ◌*◌, ◌≤◌, ◌<◌}
pub use mathlib.Core.Path.{◌≡◌, refl, sym, ap, ◌∙◌, subst}
pub use mathlib.Core.Logic.{◌≢◌, ◌↔◌, ◌⊎◌, inl, inr}
pub use mathlib.Core.Bool.{Bool, true, false, not, ◌&&◌, ◌||◌}
pub use mathlib.Core.Option.{Option, none, some}
pub use mathlib.Core.List.{List, [], ◌∷◌, ◌++◌, map, append-nil, append_assoc}
pub use native.Mathlib.Omega.{arith}
