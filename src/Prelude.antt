-- ===== src/Prelude.antt =====
-- The names that all modules share: the libraries' names passed on, Boolean tests, Python's
-- dict and list operations, and actions that may raise. No code of the repository is modelled here.
mod Tests
pub mod Lists
pub mod Dict
pub mod Entries
pub mod Sort
pub mod Actions
pub mod Returns
pub use Tests.*
unfoldable pub use Tests.{is_empty}
pub use Actions.{
  Result, ok, err, Result-cases, Exec, pure, raise, gets, modify, guard, or_raise, ◌>>=◌, ◌>>◌,
}
pub use Prim.Native.Nat.{ℕ, zero, suc, ◌+◌, ◌-◌, ◌*◌, ◌/◌, ◌%◌, ◌≤◌, ◌<◌}
pub use Prim.Native.String.{String}
pub use mathlib.Core.Path.{◌≡◌, refl, sym, ap, ◌∙◌}
pub use mathlib.Core.Logic.{◌≢◌, ◌↔◌, ◌⊎◌, inl, inr}
pub use mathlib.Core.Bool.{Bool, true, false, not, ◌&&◌, ◌||◌}
pub use mathlib.Core.Option.{Option, none, some}
pub use mathlib.Core.List.{List, [], ◌∷◌, ◌++◌, map}
pub use native.Mathlib.Omega.{arith}
pub use text.Mathlib.TextEquality.{eq_iff}
