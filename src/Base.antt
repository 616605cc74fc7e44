-- ===== src/Base.antt =====
-- The names that the other modules share: library names passed on, tests on numbers, results and
-- Go errors, lists, and byte texts.
mod Tests
mod Results
mod Lists
mod Perms
mod Ints
mod Texts
mod Sorts
pub use Tests.*
pub use Results.*
pub use Lists.*
pub use Perms.*
unfoldable pub use Ints.*
unfoldable pub use Texts.*
unfoldable pub use Sorts.*
pub use Prim.Native.Nat.{ℕ, zero, suc, ◌+◌, ◌-◌, ◌*◌, ◌/◌, ◌%◌, ◌^◌, ◌≤◌, ◌<◌}
pub use mathlib.Core.Path.{◌≡◌, refl, sym, ap, ◌∙◌, subst}
pub use mathlib.Core.Logic.{◌≢◌, ◌↔◌, ◌⊎◌, inl, inr}
pub use mathlib.Core.Bool.{Bool, true, false, not, ◌&&◌, ◌||◌}
pub use mathlib.Core.Option.{Option, none, some}
pub use mathlib.Core.List.{List, [], ◌∷◌, ◌++◌, map, append-nil, append_assoc}
pub use native.Mathlib.Omega.{arith}
