-- ===== src/Prelude.antt =====
-- The names that the other modules share: the libraries', passed on, and those of the children.
mod Tests
mod Lists
mod Dicts
mod Results
mod Ints
mod Sorts
mod Orders
pub use Tests.*
pub use Lists.*
unfoldable pub use Lists.{mem, any, all, filter_by, count_by, distinct, subset, mem_ℕ, distinct_ℕ}
pub use Dicts.*
unfoldable pub use Dicts.{get, put}
pub use Results.*
unfoldable pub use Results.{each}
pub use Ints.*
pub use Sorts.*
pub use Orders.*
unfoldable pub use Sorts.{insert_by, sort_by}
unfoldable pub use Orders.{first_min}
pub use Prim.Native.Nat.{ℕ, zero, suc, ◌+◌, ◌-◌, ◌*◌, ◌≤◌, ◌<◌, max, min}
pub use Prim.Native.String.{String}
pub use mathlib.Core.Path.{◌≡◌, refl, sym, ap, ◌∙◌}
pub use mathlib.Core.Logic.{◌≢◌, ◌↔◌, ◌⊎◌, inl, inr}
pub use mathlib.Core.Bool.{Bool, true, false, not, ◌&&◌, ◌||◌}
pub use mathlib.Core.Option.{Option, none, some}
pub use mathlib.Core.List.{List, [], ◌∷◌, ◌++◌, map}
pub use native.Mathlib.Omega.{arith}
pub use text.Mathlib.Text.{◌==◌}
pub use text.Mathlib.TextEquality.{eq_iff}
pub use text.Mathlib.TextPositions.{eq_refl}
