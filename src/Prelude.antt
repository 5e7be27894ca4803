-- ===== src/Prelude.antt =====
-- The names that the other modules share: those of the libraries, passed on, and the tests, the
-- native-number versions of list functions and the results of three children.
mod Tests
mod Lists
mod Results
mod Maps
mod Sorting
pub use Tests.*
pub use Lists.*
pub use Results.*
unfoldable pub use Maps.{lookup, lookup_or, insert}
pub use Maps.{Map, map_keys, lookup-insert}
unfoldable pub use Sorting.{text_leb, sort_strings, unique}
pub use Sorting.{
  text_leb_total, text_leb_trans, text_leb_antisymm, IsSorted, contains-sort_strings,
  sort_strings-IsSorted, distinct-sort_strings, contains-unique, distinct-unique, sorted_ext,
  sort_unique-ext,
}
pub use Prim.Native.Nat.{ℕ, zero, suc, ◌+◌, ◌-◌, ◌*◌, ◌≤◌, ◌<◌}
pub use Prim.Native.String.{String}
pub use mathlib.Core.Path.{◌≡◌, refl, sym, ap, ◌∙◌}
pub use mathlib.Core.Logic.{◌≢◌, ◌↔◌, ◌⊎◌, inl, inr}
pub use mathlib.Core.Bool.{Bool, true, false, not, ◌&&◌, ◌||◌}
pub use mathlib.Core.Option.{Option, none, some}
pub use mathlib.Core.List.{List, [], ◌∷◌, ◌++◌, map}
pub use native.Mathlib.Omega.{arith}
pub use text.Mathlib.Text.{◌==◌}
pub use text.Mathlib.TextEquality.{eq_iff}
