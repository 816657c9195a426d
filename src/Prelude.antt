-- ===== src/Prelude.antt =====
-- The names that every module shares: the libraries', passed on, and those of the children, which
-- hold Boolean tests, lists, Go's strings and Go's maps.
mod Tests
mod Lists
mod Strings
mod Maps
pub use Tests.*
pub use Lists.*
unfoldable pub use Strings.{GoString, bytes, ◌==◌, has_prefix, trim_prefix, is_empty}
pub use Strings.{
  utf8, runes, eq_iff, eq_refl, has_prefix-append, trim_prefix-append, has_prefix_iff, is_empty_iff,
}
unfoldable pub use Maps.{GoMap, lookup, insert, delete, Distinct, keys, values}
pub use Maps.{
  MapOrder, as_inserted, swapped, lookup-insert, lookup-delete, insert-Distinct, delete-Distinct,
}
pub use Prim.Native.Nat.{ℕ, zero, suc, ◌+◌, ◌-◌, ◌*◌, ◌≤◌, ◌<◌}
pub use mathlib.Core.Path.{◌≡◌, refl, sym, ap, subst, ◌∙◌}
pub use mathlib.Core.Logic.{◌≢◌, ◌↔◌, ◌⊎◌, inl, inr}
pub use mathlib.Core.Bool.{Bool, true, false, not, ◌&&◌, ◌||◌}
pub use mathlib.Core.Option.{Option, none, some}
pub use mathlib.Core.List.{List, [], ◌∷◌, ◌++◌, map, append-nil, append_assoc}
pub use native.Mathlib.Omega.{arith}
