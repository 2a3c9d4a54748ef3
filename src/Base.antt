-- ===== src/Base.antt =====
-- The names that the other modules share: the libraries', passed on, and those of the children.
mod Tests
pub mod Int
pub mod Results
pub mod Tables
pub mod Scopes
pub mod Keys
pub mod Sorting
pub use Tests.*
pub use Prim.Native.Nat.{ℕ, zero, suc, ◌+◌, ◌-◌, ◌*◌, ◌/◌, ◌%◌, ◌^◌, ◌≤◌, ◌<◌, max}
pub use Prim.Native.String.{String}
pub use mathlib.Core.Path.{subst, ◌≡◌, refl, sym, ap, ◌∙◌}
pub use mathlib.Core.Logic.{◌≢◌, ◌↔◌, ◌⊎◌, inl, inr}
pub use mathlib.Core.Bool.{Bool, true, false, not, ◌&&◌, ◌||◌}
pub use mathlib.Core.Option.{Option, none, some}
pub use mathlib.Core.List.{List, [], ◌∷◌, ◌++◌, map}
pub use native.Mathlib.Omega.{arith}
pub use Int.{
  ℤ, pos, negsuc, pos_part, neg_part, ◌≤ℤ◌, ◌<ℤ◌, ltb_ℤ, leb_ℤ, +ℤ_parts, -ℤ_parts, eq_of_parts,
  int_laws, i64, i128, Fits, wrap-Fits, sub-Fits, pos-*, pos-+, pos-sub, wrap-pos,
}
unfoldable pub use Int.{◌+ℤ◌, ◌-ℤ◌, ◌*ℤ◌, div_pos, wrap}
pub use Results.{Result, ok, err, ◌>>=◌, ◌>>◌, check, or_fail, Result-cases}
pub use Tables.{
  Dict, lookup, insert, erase, lookup_or, lookup-insert, lookup-erase, sum_by, sum_by-insert,
  AllRows, AllRows-lookup_or, AllRows-insert, AllRows-erase, AllRows-map, sum_by_nonneg, le-sum_by,
}
pub use Scopes.{
  lookup_in, lookup_in-insert_in, lookup_in-erase_in, lookup_in-insert_in_self,
  lookup_in-erase_in_self,
}
unfoldable pub use Scopes.{insert_in, erase_in}
pub use Keys.{
  Unique, insert-Unique, erase-Unique, sum_by-erase, Unique-All, count_by, count_by-insert,
  count_by-erase,
}
pub use Sorting.{
  size, All, All-map, All-zip, Sorted, sort_by-Sorted, All-sort_by, sort_by-All, count_of,
  count_of-sort_by, size-sort_by,
}
unfoldable pub use Sorting.{sort_by, insert_by}
