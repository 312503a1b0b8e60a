-- ===== src/Base.antt =====
-- The names that the other modules share: the libraries', passed on, and those of the children.
mod Tests
mod Lists
mod Text
mod Strings
mod Int
mod Atoi
mod Sort
mod Order
mod Distinct
pub use Tests.*
pub use Lists.*
unfoldable pub use Text.{
  str_eq, str_lt, has_prefix, has_suffix, contains, lower, to_lower, is_space, trim_space, join,
}
pub use Text.{Str, codes, is_empty, str_eq_iff, str_eq_refl}
pub use Text.{str_lt_irrefl, str_lt_trans, str_lt_total}
unfoldable pub use Strings.{
  cut_first, split, before_any, from_any, after_last, upto_last, before_last, cut, trim_prefix,
  trim_suffix, trim_left, trim,
}
pub use Strings.{push_first, drop_first, drop_length}
pub use Strings.Pieces.{
  join-split, split-append, split-last, All-split, All-split_keeps, All-join, split-join,
}
pub use Strings.Ends.{
  snoc-cases, has_suffix-snoc, trim_suffix-snoc, has_suffix-append, has_suffix-lacks, All-reverse,
  All-drop_length, All-trim_suffix, All-trim, All-trim_space, All-before_any, before_any-All,
  from_any-All,
}
unfoldable pub use Int.{int_lt, int_eq}
unfoldable pub use Atoi.{decimal_value, positive_int, negative_int, read_int}
pub use Atoi.{int_limit}
pub use Int.{ℤ, pos, negsuc, int_lt_irrefl, int_lt_trans, int_lt_total}
unfoldable pub use Sort.{insert_by, sort_by}
pub use Sort.{
  IsSortedBy-keep, length-keep-sort_by, Any-sort_by, length-sort_by, sort_by-append_least,
  All-insert_by, sort_by-perm, sort_by-IsSortedBy, IsSortedBy, All-sort_by, Laws,
}
pub use Order.{
  IsOrder, Always, str-IsOrder, nat-IsOrder, int-IsOrder, flip, flip-IsOrder, by_key, Laws-by_key,
  Laws-key,
}
pub use Distinct.{
  str_eq_sym, Lacks, DistinctBy, find_by, find_by-Lacks, Lacks-find_by, DistinctBy-sort_by,
  find_by-sort_by, DistinctBy-keep,
}
pub use Prim.Native.Nat.{ℕ, zero, suc, ◌+◌, ◌-◌, ◌*◌, ◌/◌, ◌%◌, ◌^◌, ◌≤◌, ◌<◌}
pub use mathlib.Core.Path.{◌≡◌, refl, sym, ap, ◌∙◌, subst}
pub use mathlib.Core.Logic.{◌≢◌, ◌↔◌, ◌⊎◌, inl, inr}
pub use mathlib.Core.Bool.{Bool, true, false, not, ◌&&◌, ◌||◌}
pub use mathlib.Core.Option.{Option, none, some}
pub use mathlib.Core.List.{List, [], ◌∷◌, ◌++◌, map, Perm}
pub use native.Mathlib.Omega.{arith}
