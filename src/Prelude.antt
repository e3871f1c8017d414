-- ===== src/Prelude.antt =====
-- The names that the other modules share: those of the libraries, passed on, Boolean tests on
-- numbers, list helpers over the native numbers, Go's byte strings and Go's signed integers.
mod Tests
mod Lists
pub mod Int
pub mod Strings
pub mod Runes
pub use Tests.*
pub use Lists.*
pub use Strings.{Text, text_eq_iff, text_eq_refl, is_empty, is_empty_iff, is_set, length-truncate}
unfoldable pub use Strings.{
  text, text_eq, text_leb, to_lower, trim_space, truncate, equal_fold, is_space, has_prefix,
  contains, replace_all, join,
}
unfoldable pub use Runes.{runes}
pub use Runes.{is_ascii, runes-ascii}
pub use Int.{ℤ, pos, negsuc, leb_ℤ, max_int64, pos_part, neg_part, eq_ℤ_sound, eq_ℤ_refl}
unfoldable pub use Int.{sub_time, incr_int64, eq_ℤ}
pub use Prim.Native.Nat.{ℕ, zero, suc, ◌+◌, ◌-◌, ◌*◌, ◌/◌, ◌%◌, ◌^◌, ◌≤◌, ◌<◌, min, max}
pub use Prim.Native.String.{String}
pub use mathlib.Core.Path.{◌≡◌, refl, sym, ap, subst, ◌∙◌}
pub use mathlib.Core.Logic.{◌≢◌, ◌↔◌, ◌⊎◌, inl, inr}
pub use mathlib.Core.Bool.{Bool, true, false, not, ◌&&◌, ◌||◌}
pub use mathlib.Core.Option.{Option, none, some}
pub use mathlib.Core.List.{List, [], ◌∷◌, ◌++◌, map, reverse}
pub use native.Mathlib.Omega.{arith}
