-- ===== src/Prelude.antt =====
-- The names that the other modules share: the libraries', passed on, and those of the children.
mod Tests
mod Lists
mod Runes
mod Results
mod Int
pub mod Maps
pub use Tests.*
unfoldable pub use Tests.{all_below}
pub use Lists.*
unfoldable pub use Runes.{
  text_eq, contains, is_space, is_control, valid_string, trim_left, trim_space, itoa, has_prefix,
  has_suffix, has_substring, join, byte_length,
}
pub use Runes.{Text, runes, text_eq_iff, text_eq_refl, contains_iff, IsIn, max_rune}
pub use Results.*
unfoldable pub use Int.{itoa_int}
pub use Int.{ℤ, pos, negsuc}
pub use Prim.Native.Nat.{ℕ, zero, suc, ◌+◌, ◌-◌, ◌*◌, ◌/◌, ◌%◌, ◌^◌, ◌≤◌, ◌<◌}
pub use Prim.Native.String.{String}
pub use mathlib.Core.Path.{◌≡◌, refl, sym, ap, ap₂, ◌∙◌, subst}
pub use mathlib.Core.Logic.{◌≢◌, ◌↔◌, ◌⊎◌, inl, inr}
pub use mathlib.Core.Bool.{Bool, true, false, not, false≢true, ◌&&◌, ◌||◌}
pub use mathlib.Core.Option.{Option, none, some}
pub use mathlib.Core.List.{List, [], ◌∷◌, ◌++◌, map, append-nil, append_assoc}
pub use native.Mathlib.Omega.{arith}
