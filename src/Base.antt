-- ===== src/Base.antt =====
-- The names that the other modules share: the libraries', passed on, and those of the children.
mod Tests
mod Lists
mod Strings
mod Fallible
mod Cuts
mod Outcomes
mod Decimal
pub use Tests.*
pub use Lists.*
unfoldable pub use Strings.{
  Text, teq, codes, is_white, trim_start_by, trim_end_by, trim, to_ascii_lowercase,
  to_ascii_uppercase, lower_char, upper_char, strip_prefix, starts_with, split_on, split_from,
  ends_with, split_once, split_whitespace, contains_text, words_from, parse_digits, parse_unsigned,
  digit_value, decimal, decimal_from, true_or_false, hex_items, utf8,
}
pub use Strings.{teq_iff, teq_refl}
pub use Fallible.*
pub use Cuts.{Lacks, split_on-Lacks, split_on-found, filter-Lacks}
pub use Outcomes.{Gives, Gives-bind, Gives-ok, Gives-of_ok}
pub use Decimal.{IsDigit, decimal-digits, parse_unsigned-decimal}
pub use Prim.Native.Nat.{ℕ, zero, suc, ◌+◌, ◌-◌, ◌*◌, ◌/◌, ◌%◌, ◌^◌, ◌≤◌, ◌<◌, min, max}
pub use Prim.Native.String.{String}
pub use mathlib.Core.Path.{◌≡◌, refl, sym, ap, ◌∙◌, subst, subst₂}
pub use mathlib.Core.Logic.{◌≢◌, ◌↔◌, ◌⊎◌, inl, inr}
pub use mathlib.Core.Bool.{Bool, true, false, not, ◌&&◌, ◌||◌}
pub use mathlib.Core.Option.{Option, none, some}
pub use mathlib.Core.List.{List, [], ◌∷◌, ◌++◌, map, reverse}
pub use native.Mathlib.Omega.{arith}
