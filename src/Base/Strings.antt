-- ===== src/Base/Strings.antt =====
-- Text as the list of its characters' code points, with the parts of Rust's `str` that the
-- program uses.
use Prim.Native.Char.{code}
use Prim.Native.Nat.{ℕ, zero, suc, ◌+◌, ◌-◌, ◌*◌, ◌/◌, ◌%◌}
use Prim.Native.String.{String}
use mathlib.Core.Path.{◌≡◌, refl}
use mathlib.Core.Logic.{◌↔◌}
use mathlib.Core.Bool.{Bool, true, false, ◌&&◌, ◌||◌}
use mathlib.Core.Option.{Option, none, some}
use mathlib.Core.List.{List, [], ◌∷◌, ◌++◌, map, reverse}
use native.Mathlib.Omega.{arith}
use ferrumdns.Base.Tests.{ltb, leb, ◌==◌, if◌then◌else◌}

abbrev pub Text : Type 0
Text = List ℕ

abbrev pub codes : String → Text
codes String.[] = []
codes (String.◌∷◌ c s) = code c ∷ codes s

unfoldable pub teq : Text → Text → Bool
teq [] [] = true
teq [] (_ ∷ _) = false
teq (_ ∷ _) [] = false
teq (a ∷ s) (b ∷ t) = a == b && teq s t

pub teq_iff : (s t : Text) → (teq s t ≡ true) ↔ (s ≡ t)
unfolding teq
teq_iff [] [] = ground arith
teq_iff [] (b ∷ t) = ground arith
teq_iff (a ∷ s) [] = ground arith
teq_iff (a ∷ s) (b ∷ t) = ground (arith, teq_iff s t)

pub teq_refl : (s : Text) → teq s s ≡ true
teq_refl s = (teq_iff s s).1 refl

-- `char::is_whitespace`: the Unicode property White_Space.
unfoldable pub is_white : ℕ → Bool
is_white c =
    (leb 9 c && leb c 13)
    || c == 32
    || c == 0x85
    || c == 0xa0
    || c == 0x1680
    || (leb 0x2000 c && leb c 0x200a)
    || c == 0x2028
    || c == 0x2029
    || c == 0x202f
    || c == 0x205f
    || c == 0x3000

unfoldable pub trim_start_by : (ℕ → Bool) → Text → Text
trim_start_by p [] = []
trim_start_by p (c ∷ s) = let rest = trim_start_by p s in if p c then rest else c ∷ s

unfoldable pub trim_end_by : (ℕ → Bool) → Text → Text
unfolding trim_start_by
trim_end_by p s = reverse (trim_start_by p (reverse s))

unfoldable pub trim : Text → Text
unfolding is_white trim_start_by trim_end_by
trim s = trim_end_by is_white (trim_start_by is_white s)

unfoldable pub lower_char : ℕ → ℕ
lower_char c = if leb b'A' c && leb c b'Z' then c + 32 else c

unfoldable pub upper_char : ℕ → ℕ
upper_char c = if leb b'a' c && leb c b'z' then c - 32 else c

unfoldable pub to_ascii_lowercase : Text → Text
unfolding lower_char
to_ascii_lowercase s = map lower_char s

unfoldable pub to_ascii_uppercase : Text → Text
unfolding upper_char
to_ascii_uppercase s = map upper_char s

unfoldable pub strip_prefix : Text → Text → Option Text
strip_prefix [] s = some s
strip_prefix (_ ∷ _) [] = none
strip_prefix (p ∷ ps) (c ∷ s) = if p == c then strip_prefix ps s else none

unfoldable pub starts_with : Text → Text → Bool
unfolding strip_prefix
starts_with p s = elim (strip_prefix p s) [ none ↦ false | some _ ↦ true ]

unfoldable pub ends_with : Text → Text → Bool
unfolding starts_with
ends_with p s = starts_with (reverse p) (reverse s)

-- `str::contains` of a text.
unfoldable pub contains_text : Text → Text → Bool
unfolding starts_with
contains_text p [] = starts_with p []
contains_text p (c ∷ s) = starts_with p (c ∷ s) || contains_text p s

-- `split(c)`: never empty; the first part is built in `cur`.
unfoldable pub split_from : ℕ → Text → Text → List Text
split_from sep cur [] = cur ∷ []
split_from sep cur (c ∷ s) =
    let cut = cur ∷ split_from sep [] s in
    let on = split_from sep (cur ++ c ∷ []) s in if c == sep then cut else on

unfoldable pub split_on : ℕ → Text → List Text
unfolding split_from
split_on sep s = split_from sep [] s

-- `split_once(c)`.
unfoldable pub split_once : ℕ → Text → Option (Text × Text)
split_once sep [] = none
split_once sep (c ∷ s) =
    let rest = split_once sep s in
    if c == sep then some ([], s) else elim rest [ none ↦ none | some (a, b) ↦ some (c ∷ a, b) ]

-- `split_whitespace`: the non-empty parts between white space.
unfoldable pub words_from : Text → Text → List Text
unfolding is_white
words_from [] [] = []
words_from (c ∷ cur) [] = (c ∷ cur) ∷ []
words_from [] (c ∷ s) = words_from (if is_white c then [] else c ∷ []) s
words_from (d ∷ cur) (c ∷ s) =
    let cut = (d ∷ cur) ∷ words_from [] s in
    let on = words_from ((d ∷ cur) ++ c ∷ []) s in if is_white c then cut else on

unfoldable pub split_whitespace : Text → List Text
unfolding words_from
split_whitespace s = words_from [] s

unfoldable pub digit_value : ℕ → Option ℕ
digit_value c = if leb b'0' c && leb c b'9' then some (c - b'0') else none

-- `parse` of an unsigned integer with `top` its largest value: an optional `+`, then digits.
unfoldable pub parse_digits : ℕ → ℕ → Text → Option ℕ
unfolding digit_value
parse_digits top acc [] = some acc
parse_digits top acc (c ∷ s) = elim (digit_value c) [
  | none ↦ none
  | some d ↦ if leb (acc * 10 + d) top then parse_digits top (acc * 10 + d) s else none
]

abbrev some_digits : ℕ → Text → Option ℕ
some_digits top [] = none
some_digits top (c ∷ s) = parse_digits top 0 (c ∷ s)

unfoldable pub parse_unsigned : ℕ → Text → Option ℕ
unfolding parse_digits
parse_unsigned top [] = none
parse_unsigned top (c ∷ s) = if c == b'+' then some_digits top s else parse_digits top 0 (c ∷ s)

-- The decimal digits of a number, as `{}` prints them; the fuel is more than there are digits.
unfoldable pub decimal_from : ℕ → ℕ → Text → Text
decimal_from zero n acc = acc
decimal_from (suc fuel) n acc =
    let here = (b'0' + n % 10) ∷ acc in
    let more = decimal_from fuel (n / 10) here in if ltb n 10 then here else more

unfoldable pub decimal : ℕ → Text
unfolding decimal_from
decimal n = decimal_from (suc n) n []

abbrev pub true_or_false : Bool → Text
true_or_false true = codes "true"
true_or_false false = codes "false"

abbrev hex_digit : ℕ → ℕ
hex_digit d = if ltb d 10 then b'0' + d else b'a' + (d - 10)

-- `{:02x?}` of a byte.
abbrev hex_byte : ℕ → Text
hex_byte b = hex_digit (b / 16) ∷ hex_digit (b % 16) ∷ []

unfoldable pub hex_items : List ℕ → Text
hex_items [] = []
hex_items (b ∷ []) = hex_byte b
hex_items (b ∷ c ∷ bs) = hex_byte b ++ (codes ", " ++ hex_items (c ∷ bs))

-- `as_bytes`: UTF-8.
abbrev utf8_char : ℕ → List ℕ
utf8_char c =
    if ltb c 0x80
    then c ∷ []
    else if ltb c 0x800
    then (0xc0 + c / 64) ∷ (0x80 + c % 64) ∷ []
    else if ltb c 0x10000
    then (0xe0 + c / 4096) ∷ (0x80 + c / 64 % 64) ∷ (0x80 + c % 64) ∷ []
    else (0xf0 + c / 262144) ∷ (0x80 + c / 4096 % 64) ∷ (0x80 + c / 64 % 64) ∷ (0x80 + c % 64) ∷ []

unfoldable pub utf8 : Text → List ℕ
utf8 [] = []
utf8 (c ∷ s) = utf8_char c ++ utf8 s
