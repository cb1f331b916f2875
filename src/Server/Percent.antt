-- ===== src/Server/Percent.antt =====
-- server.rs: the `dns` parameter of a DoH request. What the crate base64 decodes, without and with
-- padding, is an argument.
pub mod Encoded
use ferrumdns.Base.{
  ℕ, ◌+◌, ◌-◌, ◌*◌, Bool, true, false, not, ◌&&◌, Option, none, some, List, [], ◌∷◌, Text, codes,
  teq, utf8, split_on, split_once, leb, ◌==◌, if◌then◌else◌,
}

-- A digit of `from_str_radix(…, 16)`.
unfoldable pub hex_value : ℕ → Option ℕ
hex_value c =
    if leb b'0' c && leb c b'9'
    then some (c - b'0')
    else if leb b'a' c && leb c b'f'
    then some (10 + (c - b'a'))
    else if leb b'A' c && leb c b'F'
    then some (10 + (c - b'A'))
    else none

abbrev join_digits : Option ℕ → Option ℕ → Option ℕ
join_digits none low = none
join_digits (some h) none = none
join_digits (some h) (some l) = some (16 * h + l)

-- `u8::from_str_radix` of two bytes, which takes a plus sign before a single digit.
unfoldable pub hex_pair : ℕ → ℕ → Option ℕ
unfolding hex_value
hex_pair a b = if a == b'+' then hex_value b else join_digits (hex_value a) (hex_value b)

-- The loop, with each byte as a character.
unfoldable pub percent_decode : List ℕ → List ℕ
unfolding hex_pair
percent_decode [] = []
percent_decode (c ∷ []) = c ∷ []
percent_decode (c ∷ a ∷ []) = c ∷ a ∷ []
percent_decode (c ∷ a ∷ b ∷ s) =
    let plain = c ∷ percent_decode (a ∷ b ∷ s) in
    let rest = percent_decode s in
    if c == b'%' then elim (hex_pair a b) [ none ↦ plain | some v ↦ v ∷ rest ] else plain

module _ (decode padded : List ℕ → Option (List ℕ)) where
  abbrev decode_value : List ℕ → Option (List ℕ)
  decode_value v = elim (decode v) [ some bytes ↦ some bytes | none ↦ padded v ]

  -- The loop over the parts of the query.
  unfoldable pub find_param : List Text → Option (List ℕ)
  unfolding percent_decode split_once teq utf8
  find_param [] = none
  find_param (part ∷ parts) =
      let later = find_param parts in
      elim (split_once b'=' part) [
        | none ↦ later
        | some (k, v) ↦
            if not (teq k (codes "dns"))
            then later
            else elim (decode_value (percent_decode (utf8 v))) [
              | some bytes ↦ some bytes
              | none ↦ later
            ]
      ]

  unfoldable pub dns_query_param : Text → Option (List ℕ)
  unfolding find_param split_on
  dns_query_param query = find_param (split_on b'&' query)
