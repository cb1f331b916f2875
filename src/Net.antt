-- ===== src/Net.antt =====
-- Addresses in text, as Rust's standard library (`std::net`) reads them.
use ferrumdns.Base.{
  ◌≡◌, refl, ℕ, zero, suc, ◌+◌, ◌-◌, ◌*◌, ◌/◌, ◌%◌, ◌^◌, Bool, true, false, not, ◌&&◌, ◌||◌, Option,
  none, some, List, [], ◌∷◌, ◌++◌, Text, codes, ltb, leb, ◌==◌, if◌then◌else◌, length, starts_with,
  strip_prefix,
}
use ferrumdns.Dns.{Ip, v4, v6}

-- An address and a port.
abbrev pub SocketAddr : Type 0
SocketAddr = Ip × ℕ

-- What is read from the front of a text, and the rest of the text.
abbrev Reader : Type 0 → Type 0
Reader A = Text → Option (A × Text)

infixl 5 ◌>>=◌
abbrev ◌>>=◌ : {X Y : Type 0} → Option X → (X → Option Y) → Option Y
none >>= next = none
some x >>= next = next x

abbrev digit_in : ℕ → ℕ → Option ℕ
digit_in radix c =
    if leb b'0' c && leb c b'9'
    then some (c - b'0')
    else if radix == 16 && leb b'a' c && leb c b'f'
    then some (10 + (c - b'a'))
    else if radix == 16 && leb b'A' c && leb c b'F'
    then some (10 + (c - b'A'))
    else none

-- The digits in front of a text: their value, their number, and the rest.
unfoldable pub digits_from : ℕ → ℕ → ℕ → Text → ℕ × ℕ × Text
digits_from radix value n [] = (value, n, [])
digits_from radix value n (c ∷ s) = elim (digit_in radix c) [
  | none ↦ (value, n, c ∷ s)
  | some d ↦ digits_from radix (value * radix + d) (n + 1) s
]

-- A number of at most `most` digits and at most `top`.
unfoldable pub read_number : ℕ → ℕ → Bool → ℕ → Reader ℕ
unfolding digits_from starts_with
read_number radix most zero_prefix top s =
    let (value, n, rest) = digits_from radix 0 0 s in
    if n == 0
      || ltb most n
      || ltb top value
      || (not zero_prefix && ltb 1 n && starts_with (codes "0") s)
    then none
    else some (value, rest)

abbrev read_octet : Reader ℕ
read_octet s = read_number 10 3 false 255 s

unfoldable pub read_v4 : Reader ℕ
unfolding read_number strip_prefix
read_v4 s = do
  (a, s1) ← read_octet s
  s2 ← strip_prefix (codes ".") s1
  (b, s3) ← read_octet s2
  s4 ← strip_prefix (codes ".") s3
  (c, s5) ← read_octet s4
  s6 ← strip_prefix (codes ".") s5
  (d, s7) ← read_octet s6
  some (a * 2 ^ 24 + b * 2 ^ 16 + c * 2 ^ 8 + d, s7)

-- A group that is not the first one stands behind a colon.
abbrev behind_colon : {A : Type 0} → Bool → Reader A → Reader A
behind_colon true read s = read s
behind_colon false read s = strip_prefix (codes ":") s >>= read

-- At most `left` groups, the last two of which may be written as an IPv4 address; whether they are.
unfoldable pub read_groups : ℕ → Bool → Text → List ℕ × Bool × Text
unfolding read_number read_v4 strip_prefix
read_groups zero first s = ([], false, s)
read_groups (suc left) first s =
    let later = λ (rest : Text). read_groups left false rest in
    elim (if left == 0 then none else behind_colon first read_v4 s) [
      | some (n, rest) ↦ (n / 2 ^ 16 ∷ n % 2 ^ 16 ∷ [], true, rest)
      | none ↦ elim (behind_colon first (read_number 16 4 true 65535) s) [
        | none ↦ ([], false, s)
        | some (g, rest) ↦ let (groups, quad, rest') = later rest in (g ∷ groups, quad, rest')
      ]
    ]

abbrev from_groups : ℕ → List ℕ → ℕ
from_groups value [] = value
from_groups value (g ∷ groups) = from_groups (value * 2 ^ 16 + g) groups

abbrev zeros : ℕ → List ℕ
zeros zero = []
zeros (suc n) = 0 ∷ zeros n

unfoldable pub read_v6 : Reader ℕ
unfolding read_groups strip_prefix
read_v6 s =
    let (head, quad, s1) = read_groups 8 true s in
    if length head == 8 then some (from_groups 0 head, s1) else if quad then none else (do
      s2 ← strip_prefix (codes "::") s1
      let (tail, _, s3) = read_groups (7 - length head) true s2
      some (from_groups 0 (head ++ (zeros (8 - length head - length tail) ++ tail)), s3))

-- The whole text.
abbrev whole : {A : Type 0} → Option (A × Text) → Option A
whole none = none
whole (some (a, [])) = some a
whole (some (a, c ∷ s)) = none

-- `parse::<Ipv6Addr>().is_ok()`.
unfoldable pub is_ipv6 : Text → Bool
unfolding read_v6
is_ipv6 s = elim (whole (read_v6 s)) [ none ↦ false | some _ ↦ true ]

-- `parse::<IpAddr>()`.
unfoldable pub parse_ip : Text → Option Ip
unfolding read_v4 read_v6
parse_ip s = elim (read_v4 s) [
  | some (n, rest) ↦ whole (some (v4 n, rest))
  | none ↦ whole (do (n, rest) ← read_v6 s; some (v6 n, rest))
]

unfoldable pub read_port : Reader ℕ
unfolding read_number strip_prefix
read_port s = do s1 ← strip_prefix (codes ":") s; read_number 10 (length s1) true 65535 s1

abbrev read_socket_v4 : Reader SocketAddr
read_socket_v4 s = do (n, s1) ← read_v4 s; (port, s2) ← read_port s1; some ((v4 n, port), s2)

-- A scope, `%` and a number, may stand before the bracket.
abbrev skip_scope : Text → Text
skip_scope s = elim (strip_prefix (codes "%") s) [
  | none ↦ s
  | some s1 ↦ elim (read_number 10 (length s1) true (2 ^ 32 - 1) s1) [
    | none ↦ s
    | some (_, s2) ↦ s2
  ]
]

abbrev read_socket_v6 : Reader SocketAddr
read_socket_v6 s = do
  s1 ← strip_prefix (codes "[") s
  (n, s2) ← read_v6 s1
  s3 ← strip_prefix (codes "]") (skip_scope s2)
  (port, s4) ← read_port s3
  some ((v6 n, port), s4)

-- `parse::<SocketAddr>()`.
unfoldable pub parse_socket : Text → Option SocketAddr
unfolding read_v4 read_v6 read_port strip_prefix
parse_socket s = elim (read_socket_v4 s) [
  | some (a, rest) ↦ whole (some (a, rest))
  | none ↦ whole (read_socket_v6 s)
]

-- Tests on texts in each of the forms.
quad_text : parse_socket (codes "1.2.3.4:53") ≡ some (v4 16909060, 53)
unfolding parse_socket digits_from
quad_text = refl

bracket_text : parse_socket (codes "[::1]:853") ≡ some (v6 1, 853)
unfolding parse_socket digits_from
bracket_text = refl

mixed_text : parse_ip (codes "::ffff:1.2.3.4") ≡ some (v6 (0xffff * 2 ^ 32 + 16909060))
unfolding parse_ip
mixed_text = refl

leading_zero_text : parse_ip (codes "01.2.3.4") ≡ none
unfolding parse_ip
leading_zero_text = refl
