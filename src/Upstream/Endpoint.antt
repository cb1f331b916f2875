-- ===== src/Upstream/Endpoint.antt =====
-- upstream.rs: hosts and ports in the addresses of upstreams.
pub mod Parts
use ferrumdns.Base.{
  ℕ, zero, suc, ◌+◌, Bool, true, false, Option, none, some, List, [], ◌∷◌, ◌++◌, Text, codes, ltb,
  ◌==◌, if◌then◌else◌, length, filter, get_elem?, trim, strip_prefix, starts_with, contains_text,
  split_on, to_ascii_lowercase, parse_unsigned, decimal, reverse, Result, ok, err, config,
}
use ferrumdns.Actions.{head_or}
use ferrumdns.Dns.{Ip}
use ferrumdns.Dnsutil.Codes.{max_u16}
use ferrumdns.Net.{SocketAddr, is_ipv6, parse_ip, parse_socket}
use ferrumdns.Yaml.{and_then, or_else, unwrap_or}

-- `find`, and the parts around what was found.
unfoldable pub split_text : Text → Text → Option (Text × Text)
unfolding strip_prefix
split_text p [] = elim (strip_prefix p []) [ none ↦ none | some rest ↦ some ([], rest) ]
split_text p (c ∷ s) =
    let later = split_text p s in
    elim (strip_prefix p (c ∷ s)) [
      | some rest ↦ some ([], rest)
      | none ↦ elim later [ none ↦ none | some (a, b) ↦ some (c ∷ a, b) ]
    ]

-- `rsplit_once(c)`.
unfoldable pub rsplit_once : ℕ → Text → Option (Text × Text)
rsplit_once sep [] = none
rsplit_once sep (c ∷ s) = elim (rsplit_once sep s) [
  | some (a, b) ↦ some (c ∷ a, b)
  | none ↦ if c == sep then some ([], s) else none
]

unfoldable pub strip_suffix : Text → Text → Option Text
unfolding strip_prefix
strip_suffix p s = elim (strip_prefix (reverse p) (reverse s)) [
  | none ↦ none
  | some rest ↦ some (reverse rest)
]

unfoldable pub split_scheme : Text → Text × Text
unfolding split_text
split_scheme addr = unwrap_or (split_text (codes "://") addr) ([], addr)

-- What stands before the first slash.
abbrev pub authority_of : Text → Text
authority_of rest = head_or [] (split_on b'/' rest)

abbrev pub parse_port : Text → Option ℕ
parse_port p = parse_unsigned max_u16 p

abbrev is_some {ℓ} : {A : Type ℓ} → Option A → Bool
is_some none = false
is_some (some a) = true

-- The host that an authority names.
unfoldable pub host_in : Text → Text
unfolding strip_prefix rsplit_once parse_unsigned
host_in rest = elim (strip_prefix (codes "[") rest) [
  | some inner ↦ head_or [] (split_on b']' inner)
  | none ↦ if is_ipv6 rest then rest else elim (rsplit_once b':' rest) [
    | none ↦ rest
    | some (h, p) ↦ if is_some (parse_port p) then h else rest
  ]
]

unfoldable pub host_of : Text → Text
unfolding host_in
host_of rest = host_in (authority_of rest)

-- The port in what follows a closing bracket.
abbrev pub port_after : Option Text → Option ℕ
port_after s = and_then (and_then s (strip_prefix (codes ":"))) parse_port

unfoldable pub port_in : Text → ℕ → ℕ
unfolding strip_prefix rsplit_once parse_unsigned
port_in rest default = elim (strip_prefix (codes "[") rest) [
  | some inner ↦ unwrap_or (port_after (get_elem? (split_on b']' inner) 1)) default
  | none ↦
      if is_ipv6 rest
      then default
      else unwrap_or (and_then (rsplit_once b':' rest) (λ parts. parse_port parts.1)) default
]

unfoldable pub port_of : Text → ℕ → ℕ
unfolding port_in
port_of hostport default = port_in (authority_of hostport) default

abbrev pub colon_port : ℕ → Text
colon_port port = codes ":" ++ decimal port

unfoldable pub normalize_in : Text → ℕ → Text
unfolding starts_with contains_text
normalize_in rest default_port =
    if starts_with (codes "[") rest
    then if contains_text (codes "]:") rest then rest else rest ++ colon_port default_port
    else if is_ipv6 rest
    then codes "[" ++ (rest ++ (codes "]" ++ colon_port default_port))
    else if length (filter (λ c. c == b':') rest) == 1
    then rest
    else rest ++ colon_port default_port

unfoldable pub normalize_hostport : Text → ℕ → Text
unfolding normalize_in
normalize_hostport rest default_port = normalize_in (authority_of rest) default_port

-- `split("://").nth(1).unwrap_or(url)`.
abbrev after_scheme : Text → Text
after_scheme url = elim (split_text (codes "://") url) [
  | none ↦ url
  | some (_, rest) ↦ elim (split_text (codes "://") rest) [ none ↦ rest | some (part, _) ↦ part ]
]

unfoldable pub url_host_port : Text → ℕ → Text × ℕ
unfolding split_text host_of port_of to_ascii_lowercase
url_host_port url default_port =
    let authority = authority_of (after_scheme url) in
    (to_ascii_lowercase (host_of authority), port_of authority default_port)

-- The address in brackets, without a port.
abbrev in_brackets : Text → Option Ip
in_brackets s = and_then (and_then (strip_prefix (codes "[") s) (strip_suffix (codes "]"))) parse_ip

unfoldable pub parse_ip_port : Text → ℕ → Result SocketAddr
unfolding trim parse_socket parse_ip strip_prefix strip_suffix
parse_ip_port s' default_port =
    let s = trim s' in
    elim (parse_socket s) [
      | some addr ↦ ok addr
      | none ↦ elim (or_else (parse_ip s) (in_brackets s)) [
        | some ip ↦ ok (ip, default_port)
        | none ↦ err (config "dial_addr/bootstrap must be an IP address")
      ]
    ]

unfoldable pub bootstrap_socket : Text → Result SocketAddr
unfolding trim strip_prefix parse_ip_port
bootstrap_socket s' =
    let s = trim s' in
    parse_ip_port
      (unwrap_or (or_else (strip_prefix (codes "udp://") s) (strip_prefix (codes "tcp://") s)) s) 53
