-- ===== src/Ecs/Address.antt =====
-- plugin/ecs.rs: public addresses and masks. The tests on addresses are those of Rust's standard
-- library, on the number that an address is; networks are the crate ipnet's.
use ferrumdns.Base.{
  ℕ, ◌+◌, ◌*◌, ◌-◌, ◌/◌, ◌%◌, ◌^◌, min, Bool, true, false, not, ◌&&◌, ◌||◌, Option, none, some,
  Text, ◌==◌, leb, if◌then◌else◌, Result, ok, err, config,
}
use ferrumdns.Dns.{Ip, v4, v6}
use ferrumdns.Yaml.{Value, get, as_u64}

-- What the crates compute: the text of an address, of a network, whether a network contains an
-- address, and `IpNet::new(…).network()`.
pub record Networks : Type 0 where
  pub parse_ip : Text → Option Ip
  pub parse_net : Text → Option (Ip × ℕ)
  pub net_contains : Ip × ℕ → Ip → Bool
  pub network : Ip → ℕ → Option Ip

abbrev pub is_ipv4 : Ip → Bool
is_ipv4 (v4 n) = true
is_ipv4 (v6 n) = false

-- The octet at a place from the left.
abbrev pub octet : ℕ → ℕ → ℕ
octet i n = n / 2 ^ (24 - 8 * i) % 256

abbrev pub is_private : ℕ → Bool
is_private n =
    octet 0 n == 10
    || (octet 0 n == 172 && leb 16 (octet 1 n) && leb (octet 1 n) 31)
    || (octet 0 n == 192 && octet 1 n == 168)

abbrev pub is_documentation : ℕ → Bool
is_documentation n =
    n / 256 == 192 * 65536 + 2
    || n / 256 == 198 * 65536 + 51 * 256 + 100
    || n / 256 == 203 * 65536 + 113

-- The branch for IPv4; the last octet tests are CGNAT and what is reserved.
unfoldable pub is_public_v4 : ℕ → Bool
is_public_v4 n =
    if is_private n
      || octet 0 n == 127
      || (octet 0 n == 169 && octet 1 n == 254)
      || n == 0
      || n == 2 ^ 32 - 1
      || is_documentation n
      || (leb 224 (octet 0 n) && leb (octet 0 n) 239)
    then false
    else if octet 0 n == 100 && octet 1 n / 64 == 1
    then false
    else if octet 0 n == 0 || leb 224 (octet 0 n)
    then false
    else true

-- `to_ipv4_mapped`: `::ffff:a.b.c.d`.
abbrev pub mapped : ℕ → Option ℕ
mapped n = if n / 2 ^ 32 == 0xffff then some (n % 2 ^ 32) else none

-- The first segment by its leading 7 and 10 bits.
unfoldable pub is_public_ip : Ip → Bool
unfolding is_public_v4
is_public_ip (v4 n) = is_public_v4 n
is_public_ip (v6 n) = elim (mapped n) [
  | some m ↦ is_public_v4 m
  | none ↦
      not (n == 1)
      && not (n == 0)
      && not (n / 2 ^ 120 == 0xff)
      && not (n / 2 ^ 121 == 0xfc / 2)
      && not (n / 2 ^ 118 == 0xfe80 / 64)
]

unfoldable pub masked : Networks → Ip → ℕ → Ip × ℕ
masked N ip prefix =
    let p = min prefix (if is_ipv4 ip then 32 else 128) in
    elim (N.network ip p) [ some net ↦ (net, p) | none ↦ (ip, p) ]

unfoldable pub parse_mask : Value → Text → ℕ → ℕ → Result ℕ
unfolding get
parse_mask args key default maximum = elim (get key args) [
  | none ↦ ok default
  | some value ↦ elim (as_u64 value) [
    | some n ↦ if leb n maximum then ok n else err (config "ecs mask must be an integer in range")
    | none ↦ err (config "ecs mask must be an integer in range")
  ]
]
