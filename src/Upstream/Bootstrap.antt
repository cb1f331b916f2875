-- ===== src/Upstream/Bootstrap.antt =====
-- upstream.rs: how the address of an upstream is found, by its own settings, by a bootstrap server,
-- or by the resolver of the system. The queries to the bootstrap server are made at the same time;
-- the order in which they end, and which of them end too late, are arguments.
pub mod Order
use ferrumdns.Base.{
  ℕ, Bool, true, false, not, ◌&&◌, Option, none, some, List, [], ◌∷◌, ◌++◌, Text, codes, teq, ◌==◌,
  if◌then◌else◌, first, is_empty, filter, filter_map, map, ends_with, trim_end_by, Result, ok, err,
  ◌>>=◌, ok_or, io, config, protocol,
}
use ferrumdns.Context.Ask.{build_query}
use ferrumdns.Dns.RecordType
use ferrumdns.Dns.{Ip, v4, v6, Rdata, Record, Message, Hickory}
use ferrumdns.Ecs.Address.{is_ipv4}
use ferrumdns.Net.{SocketAddr, parse_ip, parse_socket}
use ferrumdns.Upstream.Connect.{PinResolver}
use ferrumdns.Upstream.Endpoint.{host_of, port_of, parse_ip_port, bootstrap_socket}
use ferrumdns.Upstream.Spec.{UpstreamSpec}

abbrev pub ip_eq : Ip → Ip → Bool
ip_eq (v4 m) (v4 n) = m == n
ip_eq (v6 m) (v6 n) = m == n
ip_eq _ _ = false

-- `dedup`: an address like the one before it goes.
unfoldable pub dedup : List Ip → List Ip
dedup [] = []
dedup (a ∷ []) = a ∷ []
dedup (a ∷ b ∷ ips) = let rest = dedup (b ∷ ips) in if ip_eq a b then rest else a ∷ rest

-- The stable `sort_by_key(!is_ipv4)`.
unfoldable pub sort_ips : List Ip → List Ip
sort_ips ips = filter is_ipv4 ips ++ filter (λ ip. not (is_ipv4 ip)) ips

abbrev pub address_of : Record → Option Ip
address_of r = elim r.rdata [
  | Rdata.a ip ↦ some (v4 ip)
  | Rdata.aaaa ip ↦ some (v6 ip)
  | Rdata.cname n ↦ none
  | Rdata.raw t bytes ↦ none
]

-- What a bootstrap server gives: its replies, the numbers of the queries, the order in which the
-- lookups of the record types end, and which of them end after their time.
pub record Lookups : Type 0 where
  pub reply_of : SocketAddr → Message → Result Message
  pub id_of : ℕ → ℕ
  pub order : List ℕ
  pub is_late : ℕ → Bool

module _ (H : Hickory) (L : Lookups) where
  open L use {reply_of, id_of, order, is_late}

  unfoldable pub bootstrap_query : SocketAddr → Text → ℕ → Result (List Ip)
  unfolding build_query ends_with
  bootstrap_query boot name qtype = do
    q ←
        build_query H (id_of qtype) (if ends_with (codes ".") name then name else name ++ codes ".")
          qtype
    resp ← reply_of boot q
    ok (filter_map address_of resp.answers)

  -- The addresses that a lookup adds.
  abbrev pub found : SocketAddr → Text → ℕ → List Ip
  found boot name qtype =
      if is_late qtype
      then []
      else elim (bootstrap_query boot name qtype) [ err e ↦ [] | ok ips ↦ ips ]

  abbrev pub gather : SocketAddr → Text → List ℕ → List Ip
  gather boot name [] = []
  gather boot name (qtype ∷ types) = found boot name qtype ++ gather boot name types

  unfoldable pub bootstrap_ips : Text → Text → Result (List Ip)
  unfolding bootstrap_socket bootstrap_query dedup sort_ips trim_end_by
  bootstrap_ips bootstrap hostname = do
    boot ← bootstrap_socket bootstrap
    let ips = gather boot (trim_end_by (λ c. c == b'.') hostname) order
    if is_empty ips then err (config "bootstrap could not resolve") else ok (dedup (sort_ips ips))

  abbrev lookup_first : Option (List SocketAddr) → Result SocketAddr
  lookup_first none = err io
  lookup_first (some addrs) = ok_or (first addrs) (config "no addr")

  -- `lookup_host` is the resolver of the system, on a host with its port.
  unfoldable pub resolve_spec :
      (Text → Option (List SocketAddr)) → UpstreamSpec → Text → Result SocketAddr
  unfolding host_of port_of parse_ip parse_socket parse_ip_port bootstrap_ips
  resolve_spec lookup_host spec target = elim spec.dial_addr [
    | some dial ↦ parse_ip_port dial (port_of target 53)
    | none ↦ elim (parse_ip (host_of target)) [
      | some ip ↦ ok (ip, port_of target 53)
      | none ↦ elim (parse_socket target) [
        | some sa ↦ ok sa
        | none ↦ elim spec.bootstrap [
          | some boot ↦ do
            ips ← bootstrap_ips boot (host_of target)
            ip ← ok_or (first ips) (config "bootstrap returned no addresses")
            ok (ip, port_of target 53)
          | none ↦ lookup_first (lookup_host target)
        ]
      ]
    ]
  ]

  -- `cached_dest`, with the cell that it leaves.
  unfoldable pub cached_dest :
      (Text → Option (List SocketAddr))
      → Option SocketAddr
      → UpstreamSpec
      → Text
      → Option SocketAddr × Result SocketAddr
  unfolding resolve_spec
  cached_dest lookup_host (some d) spec target = (some d, ok d)
  cached_dest lookup_host none spec target = elim (resolve_spec lookup_host spec target) [
    | err e ↦ (none, err e)
    | ok d ↦ (some d, ok d)
  ]

  unfoldable pub find_addrs : Text → List (Text × List SocketAddr) → Option (List SocketAddr)
  unfolding teq
  find_addrs host [] = none
  find_addrs host ((h, addrs) ∷ cache) = if teq h host then some addrs else find_addrs host cache

  -- The addresses that are not in the cache; here `lookup_host` gets a host alone.
  abbrev resolve_new :
      (Text → Option (List SocketAddr)) → PinResolver → Text → Result (List SocketAddr)
  resolve_new lookup_host r host = elim r.bootstrap [
    | some boot ↦ do ips ← bootstrap_ips boot host; ok (map (λ ip. (ip, 0)) ips)
    | none ↦ ok_or (lookup_host host) io
  ]

  unfoldable pub resolve_host :
      (Text → Option (List SocketAddr))
      → PinResolver
      → Text
      → PinResolver × Result (List SocketAddr)
  unfolding bootstrap_ips find_addrs parse_ip
  resolve_host lookup_host r host =
      if not (is_empty r.pins) then (r, ok r.pins) else elim (parse_ip host) [
        | some ip ↦ (r, ok ((ip, 0) ∷ []))
        | none ↦ elim (find_addrs host r.cache) [
          | some addrs ↦ (r, ok addrs)
          | none ↦ elim (resolve_new lookup_host r host) [
            | err e ↦ (r, err e)
            | ok addrs ↦ (record r { cache = (host, addrs) ∷ r.cache }, ok addrs)
          ]
        ]
      ]
