-- ===== src/Upstream/Exchange.antt =====
-- upstream.rs: one exchange of a query for a reply, over each of the transports.
pub mod Replies
use ferrumdns.Base.{
  ℕ, zero, suc, ◌+◌, Bool, true, false, not, Option, none, some, List, Text, codes, if◌then◌else◌,
  Result, ok, err, ◌>>=◌, ok_or, io, protocol, upstream, error_text,
}
use ferrumdns.Dns.{Message, Hickory}
use ferrumdns.Dnsutil.{encode, decode, take_response}
use ferrumdns.Net.{SocketAddr}
use ferrumdns.Upstream.Bootstrap.{Lookups, cached_dest, resolve_host}
use ferrumdns.Upstream.Connect.{Upstream, Kind, udp, tcp, tls, doh, PinResolver}
use ferrumdns.Upstream.Endpoint.{url_host_port}
use ferrumdns.Upstream.Framing.{
  Transport, framed_exchange, tcp_exchange_pooled, tls_exchange_pooled,
}

-- A UDP socket that is connected to an address: whether it can be opened, whether it can send, and
-- what the receives give in turn.
pub record Datagrams : Type 0 where
  pub opened : Bool
  pub sent : Bool
  pub receive : ℕ → Option (List ℕ)

-- What an exchange meets outside of the program. A reply to a POST is whether its status is one of
-- success, and its body. `taken` and `now` are the times at which the pools are used.
pub record Network (C S : Type 0) : Type 0 where
  pub datagrams : SocketAddr → Datagrams
  pub connect : SocketAddr → Result C
  pub is_name : Text → Bool
  pub handshake : Text → C → Option S
  pub post : Text → List ℕ → Result (Bool × Option (List ℕ))
  pub lookup_host : Text → Option (List SocketAddr)
  pub lookup_name : Text → Option (List SocketAddr)
  pub id_of : ℕ → ℕ
  pub order : List ℕ
  pub is_late : ℕ → Bool
  pub tcp_stream : Transport C
  pub tls_stream : Transport S
  pub taken : ℕ
  pub now : ℕ

abbrev pub map_err : Text → Result Message → Result Message
map_err addr (ok msg) = ok msg
map_err addr (err e) = err (upstream addr (error_text e))

module _ (H : Hickory) {C S : Type 0} (net : Network C S) where
  -- The second try of a truncated exchange, over TCP.
  abbrev pub tcp_retry : SocketAddr → Message → Result Message
  tcp_retry dest q = do
    s ← net.connect dest
    (full, _) ← framed_exchange H net.tcp_stream q s
    if full.truncated then err (protocol "truncated tcp response") else ok full

  abbrev pub accept_udp : SocketAddr → Message → Message → Result Message
  accept_udp dest q msg = if msg.truncated then tcp_retry dest q else ok msg

  -- The loop over the receives, of which `rounds` are left.
  unfoldable pub receive_matching : SocketAddr → Message → ℕ → ℕ → Result Message
  unfolding decode take_response framed_exchange
  receive_matching dest q zero i = err (protocol "no matching udp response")
  receive_matching dest q (suc rounds) i =
      let next = receive_matching dest q rounds (i + 1) in
      elim ((net.datagrams dest).receive i) [
        | none ↦ err io
        | some bytes ↦ elim (decode H bytes >>= take_response H q) [
          | err e ↦ next
          | ok msg ↦ accept_udp dest q msg
        ]
      ]

  unfoldable pub udp_exchange_addr : SocketAddr → Message → Result Message
  unfolding receive_matching encode
  udp_exchange_addr dest q =
      if not (net.datagrams dest).opened
      then err io
      else encode H q >>= λ bytes.
          if not (net.datagrams dest).sent then err io else receive_matching dest q 4 0

  unfoldable pub doh_exchange : Text → Message → Result Message
  unfolding encode decode take_response
  doh_exchange url q = do
    bytes ← encode H q
    (success, body) ← net.post url bytes
    payload ← if success then ok_or body (protocol "doh body") else err (protocol "doh http")
    msg ← decode H payload
    take_response H q msg

  -- The bootstrap lookups are exchanges over UDP.
  abbrev pub lookups : Lookups
  lookups = record {
    reply_of = udp_exchange_addr;
    id_of = net.id_of;
    order = net.order;
    is_late = net.is_late;
  }

  abbrev pub Exchanged : Type 0
  Exchanged = Upstream C S × Result Message

  -- The arms of the match. An error of the resolving, on which the operator `?` stands, leaves the
  -- function as it is; an error of the exchange itself names the upstream.
  abbrev pub with_udp : Upstream C S → Message → Result SocketAddr → Exchanged
  with_udp u q (err e) = (u, err e)
  with_udp u q (ok dest) = (u, map_err u.spec.addr (udp_exchange_addr dest q))

  abbrev pub with_tcp : Upstream C S → Message → Result SocketAddr → Exchanged
  with_tcp u q (err e) = (u, err e)
  with_tcp u q (ok dest) =
      let (pool, r) =
        tcp_exchange_pooled H net.tcp_stream net.taken net.now (net.connect dest) q u.tcp_pool in
      (record u { tcp_pool = pool }, map_err u.spec.addr r)

  abbrev pub with_tls : Upstream C S → Text → Message → Result SocketAddr → Exchanged
  with_tls u sni q (err e) = (u, err e)
  with_tls u sni q (ok dest) =
      let (pool, r) =
        tls_exchange_pooled H net.tls_stream net.taken net.now (net.connect dest) net.is_name
          net.handshake sni q u.tls_pool in
      (record u { tls_pool = pool }, map_err u.spec.addr r)

  abbrev pub with_doh : Upstream C S → Text → Message → Option PinResolver → Exchanged
  with_doh u url q none = (u, map_err u.spec.addr (doh_exchange url q))
  with_doh u url q (some r) =
      let (r', addrs) = resolve_host H lookups net.lookup_name r (url_host_port url 443).0 in
      (record u { resolver = some r' }, addrs >>= λ _. map_err u.spec.addr (doh_exchange url q))

  -- By the kind of the upstream, whose cell then holds the address that was resolved.
  unfoldable pub exchange_by : Upstream C S → Kind → Message → Exchanged
  unfolding cached_dest udp_exchange_addr tcp_exchange_pooled tls_exchange_pooled doh_exchange
      resolve_host
  exchange_by u (udp target cell) q =
      let (cell', dest) = cached_dest H lookups net.lookup_host cell u.spec target in
      with_udp (record u { kind = udp target cell' }) q dest
  exchange_by u (tcp target cell) q =
      let (cell', dest) = cached_dest H lookups net.lookup_host cell u.spec target in
      with_tcp (record u { kind = tcp target cell' }) q dest
  exchange_by u (tls target sni cell) q =
      let (cell', dest) = cached_dest H lookups net.lookup_host cell u.spec target in
      with_tls (record u { kind = tls target sni cell' }) sni q dest
  exchange_by u (doh url) q = with_doh u url q u.resolver

  unfoldable pub exchange_inner : Upstream C S → Message → Exchanged
  unfolding exchange_by
  exchange_inner u q = exchange_by u u.kind q

  -- `cut` is what an exchange leaves that does not end within its time.
  unfoldable pub exchange : Option (Upstream C S) → Upstream C S → Message → Exchanged
  unfolding exchange_inner
  exchange (some cut) u q = (cut, err (upstream u.spec.addr (codes "timeout")))
  exchange none u q = exchange_inner u q
