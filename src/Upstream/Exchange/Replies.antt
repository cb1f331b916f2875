-- ===== src/Upstream/Exchange/Replies.antt =====
-- upstream.rs: which replies an exchange gives, and which errors.
use ferrumdns.Base.{
  Error, List, ◌⊎◌, ℕ, zero, suc, ◌+◌, ◌≡◌, refl, sym, inl, inr, subst, none, some, Option, Text,
  codes, Result, ok, err, Bool-cases, Gives, Gives-bind, Gives-ok, Gives-of_ok, ◌>>=◌, upstream,
  result-cases, if◌then◌else◌, ok_or, protocol, error_text, Option-cases,
}
use ferrumdns.Dns.{Message, Hickory}
use ferrumdns.Dnsutil.{take_response, decode, encode}
use ferrumdns.Dnsutil.Validation.{IsReplyTo, take_response_iff}
use ferrumdns.Net.{SocketAddr}
use ferrumdns.Upstream.Connect.{PinResolver, Upstream, Kind, udp, tcp, tls, doh}
use ferrumdns.Upstream.Exchange.{
  with_udp, with_doh, lookups, with_tcp, with_tls, Network, receive_matching, udp_exchange_addr,
  doh_exchange, exchange_by, exchange_inner, exchange, accept_udp, map_err,
}
use ferrumdns.Upstream.Framing.{
  Transport, framed_exchange, tcp_exchange_pooled, tls_exchange_pooled, exchange_new, exchange_kept,
}
use ferrumdns.Upstream.Bootstrap.{cached_dest, resolve_host}
use ferrumdns.Upstream.Endpoint.{url_host_port}
use ferrumdns.Upstream.Framing
use ferrumdns.Upstream.Pool.{StreamPool, take}

module _ (H : Hickory) (q : Message) where
  take_response-Gives : (resp : Message) → Gives (IsReplyTo H q) (take_response H q resp)
  take_response-Gives resp = Gives-of_ok (IsReplyTo H q) (take_response H q resp) λ msg e.
      let (checked, same) = (take_response_iff H q resp msg).0 e in
      subst (IsReplyTo H q) (sym same) checked

  module _ {S : Type 0} (T : Transport S) where
    framed_exchange-Gives :
        (s : S) → Gives (λ (p : Message × S). IsReplyTo H q p.0) (framed_exchange H T q s)
    unfolding framed_exchange
    framed_exchange-Gives s = Gives-bind _ (Framing.write_framed H T q s) _ λ s1.
        Gives-bind _ (Framing.read_framed H T s1) _ λ (resp, s2).
          elim (result-cases (take_response H q resp)) [
            | inl (e, bad) ↦ rw bad tt
            | inr (msg, good) ↦ rw good (Gives-ok (IsReplyTo H q) _ (take_response-Gives resp) good)
          ]

    exchange_new-Gives :
        (now : ℕ) (connected : Result S) (p : StreamPool S)
        → Gives (IsReplyTo H q) (exchange_new H T now connected q p).1
    exchange_new-Gives now (err e) p = tt
    exchange_new-Gives now (ok s) p = elim (result-cases (framed_exchange H T q s)) [
      | inl (e, bad) ↦ rw (bad, Gives) tt
      | inr ((msg, s'), good) ↦ rw (good, Gives) (Gives-ok _ _ (framed_exchange-Gives s) good)
    ]

    exchange_kept-Gives :
        (kept : Option S) (now : ℕ) (connected : Result S) (p : StreamPool S)
        → Gives (IsReplyTo H q) (exchange_kept H T kept now connected q p).1
    exchange_kept-Gives none now connected p = exchange_new-Gives now connected p
    exchange_kept-Gives (some s) now connected p = elim (result-cases (framed_exchange H T q s)) [
      | inl (e, bad) ↦ rw (bad, Gives) (exchange_new-Gives now connected p)
      | inr ((msg, s'), good) ↦ rw (good, Gives) (Gives-ok _ _ (framed_exchange-Gives s) good)
    ]

  module _ {C S : Type 0} (net : Network C S) where
    accept_udp-Gives :
        (dest : SocketAddr) (msg : Message)
        → IsReplyTo H q msg
        → Gives (IsReplyTo H q) (accept_udp H net dest q msg)
    accept_udp-Gives dest msg h = elim (Bool-cases msg.truncated) [
      | inr whole ↦ rw whole h
      | inl cut ↦ rw cut (
          Gives-bind _ (net.connect dest) _ λ s.
            elim (result-cases (framed_exchange H net.tcp_stream q s)) [
              | inl (e, bad) ↦ rw bad tt
              | inr ((full, s'), good) ↦ rw good (elim (Bool-cases full.truncated) [
                | inl again ↦ rw again tt
                | inr done ↦ rw done (Gives-ok _ _ (framed_exchange-Gives net.tcp_stream s) good)
              ])
            ])
    ]

    receive_matching-Gives :
        (dest : SocketAddr) (rounds i : ℕ)
        → Gives (IsReplyTo H q) (receive_matching H net dest q rounds i)
    unfolding receive_matching
    receive_matching-Gives dest zero i = tt
    receive_matching-Gives dest (suc rounds) i =
        elim (Option-cases ((net.datagrams dest).receive i)) [
          | inl failed ↦ rw (failed, Gives) tt
          | inr (bytes, received) ↦
              rw (received, Gives)
                (elim (result-cases (decode H bytes >>= take_response H q)) [
                  | inl (e, bad) ↦ rw (bad, Gives) (receive_matching-Gives dest rounds (i + 1))
                  | inr (msg, good) ↦
                      rw (good, Gives)
                        (accept_udp-Gives dest msg (
                          Gives-ok (IsReplyTo H q) _
                            (Gives-bind _ (decode H bytes) _ take_response-Gives) good))
                ])
        ]

    udp_exchange-Gives :
        (dest : SocketAddr) → Gives (IsReplyTo H q) (udp_exchange_addr H net dest q)
    unfolding udp_exchange_addr
    udp_exchange-Gives dest = elim (Bool-cases (net.datagrams dest).opened) [
      | inr closed ↦ rw (closed, Gives) tt
      | inl opened ↦
          rw (opened, Gives)
            (Gives-bind _ (encode H q) _ λ bytes. elim (Bool-cases (net.datagrams dest).sent) [
              | inr unsent ↦ rw (unsent, Gives) tt
              | inl sent ↦ rw (sent, Gives) (receive_matching-Gives dest 4 0)
            ])
    ]

    doh_exchange-Gives : (url : Text) → Gives (IsReplyTo H q) (doh_exchange H net url q)
    unfolding doh_exchange
    doh_exchange-Gives url = Gives-bind _ (encode H q) _ λ bytes.
        Gives-bind _ (net.post url bytes) _ λ (success, body).
          Gives-bind (IsReplyTo H q)
            (if success then ok_or body (protocol "doh body") else err (protocol "doh http"))
            (λ payload. decode H payload >>= take_response H q)
            λ payload. Gives-bind (IsReplyTo H q) (decode H payload) _ take_response-Gives

    kept_tcp-Gives :
        (p : StreamPool C) (dest : SocketAddr)
        → Gives
            (IsReplyTo H q)
            (tcp_exchange_pooled H net.tcp_stream net.taken net.now (net.connect dest) q p).1
    unfolding tcp_exchange_pooled
    kept_tcp-Gives p dest =
        exchange_kept-Gives net.tcp_stream (take net.taken p).1 net.now (net.connect dest)
          (take net.taken p).0

    kept_tls-Gives :
        (p : StreamPool S) (sni : Text) (dest : SocketAddr)
        → Gives
            (IsReplyTo H q)
            (tls_exchange_pooled H net.tls_stream net.taken net.now
              (net.connect dest)
              net.is_name
              net.handshake
              sni
              q
              p).1
    unfolding tls_exchange_pooled
    kept_tls-Gives p sni dest =
        exchange_kept-Gives net.tls_stream (take net.taken p).1 net.now _ (take net.taken p).0

    -- The error with which the server's address cannot be resolved.
    abbrev Unresolved : Upstream C S → Kind → Error → Type 0
    Unresolved u (udp target cell) e =
        (cached_dest H (lookups H net) net.lookup_host cell u.spec target).1 ≡ err e
    Unresolved u (tcp target cell) e =
        (cached_dest H (lookups H net) net.lookup_host cell u.spec target).1 ≡ err e
    Unresolved u (tls target sni cell) e =
        (cached_dest H (lookups H net) net.lookup_host cell u.spec target).1 ≡ err e
    Unresolved u (doh url) e =
        (r : PinResolver) × (u.resolver ≡ some r)
        × ((resolve_host H (lookups H net) net.lookup_name r (url_host_port url 443).0).1 ≡ err e)

    -- A reply to the query, or an error at the address, or one of these errors.
    abbrev IsOne : Text → (Error → Type 0) → Result Message → Type 0
    IsOne addr Fails (ok msg) = IsReplyTo H q msg
    IsOne addr Fails (err e) = ((text : Text) × (e ≡ upstream addr text)) ⊎ Fails e

    map_err-IsOne :
        (addr : Text) (Fails : Error → Type 0) (r : Result Message)
        → Gives (IsReplyTo H q) r
        → IsOne addr Fails (map_err addr r)
    map_err-IsOne addr Fails (ok msg) h = h
    map_err-IsOne addr Fails (err failure) h = inl (error_text failure, refl)

    with_udp-IsOne :
        (u : Upstream C S) (dest : Result SocketAddr)
        → IsOne u.spec.addr (λ e. dest ≡ err e) (with_udp H net u q dest).1
    with_udp-IsOne u (err e) = inr refl
    with_udp-IsOne u (ok dest) = map_err-IsOne u.spec.addr _ _ (udp_exchange-Gives dest)

    with_tcp-IsOne :
        (u : Upstream C S) (dest : Result SocketAddr)
        → IsOne u.spec.addr (λ e. dest ≡ err e) (with_tcp H net u q dest).1
    with_tcp-IsOne u (err e) = inr refl
    with_tcp-IsOne u (ok dest) = map_err-IsOne u.spec.addr _ _ (kept_tcp-Gives u.tcp_pool dest)

    with_tls-IsOne :
        (u : Upstream C S) (sni : Text) (dest : Result SocketAddr)
        → IsOne u.spec.addr (λ e. dest ≡ err e) (with_tls H net u sni q dest).1
    with_tls-IsOne u sni (err e) = inr refl
    with_tls-IsOne u sni (ok dest) =
        map_err-IsOne u.spec.addr _ _ (kept_tls-Gives u.tls_pool sni dest)

    resolved-IsOne :
        (addr url : Text) (Fails : Error → Type 0) (addrs : Result (List SocketAddr))
        → ((e : Error) → addrs ≡ err e → Fails e)
        → IsOne addr Fails (addrs >>= λ _. map_err addr (doh_exchange H net url q))
    resolved-IsOne addr url Fails (err e) fails = inr (fails e refl)
    resolved-IsOne addr url Fails (ok addrs) fails =
        map_err-IsOne addr Fails _ (doh_exchange-Gives url)

    with_doh-IsOne :
        (u : Upstream C S) (url : Text) (resolver : Option PinResolver)
        → u.resolver ≡ resolver
        → IsOne u.spec.addr (Unresolved u (doh url)) (with_doh H net u url q resolver).1
    with_doh-IsOne u url none is =
        map_err-IsOne u.spec.addr (Unresolved u (doh url)) _ (doh_exchange-Gives url)
    with_doh-IsOne u url (some r) is =
        resolved-IsOne u.spec.addr url (Unresolved u (doh url))
          (resolve_host H (lookups H net) net.lookup_name r (url_host_port url 443).0).1
          λ e bad. (r, is, bad)

    exchange_by-IsOne :
        (u : Upstream C S) (kind : Kind)
        → IsOne u.spec.addr (Unresolved u kind) (exchange_by H net u kind q).1
    unfolding exchange_by
    exchange_by-IsOne u (udp target cell) =
        let (cell', dest) = cached_dest H (lookups H net) net.lookup_host cell u.spec target in
        with_udp-IsOne (record u { kind = udp target cell' }) dest
    exchange_by-IsOne u (tcp target cell) =
        let (cell', dest) = cached_dest H (lookups H net) net.lookup_host cell u.spec target in
        with_tcp-IsOne (record u { kind = tcp target cell' }) dest
    exchange_by-IsOne u (tls target sni cell) =
        let (cell', dest) = cached_dest H (lookups H net) net.lookup_host cell u.spec target in
        with_tls-IsOne (record u { kind = tls target sni cell' }) sni dest
    exchange_by-IsOne u (doh url) = with_doh-IsOne u url u.resolver refl

    -- What an exchange with an upstream may give.
    abbrev pub IsChecked : Upstream C S → Result Message → Type 0
    IsChecked u r = IsOne u.spec.addr (Unresolved u u.kind) r

-- An exchange with an upstream, over whichever transport, gives the upstream's message only if that
-- is a response with the id, the op code and the questions of the query. Each of its errors names the
-- address of the upstream, also that of an exchange which does not end within its time; but for the
-- error with which the address of the server cannot be resolved, which it gives as it is.
pub exchange-IsChecked :
    (H : Hickory) {C S : Type 0} (net : Network C S) (cut : Option (Upstream C S))
    (u : Upstream C S) (q : Message)
    → IsChecked H q net u (exchange H net cut u q).1
unfolding exchange exchange_inner
exchange-IsChecked H net (some cut) u q = inl (codes "timeout", refl)
exchange-IsChecked H net none u q = exchange_by-IsOne H q net u u.kind
