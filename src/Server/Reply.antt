-- ===== src/Server/Reply.antt =====
-- server.rs: what the listeners do with a message, once it is decoded: over UDP, over a stream of
-- framed messages (TCP and TLS), and over HTTP.
pub mod Session
use ferrumdns.Base.{
  ℕ, zero, suc, ◌+◌, ◌⊎◌, inl, inr, Bool, true, false, Option, none, some, List, [], ◌∷◌, ◌++◌,
  Text, ltb, ◌==◌, if◌then◌else◌, length, Result, ok, err, ◌>>=◌, Error, io, protocol,
}
use ferrumdns.Context.{ClientProto, udp, https, QueryContext, new_context, reject}
use ferrumdns.Dns.Rcode
use ferrumdns.Dns.{Ip, Message, Hickory}
use ferrumdns.Dnsutil.Codes.{max_u16}
use ferrumdns.Dnsutil.{
  drop, not_imp, accept, classify_incoming, decode, encode, encode_udp, udp_payload_max,
}
use ferrumdns.Metrics.{Metrics}
use ferrumdns.Server.Handle.{Pipelines, Served, handle}
use ferrumdns.Server.Percent.{dns_query_param}
use ferrumdns.Upstream.Framing.{Io, done, eof, failed, to_be_bytes, from_be_bytes}

-- The state that the queries share.
pub record Shared (P : Type 0) : Type 0 where
  pub plugins : P
  pub metrics : Metrics

-- What becomes of a message: no reply at all, an error, or the context that holds the reply.
pub data Fate : Type 0 where
  silent : Fate
  refused : Error → Fate
  answered : QueryContext → Fate

-- A listener: the pipelines of the runtime that is live when the query of a number comes, and the
-- state of that runtime, by what the queries before have left (another one after a reload); its entry;
-- and the times that the queries take in microseconds.
pub record Listening (P : Type 0) : Type 0 where
  pub live : ℕ → Pipelines P
  pub state_of : ℕ → Shared P → Shared P
  pub entry : Text
  pub times : ℕ → ℕ

module _ (H : Hickory) {P : Type 0} (L : Listening P) where
  abbrev pub fate_of : Served P → Fate × Shared P
  fate_of r = (
    elim r.result [ err e ↦ refused e | ok _ ↦ answered r.context ],
    record { plugins = r.state; metrics = r.metrics },
  )

  abbrev pub handled : ℕ → QueryContext → Shared P → Served P
  handled n ctx s =
      let s' = L.state_of n s in handle H (L.live n) L.entry (L.times n) ctx s'.plugins s'.metrics

  -- The part that `udp_loop` and `serve_framed` have in common: the query of number `n`.
  unfoldable pub answer_message : ClientProto → Option Ip → ℕ → Message → Shared P → Fate × Shared P
  unfolding classify_incoming new_context reject handle
  answer_message proto peer n q s = elim (classify_incoming q) [
    | drop ↦ (silent, s)
    | not_imp ↦ (answered (reject (new_context q peer proto) Rcode.not_imp), s)
    | accept ↦ fate_of (handled n (new_context q peer proto) s)
  ]

  -- The datagram that is sent back.
  abbrev pub datagram : Fate → Option (List ℕ)
  datagram silent = none
  datagram (refused e) = none
  datagram (answered ctx) = elim ctx.response [
    | none ↦ none
    | some resp ↦ elim (encode_udp H resp (udp_payload_max ctx.query)) [
      | err e ↦ none
      | ok bytes ↦ some bytes
    ]
  ]

  -- One round of `udp_loop`, on the octets that were received.
  unfoldable pub udp_reply : Ip → ℕ → List ℕ → Shared P → Option (List ℕ) × Shared P
  unfolding decode answer_message encode_udp udp_payload_max
  udp_reply peer n buf s = elim (decode H buf) [
    | err e ↦ (none, s)
    | ok q ↦ let (fate, s') = answer_message udp (some peer) n q s in (datagram fate, s')
  ]

  -- A status and a body.
  abbrev ok_or_bad_gateway : Option Message → ℕ × List ℕ
  ok_or_bad_gateway none = (502, [])
  ok_or_bad_gateway (some resp) = elim (encode H resp) [
    | err e ↦ (502, [])
    | ok bytes ↦ (200, bytes)
  ]

  abbrev http_reply : Served P → (ℕ × List ℕ) × Shared P
  http_reply r = (
    elim r.result [ err e ↦ (502, []) | ok _ ↦ ok_or_bad_gateway r.context.response ],
    record { plugins = r.state; metrics = r.metrics },
  )

  -- The texts in the bodies of errors are left out.
  unfoldable pub doh_handle : Ip → ℕ → List ℕ → Shared P → (ℕ × List ℕ) × Shared P
  unfolding decode encode new_context handle
  doh_handle peer n body s = elim (decode H body) [
    | err e ↦ ((400, []), s)
    | ok q ↦ http_reply (handled n (new_context q (some peer) https) s)
  ]

  -- The query part of the URI, if there is one, with the base64 decoders of the crate.
  unfoldable pub doh_get :
      (Text → Option (List ℕ))
      → (Text → Option (List ℕ))
      → Ip
      → ℕ
      → Option Text
      → Shared P
      → (ℕ × List ℕ) × Shared P
  unfolding dns_query_param doh_handle
  doh_get decode_bare decode_padded peer n uri_query s = elim uri_query [
    | none ↦ ((400, []), s)
    | some query ↦ elim (dns_query_param decode_bare decode_padded query) [
      | none ↦ ((400, []), s)
      | some raw ↦ doh_handle peer n raw s
    ]
  ]

-- A read or a write with the idle timeout.
pub data Timed (A : Type 0) : Type 0 where
  in_time : Io A → Timed A
  late : Timed A

-- A stream with its idle timeout; `send` writes the parts in turn and flushes.
pub record Stream (S : Type 0) : Type 0 where
  pub read_exact : ℕ → S → Timed (List ℕ × S)
  pub send : List (List ℕ) → S → Timed S

abbrev pub in_idle : {A : Type 0} → Timed A → Result A
in_idle (in_time (done a)) = ok a
in_idle (in_time eof) = err io
in_idle (in_time failed) = err io
in_idle late = err (protocol "idle timeout")

module _ (H : Hickory) {P S : Type 0} (L : Listening P) (T : Stream S) where
  unfoldable pub write_tcp_response : QueryContext → S → Result S
  unfolding encode
  write_tcp_response ctx s = elim ctx.response [
    | none ↦ ok s
    | some resp ↦ do
      bytes ← encode H resp
      if ltb max_u16 (length bytes)
          then err (protocol "tcp payload too large")
          else in_idle (T.send (to_be_bytes (length bytes) ∷ bytes ∷ []) s)
  ]

  -- What the header of the next message comes to: its length, or the end of the session.
  abbrev pub header_of : Timed (List ℕ × S) → Result (Unit {0}) ⊎ (List ℕ × S)
  header_of (in_time (done h)) = inr h
  header_of (in_time eof) = inl (ok tt)
  header_of (in_time failed) = inl (err io)
  header_of late = inl (ok tt)

  abbrev pub read_message : List ℕ → S → Result (Message × S)
  read_message hdr s = if from_be_bytes hdr == 0 then err (protocol "bad length") else (do
    (buf, s') ← in_idle (T.read_exact (from_be_bytes hdr) s)
    q ← decode H buf
    ok (q, s'))

  abbrev pub write_fate : Fate → S → Result S
  write_fate silent s = ok s
  write_fate (refused e) s = err e
  write_fate (answered ctx) s = write_tcp_response ctx s

  -- `serve_framed`, from the query of number `n` on; `none` means that the fuel ran out, which is one
  -- more than there are messages.
  unfoldable pub serve_framed :
      ClientProto → Option Ip → ℕ → ℕ → S → Shared P → Option (Result (Unit {0}) × S × Shared P)
  unfolding answer_message write_tcp_response decode
  serve_framed proto peer zero n st s = none
  serve_framed proto peer (suc fuel) n st s = elim (header_of (T.read_exact 2 st)) [
    | inl r ↦ some (r, st, s)
    | inr (hdr, st1) ↦ elim (read_message hdr st1) [
      | err e ↦ some (err e, st1, s)
      | ok (q, st2) ↦
          let (fate, s') = answer_message H L proto peer n q s in
          elim (write_fate fate st2) [
            | err e ↦ some (err e, st2, s')
            | ok st3 ↦ serve_framed proto peer fuel (n + 1) st3 s'
          ]
    ]
  ]
