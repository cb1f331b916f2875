-- ===== src/Upstream/Framing.antt =====
-- upstream.rs: messages on a stream, each behind its length in two octets, and the exchange over a
-- stream that is taken from the pool or is new.
pub mod RoundTrip
use ferrumdns.Base.{
  ℕ, ◌+◌, ◌*◌, ◌/◌, ◌%◌, Option, none, some, List, [], ◌∷◌, Bool, true, false, Text, ltb, ◌==◌,
  ◌||◌, if◌then◌else◌, length, Result, ok, err, ◌>>=◌, ok_or, io, protocol,
}
use ferrumdns.Dns.{Message, Hickory}
use ferrumdns.Dnsutil.Codes.{max_u16}
use ferrumdns.Dnsutil.{encode, decode, take_response}
use ferrumdns.Upstream.Pool.{StreamPool, take, put}

-- How a read ends.
pub data Io (A : Type 0) : Type 0 where
  done : A → Io A
  eof failed : Io A

-- What a stream does: `write_all`, `flush`, which may fail, and `read_exact`.
pub record Transport (S : Type 0) : Type 0 where
  pub write_all : List ℕ → S → Option S
  pub flush : S → Option S
  pub read_exact : ℕ → S → Io (List ℕ × S)

-- The operator `?` on a read.
abbrev pub io_result : {A : Type 0} → Io A → Result A
io_result (done a) = ok a
io_result eof = err io
io_result failed = err io

abbrev pub to_be_bytes : ℕ → List ℕ
to_be_bytes n = n / 256 ∷ n % 256 ∷ []

abbrev pub from_be_bytes : List ℕ → ℕ
from_be_bytes (a ∷ b ∷ _) = a * 256 + b
from_be_bytes _ = 0

module _ (H : Hickory) {S : Type 0} (T : Transport S) where
  unfoldable pub write_framed : Message → S → Result S
  unfolding encode
  write_framed q s = do
    bytes ← encode H q
    if ltb max_u16 (length bytes) then err (protocol "tcp payload too large") else (do
      s1 ← ok_or (T.write_all (to_be_bytes (length bytes)) s) io
      s2 ← ok_or (T.write_all bytes s1) io
      ok_or (T.flush s2) io)

  unfoldable pub read_framed : S → Result (Message × S)
  unfolding decode
  read_framed s = do
    (hdr, s1) ← io_result (T.read_exact 2 s)
    if from_be_bytes hdr == 0 || ltb 65535 (from_be_bytes hdr)
        then err (protocol "bad tcp length")
        else (do
          (buf, s2) ← io_result (T.read_exact (from_be_bytes hdr) s1)
          msg ← decode H buf
          ok (msg, s2))

  unfoldable pub framed_exchange : Message → S → Result (Message × S)
  unfolding write_framed read_framed take_response
  framed_exchange q s = do
    s1 ← write_framed q s
    (resp, s2) ← read_framed s1
    msg ← take_response H q resp
    ok (msg, s2)

  -- The exchange over a new stream, which is kept when the exchange succeeds.
  abbrev pub exchange_new : ℕ → Result S → Message → StreamPool S → StreamPool S × Result Message
  exchange_new now connected q p = elim (connected >>= framed_exchange q) [
    | err e ↦ (p, err e)
    | ok (msg, s) ↦ (put s now p, ok msg)
  ]

  -- The pooled exchange: over a kept stream, and if that fails over the new one.
  abbrev pub exchange_kept :
      Option S → ℕ → Result S → Message → StreamPool S → StreamPool S × Result Message
  exchange_kept none now connected q p = exchange_new now connected q p
  exchange_kept (some s) now connected q p = elim (framed_exchange q s) [
    | err e ↦ exchange_new now connected q p
    | ok (msg, s') ↦ (put s' now p, ok msg)
  ]

  -- `taken` and `now` are the times at which a stream is taken from the pool and put back.
  unfoldable pub tcp_exchange_pooled :
      ℕ → ℕ → Result S → Message → StreamPool S → StreamPool S × Result Message
  unfolding framed_exchange take put
  tcp_exchange_pooled taken now connected q p =
      let (p', kept) = take taken p in exchange_kept kept now connected q p'

  -- A new stream is one over a TCP connection, with the name that the server is known by.
  unfoldable pub tls_exchange_pooled :
      {C : Type 0}
      → ℕ
      → ℕ
      → Result C
      → (Text → Bool)
      → (Text → C → Option S)
      → Text
      → Message
      → StreamPool S
      → StreamPool S × Result Message
  unfolding framed_exchange take put
  tls_exchange_pooled taken now connected is_name handshake sni q p =
      let (p', kept) = take taken p in
      exchange_kept kept now
        (do
          c ← connected
          if is_name sni then ok_or (handshake sni c) (protocol "tls") else err (protocol "sni"))
        q p'
