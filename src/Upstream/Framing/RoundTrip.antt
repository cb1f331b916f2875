-- ===== src/Upstream/Framing/RoundTrip.antt =====
-- upstream.rs: what `write_framed` writes, `read_framed` reads. The stream is one in memory.
use ferrumdns.Base.{
  ℕ, suc, ◌+◌, ◌*◌, ◌/◌, ◌%◌, ◌≤◌, ◌<◌, ◌≡◌, refl, ap, ◌∙◌, arith, false, some, List, [], ◌∷◌, ◌++◌,
  ltb, ◌==◌, ◌||◌, if◌then◌else◌, length, take, drop, length-append, append_assoc, ok, Result,
  ◌>>=◌,
}
use ferrumdns.Dns.{Message, Hickory}
use ferrumdns.Dnsutil.Codes.{max_u16}
use ferrumdns.Dnsutil.{encode, decode}
use ferrumdns.Upstream.Framing.{
  Io, io_result, done, eof, Transport, to_be_bytes, write_framed, read_framed,
}

-- What is still to be read, and what has been written.
pub record Buffer : Type 0 where
  pub incoming : List ℕ
  pub outgoing : List ℕ

abbrev pub read_buffer : ℕ → Buffer → Io (List ℕ × Buffer)
read_buffer n b =
    if ltb (length b.incoming) n
    then eof
    else done (take n b.incoming, record b { incoming = drop n b.incoming })

abbrev pub in_memory : Transport Buffer
in_memory = record {
  write_all = λ bytes b. some (record b { outgoing = b.outgoing ++ bytes });
  flush = λ b. some b;
  read_exact = read_buffer;
}

module _ {ℓ} {A : Type ℓ} where
  take-append : (xs ys : List A) → take (length xs) (xs ++ ys) ≡ xs
  take-append [] ys = refl
  take-append (x ∷ xs) ys = ap (λ l. x ∷ l) (take-append xs ys)

  drop-append : (xs ys : List A) → drop (length xs) (xs ++ ys) ≡ ys
  drop-append [] ys = refl
  drop-append (x ∷ xs) ys = drop-append xs ys

module _ (b : Buffer) (bytes rest : List ℕ) where
  -- Reading the octets that stand in front.
  pub read_buffer-append :
      read_buffer (length bytes) (record b { incoming = bytes ++ rest })
      ≡ done (bytes, record b { incoming = rest })
  read_buffer-append =
      let enough : ltb (length (bytes ++ rest)) (length bytes) ≡ false =
        ground (arith, length-append bytes rest) in
      rw (enough, take-append, drop-append) refl

abbrev pub frame : List ℕ → List ℕ
frame bytes = to_be_bytes (length bytes) ++ bytes

abbrev after_read : Hickory → Io (List ℕ × Buffer) → Result (Message × Buffer)
after_read H r = do (buf, s) ← io_result r; msg ← decode H buf; ok (msg, s)

module _ (H : Hickory) (b : Buffer) (q : Message) (bytes : List ℕ)
    (short : length bytes ≤ max_u16) where
  write_framed-frame :
      encode H q ≡ ok bytes
      → write_framed H in_memory q b ≡ ok (record b { outgoing = b.outgoing ++ frame bytes })
  unfolding write_framed
  write_framed-frame e =
      let fits : ltb max_u16 (length bytes) ≡ false = ground arith in
      rw (write_framed, e, fits, append_assoc) refl

  read_framed-frame :
      (rest : List ℕ) {msg : Message}
      → 0 < length bytes
      → decode H bytes ≡ ok msg
      → read_framed H in_memory (record b { incoming = frame bytes ++ rest })
        ≡ ok (msg, record b { incoming = rest })
  unfolding read_framed
  read_framed-frame rest some_bytes e =
      let header : ltb (suc (suc (length (bytes ++ rest)))) 2 ≡ false = ground arith in
      let same : length bytes / 256 * 256 + length bytes % 256 ≡ length bytes = omega arith in
      let sound : (length bytes == 0 || ltb 65535 (length bytes)) ≡ false = ground arith in
      rw (read_framed, header, same, sound)
        (ap (after_read H) (read_buffer-append b bytes rest) ∙ rw (e) refl)

-- What a message of at most 65535 octets, and at least one, is written as on a stream is read as
-- the message which its encoding decodes to; a write appends to what was written before, and a read
-- leaves whatever follows the message.
pub read_framed-write_framed :
    (H : Hickory) (b : Buffer) (q msg : Message) (bytes rest : List ℕ)
    → encode H q ≡ ok bytes
    → 0 < length bytes
    → length bytes ≤ max_u16
    → decode H bytes ≡ ok msg
    → (written : List ℕ) × (write_framed H in_memory q b
        ≡ ok (record b { outgoing = b.outgoing ++ written }))
      × (read_framed H in_memory (record b { incoming = written ++ rest })
          ≡ ok (msg, record b { incoming = rest }))
read_framed-write_framed H b q msg bytes rest encoded some_bytes short decoded = (
  frame bytes,
  write_framed-frame H b q bytes short encoded,
  read_framed-frame H b q bytes short rest some_bytes decoded,
)
