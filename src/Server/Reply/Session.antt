-- ===== src/Server/Reply/Session.antt =====
-- server.rs: `serve_framed` on a stream in memory. It answers the messages of the stream in their
-- order, as they would be answered one by one.
use ferrumdns.Base.{
  ℕ, suc, ◌+◌, ◌*◌, ◌/◌, ◌%◌, ◌≤◌, ◌<◌, ◌≡◌, refl, sym, ap, ◌∙◌, arith, inl, inr, Bool-cases, false,
  Option, none, some, Option-cases, List, [], ◌∷◌, ◌++◌, append_assoc, append_nil, ltb, ◌==◌,
  if◌then◌else◌, length, All, Result, ok, err, ◌>>=◌, result-cases, protocol,
}
use ferrumdns.Context.{ClientProto}
use ferrumdns.Dns.{Ip, Message, Hickory}
use ferrumdns.Dnsutil.Codes.{max_u16}
use ferrumdns.Dnsutil.{encode, decode}
use ferrumdns.Server.Reply.{
  Shared, Fate, silent, refused, answered, Listening, answer_message, in_time, Stream,
  write_tcp_response, read_message, write_fate, serve_framed,
}
use ferrumdns.Upstream.Framing.RoundTrip.{Buffer, read_buffer, read_buffer-append, frame}
use ferrumdns.Upstream.Framing.{done, to_be_bytes}

abbrev pub concat : List (List ℕ) → List ℕ
concat [] = []
concat (l ∷ ls) = l ++ concat ls

abbrev pub in_memory : Stream Buffer
in_memory = record {
  read_exact = λ n b. in_time (read_buffer n b);
  send = λ parts b. in_time (done (record b { outgoing = b.outgoing ++ concat parts }));
}

abbrev pub frames : List (List ℕ) → List ℕ
frames [] = []
frames (bytes ∷ rest) = frame bytes ++ frames rest

module _ (H : Hickory) {P : Type 0} (L : Listening P) (proto : ClientProto) (peer : Option Ip) where
  -- The encoded reply, if there is one.
  abbrev pub reply_bytes : Fate → Result (List (List ℕ))
  reply_bytes silent = ok []
  reply_bytes (refused e) = err e
  reply_bytes (answered ctx) = elim ctx.response [
    | none ↦ ok []
    | some resp ↦ do
      bytes ← encode H resp
      if ltb max_u16 (length bytes) then err (protocol "tcp payload too large") else ok (bytes ∷ [])
  ]

  -- The replies to messages one by one, up to the first error, which ends the session.
  abbrev pub Conversed : Type 0
  Conversed = List (List ℕ) × Result (Unit {0}) × Shared P

  abbrev pub turn : Result (List (List ℕ)) → Conversed → Shared P → Conversed
  turn (err e) later s = ([], err e, s)
  turn (ok out) (more, last, s') s = (out ++ more, last, s')

  pub converse : ℕ → List Message → Shared P → Conversed
  converse n [] s = ([], ok tt, s)
  converse n (q ∷ qs) s =
      let (fate, s') = answer_message H L proto peer n q s in
      let later = converse (n + 1) qs s' in turn (reply_bytes fate) later s'

  frames-append : (l m : List (List ℕ)) → frames (l ++ m) ≡ frames l ++ frames m
  frames-append [] m = refl
  frames-append (bytes ∷ l) m =
      ap (λ x. frame bytes ++ x) (frames-append l m) ∙ sym (append_assoc (frame bytes) (frames l) _)

  abbrev written : Buffer → Result (List (List ℕ)) → Result Buffer
  written b r = do out ← r; ok (record b { outgoing = b.outgoing ++ frames out })

  write_fate-written :
      (fate : Fate) (b : Buffer) → write_fate H L in_memory fate b ≡ written b (reply_bytes fate)
  unfolding write_tcp_response
  write_fate-written silent b = rw append_nil refl
  write_fate-written (refused e) b = refl
  write_fate-written (answered ctx) b = elim (Option-cases ctx.response) [
    | inl no_reply ↦ rw (write_tcp_response, no_reply, append_nil) refl
    | inr (resp, reply) ↦ elim (result-cases (encode H resp)) [
      | inl (e, bad) ↦ rw (write_tcp_response, reply, bad) refl
      | inr (bytes, good) ↦ elim (Bool-cases (ltb max_u16 (length bytes))) [
        | inl large ↦ rw (write_tcp_response, reply, good, large) refl
        | inr small ↦ rw (write_tcp_response, reply, good, small) refl
      ]
    ]
  ]

  abbrev pub buffer : List ℕ → List ℕ → Buffer
  buffer incoming outgoing = record { incoming = incoming; outgoing = outgoing }

  -- A message as it is sent: its octets, which decode to it and fit behind a length.
  abbrev pub IsSent : List ℕ × Message → Type 0
  IsSent sent = (decode H sent.0 ≡ ok sent.1) × (0 < length sent.0) × (length sent.0 ≤ max_u16)

  abbrev pub octets : List (List ℕ × Message) → List (List ℕ)
  octets [] = []
  octets ((bytes, q) ∷ sent) = bytes ∷ octets sent

  abbrev pub messages : List (List ℕ × Message) → List Message
  messages [] = []
  messages ((bytes, q) ∷ sent) = q ∷ messages sent

  header-read :
      (bytes rest out : List ℕ)
      → read_buffer 2 (buffer (frame bytes ++ rest) out)
        ≡ done (to_be_bytes (length bytes), buffer (bytes ++ rest) out)
  header-read bytes rest out =
      read_buffer-append (buffer [] out) (to_be_bytes (length bytes)) (bytes ++ rest)

  message-read :
      (bytes rest out : List ℕ) (q : Message)
      → IsSent (bytes, q)
      → read_message H L in_memory (to_be_bytes (length bytes)) (buffer (bytes ++ rest) out)
        ≡ ok (q, buffer rest out)
  message-read bytes rest out q (decoded, some_bytes, short) =
      let same : length bytes / 256 * 256 + length bytes % 256 ≡ length bytes = omega arith in
      let full : (length bytes == 0) ≡ false = ground arith in
      rw (same, full, read_buffer-append (buffer [] out) bytes rest, decoded) refl

  -- The state of a session, after the stream was written to and the rest was read.
  abbrev IsConversed :
      ℕ → List Message → List ℕ → Shared P → Option (Result (Unit {0}) × Buffer × Shared P) → Type 0
  IsConversed n qs out s r =
      (rest : List ℕ) × (r
        ≡ some (
          (converse n qs s).1,
          buffer rest (out ++ frames (converse n qs s).0),
          (converse n qs s).2,
        ))

  serve_step :
      (fuel n : ℕ) (bytes rest out : List ℕ) (q : Message) (s : Shared P)
      → IsSent (bytes, q)
      → serve_framed H L in_memory proto peer (suc fuel) n (buffer (frame bytes ++ rest) out) s
        ≡ elim (written (buffer rest out) (reply_bytes (answer_message H L proto peer n q s).0)) [
          | err e ↦ some (err e, buffer rest out, (answer_message H L proto peer n q s).1)
          | ok st ↦
              serve_framed H L in_memory proto peer fuel
                (n + 1)
                st
                (answer_message H L proto peer n q s).1
        ]
  unfolding serve_framed
  serve_step fuel n bytes rest out q s sent =
      rw
        (
          serve_framed,
          header-read bytes rest out,
          message-read bytes rest out q sent,
          write_fate-written,
        )
        refl

  serve_nil :
      (n : ℕ) (out : List ℕ) (s : Shared P)
      → serve_framed H L in_memory proto peer 1 n (buffer [] out) s ≡ some (ok tt, buffer [] out, s)
  unfolding serve_framed
  serve_nil n out s = refl

  -- The end of a step, by the reply.
  step-IsConversed :
      (r : Result (List (List ℕ))) (fuel n : ℕ) (qs : List Message) (rest out : List ℕ)
      (s : Shared P)
      → ((o : List ℕ)
          → IsConversed n qs o s (serve_framed H L in_memory proto peer fuel n (buffer rest o) s))
      → (left : List ℕ) × (elim (written (buffer rest out) r) [
        | err e ↦ some (err e, buffer rest out, s)
        | ok st ↦ serve_framed H L in_memory proto peer fuel n st s
      ]
          ≡ some (
            (turn r (converse n qs s) s).1,
            buffer left (out ++ frames (turn r (converse n qs s) s).0),
            (turn r (converse n qs s) s).2,
          ))
  step-IsConversed (err e) fuel n qs rest out s ih = (rest, rw append_nil refl)
  step-IsConversed (ok o) fuel n qs rest out s ih =
      let (left, h) = ih (out ++ frames o) in
      (
        left,
        h
            ∙ ap (λ x. some ((converse n qs s).1, buffer left x, (converse n qs s).2))
                (append_assoc out (frames o) (frames (converse n qs s).0)
                  ∙ ap (λ x. out ++ x) (sym (frames-append o (converse n qs s).0))),
      )

  serve_framed-IsConversed :
      (sent : List (List ℕ × Message)) (n : ℕ) (out : List ℕ) (s : Shared P)
      → All IsSent sent
      → IsConversed n (messages sent) out s (
          serve_framed H L in_memory proto peer
            (suc (length sent))
            n
            (buffer (frames (octets sent)) out)
            s)
  unfolding converse
  serve_framed-IsConversed [] n out s h = ([], serve_nil n out s ∙ rw append_nil refl)
  serve_framed-IsConversed ((bytes, q) ∷ sent) n out s (h, hs) =
      let (fate, s') = answer_message H L proto peer n q s in
      let (left, e) =
        step-IsConversed (reply_bytes fate) (suc (length sent)) (n + 1) (messages sent)
          (frames (octets sent)) out s' (λ o. serve_framed-IsConversed sent (n + 1) o s' hs) in
      (left, serve_step (suc (length sent)) n bytes (frames (octets sent)) out q s h ∙ e)

  -- A session on a stream with the frames of messages, which then ends, answers the messages in their
  -- order as they are answered one by one: it writes the frames of their replies, ends as that does,
  -- without an error or with the first one, and leaves the state that they leave. The fuel of one
  -- more than there are messages is enough.
  pub serve_framed-converse :
      (sent : List (List ℕ × Message)) (s : Shared P)
      → All IsSent sent
      → (rest : List ℕ) × (serve_framed H L in_memory proto peer
            (suc (length sent))
            0
            (buffer (frames (octets sent)) [])
            s
          ≡ some (
            (converse 0 (messages sent) s).1,
            buffer rest (frames (converse 0 (messages sent) s).0),
            (converse 0 (messages sent) s).2,
          ))
  serve_framed-converse sent s h = serve_framed-IsConversed sent 0 [] s h
