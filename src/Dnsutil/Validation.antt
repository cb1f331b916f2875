-- ===== src/Dnsutil/Validation.antt =====
-- dnsutil.rs: which upstream replies are taken, and the size of UDP replies.
use ferrumdns.Base.{
  ℕ, ◌≤◌, ◌≡◌, ◌↔◌, inl, inr, arith, true, some, List, length, leb, ==_iff, Bool-cases, ok,
  Option-cases, none, refl,
}
use ferrumdns.Dns.{Edns, Message, Hickory, questions_eq}
use ferrumdns.Dnsutil.{is_response, take_response, udp_payload_max, encode, encode_udp}

-- A reply that matches the question that was sent.
abbrev pub IsReplyTo : Hickory → Message → Message → Type 0
IsReplyTo H q resp =
    (is_response resp ≡ true)
    × (resp.id ≡ q.id)
    × (resp.op_code ≡ q.op_code)
    × (questions_eq H resp.queries q.queries ≡ true)

-- The check of an upstream's message succeeds exactly when it is a response with the id, the op
-- code and the questions of the query, and then it gives that message itself, unchanged.
pub take_response_iff :
    (H : Hickory) (q resp msg : Message)
    → (take_response H q resp ≡ ok msg) ↔ (IsReplyTo H q resp × (msg ≡ resp))
unfolding take_response
take_response_iff H q resp msg = elim (Bool-cases (is_response resp)) [
  | inr a ↦ ground (arith)
  | inl a ↦ ground (arith, ==_iff resp.id q.id, ==_iff resp.op_code q.op_code)
]

-- The payload size for a UDP reply lies between 512 and 4096 octets; it is the client's where that lies
-- in this range, and 512 where the client names none.
pub udp_payload_max_bounds :
    (q : Message)
    → (512 ≤ udp_payload_max q)
      × (udp_payload_max q ≤ 4096)
      × ((e : Edns)
          → q.edns ≡ some e
          → 512 ≤ e.max_payload
          → e.max_payload ≤ 4096
          → udp_payload_max q ≡ e.max_payload)
      × (q.edns ≡ none → udp_payload_max q ≡ 512)
unfolding udp_payload_max
udp_payload_max_bounds q = elim (Option-cases q.edns) [
  | inl absent ↦ (ground arith, ground arith, λ e h a b. absurd (ground arith), λ h. ground arith)
  | inr (e, present) ↦
      (ground arith, ground arith, λ e' h a b. ground arith, λ h. absurd (ground arith))
]

encode_udp-whole :
    (H : Hickory) (msg : Message) (max_len : ℕ) (whole : List ℕ)
    → H.to_vec msg ≡ some whole
    → length whole ≤ max_len
    → encode_udp H msg max_len ≡ ok whole
unfolding encode_udp encode
encode_udp-whole H msg max_len whole h le =
    let fits : leb (length whole) max_len ≡ true = ground arith in
    rw (encode_udp, encode, h, fits) refl

encode_udp-le :
    (H : Hickory) (msg : Message) (max_len : ℕ) (bytes : List ℕ)
    → ((bs : List ℕ) → H.to_vec (H.truncate msg) ≡ some bs → length bs ≤ max_len)
    → encode_udp H msg max_len ≡ ok bytes
    → length bytes ≤ max_len
unfolding encode_udp encode
encode_udp-le H msg max_len bytes fits h = elim (Option-cases (H.to_vec msg)) [
  | inl absent ↦ absurd (ground arith)
  | inr (whole, present) ↦ elim (Bool-cases (leb (length whole) max_len)) [
    | inl small ↦ ground arith
    | inr large ↦ elim (Option-cases (H.to_vec (H.truncate msg))) [
      | inl absent ↦ absurd (ground arith)
      | inr (cut, done) ↦ ground (arith, fits cut done)
    ]
  ]
]

-- A message whose encoding fits into `max_len` octets is sent as it is; and when truncated messages of
-- the crate fit, so does every UDP reply.
pub length-encode_udp :
    (H : Hickory) (msg : Message) (max_len : ℕ)
    → ((bs : List ℕ) → H.to_vec (H.truncate msg) ≡ some bs → length bs ≤ max_len)
    → ((whole : List ℕ)
        → H.to_vec msg ≡ some whole
        → length whole ≤ max_len
        → encode_udp H msg max_len ≡ ok whole)
      × ((bytes : List ℕ) → encode_udp H msg max_len ≡ ok bytes → length bytes ≤ max_len)
length-encode_udp H msg max_len fits =
    (encode_udp-whole H msg max_len, λ bytes h. encode_udp-le H msg max_len bytes fits h)
