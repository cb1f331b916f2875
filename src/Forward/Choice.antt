-- ===== src/Forward/Choice.antt =====
-- plugin/forward.rs: which reply wins the race.
use ferrumdns.Base.{
  ℕ, ◌≡◌, refl, ap, arith, inl, inr, Option, none, some, List, [], ◌∷◌, ◌++◌, map, Text, codes,
  ◌==◌, if◌then◌else◌, Result, ok, err, Bool-cases, error_text,
}
use ferrumdns.Context.{QueryContext, set_response, push_trace}
use ferrumdns.Dns.{MessageType, Message}
use ferrumdns.Dnsutil.{is_usable_response}
use ferrumdns.Forward.{Forward, label_of, exec_one, race, racers, exec, count_err}
use ferrumdns.Metrics.{Metrics}

-- The first reply that can be used, in the order in which the exchanges end.
unfoldable pub first_usable : List (Result Message) → Option Message
first_usable [] = none
first_usable (err e ∷ rest) = first_usable rest
first_usable (ok msg ∷ rest) =
    let later = first_usable rest in if is_usable_response msg then some msg else later

-- The last reply, where none can be used.
unfoldable pub last_reply : List (Result Message) → Option Message → Option Message
last_reply [] last = last
last_reply (err e ∷ rest) last = last_reply rest last
last_reply (ok msg ∷ rest) last = last_reply rest (some msg)

-- A reply as the context takes it.
abbrev pub taken : QueryContext → Message → Message
taken ctx msg = record msg { id = ctx.query.id; message_type = MessageType.response }

-- The response of a context that is given a reply, or keeps the one that it has.
abbrev pub or_kept : QueryContext → Option Message → Option Message
or_kept ctx none = ctx.response
or_kept ctx (some msg) = some (taken ctx msg)

abbrev pub chosen : QueryContext → List (Result Message) → Option Message → Option Message
chosen ctx answers last = elim (first_usable answers) [
  | none ↦ or_kept ctx (last_reply answers last)
  | some msg ↦ some (taken ctx msg)
]

module _ (f : Forward) where
  race-chosen :
      (ended : List (ℕ × Result Message)) (last_err : Text) (last : Option Message)
      (ctx : QueryContext) (m : Metrics)
      → (race f ended last_err last ctx m).0.response ≡ chosen ctx (map (λ e. e.1) ended) last
  unfolding race first_usable last_reply set_response push_trace
  race-chosen [] last_err none ctx m = ground arith
  race-chosen [] last_err (some msg) ctx m = ground arith
  race-chosen ((i, err e) ∷ rest) last_err last ctx m =
      race-chosen rest (error_text e) last ctx (count_err m)
  race-chosen ((i, ok msg) ∷ rest) last_err last ctx m =
      elim (Bool-cases (is_usable_response msg)) [
        | inl usable ↦ ground arith
        | inr other ↦ ground (
          arith,
          race-chosen rest (label_of f i ++ codes " unusable rcode") (some msg) ctx (count_err m),
        )
      ]

  exec_one-chosen :
      (answer : Result Message) (ctx : QueryContext) (m : Metrics)
      → (exec_one f answer ctx m).0.response ≡ chosen ctx (answer ∷ []) none
  unfolding exec_one first_usable last_reply set_response push_trace
  exec_one-chosen (err e) ctx m = ground arith
  exec_one-chosen (ok msg) ctx m = elim (Bool-cases (is_usable_response msg)) [
    | inl usable ↦ ground arith
    | inr other ↦ ground arith
  ]

  map-snd :
      (answer : ℕ → Result Message) (order : List ℕ)
      → map {A = ℕ × Result Message} (λ e. e.1) (map (λ i. (i, answer i)) order) ≡ map answer order
  map-snd answer [] = refl
  map-snd answer (i ∷ order) = ap (λ l. answer i ∷ l) (map-snd answer order)

  -- The first reply that can be used becomes the response, in the order in which the exchanges end; if
  -- no reply can be used the last one to arrive becomes the response, and if there is no reply at all
  -- the context keeps the response that it had. With a single racer the first upstream alone is asked.
  pub exec-chosen :
      (answer : ℕ → Result Message) (order : List ℕ) (ctx : QueryContext) (m : Metrics)
      → (exec f answer order ctx m).0.response
        ≡ chosen ctx (if racers f == 1 then answer 0 ∷ [] else map answer order) none
  unfolding exec
  exec-chosen answer order ctx m = elim (Bool-cases (racers f == 1)) [
    | inl one ↦ ground (arith, exec_one-chosen (answer 0) ctx m)
    | inr more ↦ ground (
      arith,
      map-snd answer order,
      race-chosen (map (λ i. (i, answer i)) order) (codes "all upstreams failed") none ctx m,
    )
  ]
