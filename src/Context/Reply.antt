-- ===== src/Context/Reply.antt =====
-- context.rs: what holds of a reply that is bound to a question, and of its aliases.
use ferrumdns.Base.{
  ℕ, ◌≡◌, inl, inr, refl, arith, sym, subst, true, false, not, ◌||◌, ◌&&◌, none, some, List, [],
  ◌∷◌, ◌++◌, any, ◌==◌, is_empty, length, drop, min, Bool-cases, Option-cases, All, any-append,
}
use ferrumdns.Context.Rebind.{
  rebind_response, rewrite_name, is_alias, in_class_of, alias_records, with_aliases,
  response_for_query, finalize_response,
}
use ferrumdns.Context.{QueryContext, set_response}
use ferrumdns.Dns.Rcode
use ferrumdns.Dns.{MessageType, Name, Query, Record, Message, Hickory}
use ferrumdns.Dnsutil.{min_ttl, record_cname}

-- The header fields and the question of a reply are the query's, and there is no EDNS record when
-- the query has none.
abbrev pub IsBoundTo : Message → Message → Type 0
IsBoundTo q r =
    (r.id ≡ q.id)
    × (r.message_type ≡ MessageType.response)
    × (r.op_code ≡ q.op_code)
    × (r.recursion_desired ≡ q.recursion_desired)
    × (r.checking_disabled ≡ q.checking_disabled)
    × (r.queries ≡ q.queries)
    × (q.edns ≡ none → r.edns ≡ none)

rebind_response-IsBound : (H : Hickory) (resp q : Message) → IsBoundTo q (rebind_response H resp q)
unfolding rebind_response
rebind_response-IsBound H resp q = (refl, refl, refl, refl, refl, refl, λ h. ground arith)

with_aliases-IsBound :
    (H : Hickory) (q : Message) (aliases : List (Name × Name)) (r : Message)
    → IsBoundTo q r
    → IsBoundTo q (with_aliases H q aliases r)
unfolding with_aliases
with_aliases-IsBound H q aliases r h =
    elim (Bool-cases (
      not (is_empty aliases)
      && (r.response_code == Rcode.no_error || r.response_code == Rcode.nx_domain))) [
        | inl yes' ↦ ground arith
        | inr other ↦ ground arith
      ]

-- The response that is made for a question, whatever the pipeline answered and rewrote, has the id,
-- the op code, the flags RD and CD and the questions of that message, is marked as a response,
-- and has no EDNS record when the question's message has none.
pub response_for_query-IsBound :
    (H : Hickory) (ctx : QueryContext) (q : Message) (start : ℕ) (r : Message)
    → response_for_query H ctx q start ≡ some r
    → IsBoundTo q r
unfolding response_for_query
response_for_query-IsBound H ctx q start r h = elim (Option-cases ctx.response) [
  | inl absent ↦ absurd (ground arith)
  | inr (resp, present) ↦
      let aliases = drop (min start (length ctx.rewrites)) ctx.rewrites in
      let made : with_aliases H q aliases (rebind_response H resp q) ≡ r = ground arith in
      subst (IsBoundTo q) made (
        with_aliases-IsBound H q aliases (rebind_response H resp q)
          (rebind_response-IsBound H resp q))
]

module _ (H : Hickory) where
  is_alias-cname :
      ((n : Name) → H.name_eq n n ≡ true)
      → (from to : Name) (t : ℕ) (qs : List Query)
      → is_alias H from to (in_class_of H qs (record_cname from t to)) ≡ true
  unfolding is_alias record_cname
  is_alias-cname e from to t [] = ground (arith, e from, e to)
  is_alias-cname e from to t (q ∷ qs) = ground (arith, e from, e to)

  -- Each alias is a record of the list.
  abbrev pub Covers : List Record → List (Name × Name) → Type 0
  Covers answers = All (λ a. any (is_alias H a.0 a.1) answers ≡ true)

  Covers-cons :
      (r : Record) (answers : List Record) (aliases : List (Name × Name))
      → Covers answers aliases
      → Covers (r ∷ answers) aliases
  Covers-cons r answers [] h = tt
  Covers-cons r answers ((from, to) ∷ aliases) (p, h) =
      (ground arith, Covers-cons r answers aliases h)

  alias_records-Covers :
      ((n : Name) → H.name_eq n n ≡ true)
      → (q : Message) (t : ℕ) (answers : List Record) (aliases : List (Name × Name))
      → Covers (alias_records H q t answers aliases ++ answers) aliases
  unfolding alias_records
  alias_records-Covers e q t answers [] = tt
  alias_records-Covers e q t answers ((from, to) ∷ aliases) =
      let rest = alias_records-Covers e q t answers aliases in
      let kept : any (is_alias H from to) answers ≡ true
          → alias_records H q t answers aliases
            ≡ alias_records H q t answers ((from, to) ∷ aliases) =
        λ h. ground arith in
      let added : any (is_alias H from to) answers ≡ false
          → in_class_of H q.queries (record_cname from t to) ∷ alias_records H q t answers aliases
            ≡ alias_records H q t answers ((from, to) ∷ aliases) =
        λ h. ground arith in
      let old = any-append (is_alias H from to) (alias_records H q t answers aliases) answers in
      elim (Bool-cases (any (is_alias H from to) answers)) [
        | inl present ↦
            (ground (arith, old), subst (λ l. Covers (l ++ answers) aliases) (kept present) rest)
        | inr absent ↦ (
          ground (arith, is_alias-cname e from to t q.queries),
          subst (λ l. Covers (l ++ answers) aliases) (added absent)
              (Covers-cons (in_class_of H q.queries (record_cname from t to)) _ aliases rest),
        )
      ]

  -- When names are equal to themselves, a reply without an error or that denies the name carries
  -- every rewriting as an alias record, in front of all the answers that it had, and is not marked as
  -- authenticated if there was a rewriting.
  pub with_aliases-Covers :
      ((n : Name) → H.name_eq n n ≡ true)
      → (q : Message) (aliases : List (Name × Name)) (resp : Message)
      → resp.response_code == Rcode.no_error || resp.response_code == Rcode.nx_domain ≡ true
      → Covers (with_aliases H q aliases resp).answers aliases
        × ((new : List Record) × ((with_aliases H q aliases resp).answers ≡ new ++ resp.answers))
        × (is_empty aliases ≡ false → (with_aliases H q aliases resp).authentic_data ≡ false)
  unfolding with_aliases
  with_aliases-Covers e q [] resp h = (tt, ([], refl), λ b. ground arith)
  with_aliases-Covers e q (a ∷ aliases) resp h =
      let same : (with_aliases H q (a ∷ aliases) resp).answers
          ≡ alias_records H q (min_ttl resp) resp.answers (a ∷ aliases) ++ resp.answers =
        ground arith in
      (
        subst (λ l. Covers l (a ∷ aliases)) (sym same)
            (alias_records-Covers e q (min_ttl resp) resp.answers (a ∷ aliases)),
        (alias_records H q (min_ttl resp) resp.answers (a ∷ aliases), same),
        λ b. ground arith,
      )

  -- When a query that was not rewritten before is redirected to another name and then answered
  -- without an error by records that hold no alias between the two names, the final reply asks the
  -- original question again, and its answers are the alias from the name asked to the new name, with
  -- the least TTL of the answer, followed by those records.
  pub finalize_response-rewrite_name :
      (ctx : QueryContext) (q : Query) (qs : List Query) (target : Name) (resp : Message)
      → ctx.rewrites ≡ []
      → ctx.original ≡ ctx.query
      → ctx.query.queries ≡ q ∷ qs
      → H.name_eq q.name (H.set_fqdn target) ≡ false
      → resp.response_code ≡ Rcode.no_error
      → any (is_alias H q.name (H.set_fqdn target)) resp.answers ≡ false
      → (r : Message) × ((finalize_response H
            (set_response (rewrite_name H ctx target) resp)).response
          ≡ some r)
        × (r.queries ≡ ctx.query.queries)
        × (r.answers
            ≡ in_class_of H (q ∷ qs) (record_cname q.name (min_ttl resp) (H.set_fqdn target))
              ∷ resp.answers)
  unfolding finalize_response response_for_query with_aliases rebind_response set_response
      rewrite_name alias_records min_ttl
  finalize_response-rewrite_name ctx q qs target resp h original asked differ code new =
      let sent : Message = record resp { id = ctx.query.id; message_type = MessageType.response } in
      let aliases = (q.name, H.set_fqdn target) ∷ [] in
      (
        with_aliases H ctx.query aliases (rebind_response H sent ctx.query),
        ground arith,
        ground arith,
        ground arith,
      )
