-- ===== src/Context/Rebind.antt =====
-- context.rs: rewriting of the question, and the reply bound to a question, with its aliases.
use ferrumdns.Base.{
  ℕ, min, Bool, false, not, ◌&&◌, ◌||◌, Option, none, some, List, [], ◌∷◌, ◌++◌, ◌==◌,
  if◌then◌else◌, length, drop, first, any, is_empty,
}
use ferrumdns.Dns.Rcode
use ferrumdns.Dns.{MessageType, Name, Query, Rdata, Record, Message, Hickory}
use ferrumdns.Dnsutil.{min_ttl, record_cname}
use ferrumdns.Context.{QueryContext}

-- `questions_mut().first_mut()` given a new name.
abbrev pub rename_first : Name → List Query → List Query
rename_first n [] = []
rename_first n (q ∷ qs) = record q { name = n } ∷ qs

unfoldable pub rebind_response : Hickory → Message → Message → Message
rebind_response H resp q = record resp {
  id = q.id;
  message_type = MessageType.response;
  op_code = q.op_code;
  recursion_desired = q.recursion_desired;
  checking_disabled = q.checking_disabled;
  queries = q.queries;
  edns = elim q.edns [
    | none ↦ none
    | some qe ↦ elim resp.edns [
      | none ↦ none
      | some re ↦
          some (record re { max_payload = H.payload qe.max_payload; dnssec_ok = qe.dnssec_ok })
    ]
  ];
}

module _ (H : Hickory) where
  unfoldable pub rewrite_name : QueryContext → Name → QueryContext
  rewrite_name ctx target =
      let n = H.set_fqdn target in
      elim (first ctx.query.queries) [
        | none ↦ ctx
        | some q ↦ if H.name_eq q.name n then ctx else record ctx {
          rewrites = ctx.rewrites ++ (q.name, n) ∷ [];
          query = record (ctx.query) { queries = rename_first n ctx.query.queries };
        }
      ]

  -- The record is the alias from one name to the other.
  unfoldable pub is_alias : Name → Name → Record → Bool
  is_alias from to r =
      H.name_eq r.name from
      && (elim r.rdata [ Rdata.cname target ↦ H.name_eq target to | _ ↦ false ])

  -- `set_dns_class` by the class of the first question.
  abbrev pub in_class_of : List Query → Record → Record
  in_class_of [] r = r
  in_class_of (q ∷ qs) r = record r { dns_class = q.query_class }

  -- The loop over the aliases.
  unfoldable pub alias_records : Message → ℕ → List Record → List (Name × Name) → List Record
  unfolding is_alias record_cname
  alias_records q t answers [] = []
  alias_records q t answers ((from, to) ∷ aliases) =
      let rest = alias_records q t answers aliases in
      if any (is_alias from to) answers
      then rest
      else in_class_of q.queries (record_cname from t to) ∷ rest

  unfoldable pub with_aliases : Message → List (Name × Name) → Message → Message
  unfolding alias_records min_ttl
  with_aliases q aliases resp =
      if not (is_empty aliases)
        && (resp.response_code == Rcode.no_error || resp.response_code == Rcode.nx_domain)
      then record resp {
        answers = alias_records q (min_ttl resp) resp.answers aliases ++ resp.answers;
        authentic_data = false;
      }
      else resp

  unfoldable pub response_for_query : QueryContext → Message → ℕ → Option Message
  unfolding with_aliases rebind_response
  response_for_query ctx q rewrite_start = elim ctx.response [
    | none ↦ none
    | some resp ↦ some (
        with_aliases q (drop (min rewrite_start (length ctx.rewrites)) ctx.rewrites)
          (rebind_response H resp q))
  ]

  unfoldable pub finalize_response : QueryContext → QueryContext
  unfolding response_for_query
  finalize_response ctx = record ctx { response = response_for_query ctx ctx.original 0 }
