-- ===== src/Api/Query/Prepared.antt =====
-- api.rs: the context in which a query through the API is run, and why one is refused.
use ferrumdns.Api.Query.{QueryReq, plain_entry, with_dot, entry_of, client_of, with_spec, prepare}
use ferrumdns.Base.{
  ℕ, ◌≡◌, refl, true, subst, inl, inr, Option, none, some, Text, ok, >>=-eq-ok, ok-eq, ok_or,
  ok_or-eq, result-cases, Option-cases, Error, Result, err, ◌>>=◌, sym, ◌∙◌, some-eq, [], ◌∷◌,
  arith,
}
use ferrumdns.Context.Ask.{build_query}
use ferrumdns.Context.{QueryContext, new_context}
use ferrumdns.Dns.{Ip, Name, class_in, ClientSubnet, Message, Hickory}
use ferrumdns.Dnsutil.Subnet.{ecs_of-set_ecs}
use ferrumdns.Net.{parse_ip}
use ferrumdns.Dnsutil.Codes.{qtype_from_str}
use ferrumdns.Dnsutil.Spec.{parse_ecs_spec}
use ferrumdns.Dnsutil.{accept, classify_incoming, ecs_of, set_ecs}
use ferrumdns.Ecs.Address.{Networks}
use ferrumdns.Server.Handle.{Pipelines, Ending}

abbrev pub Accepted : Message → Type 0
Accepted msg = classify_incoming msg ≡ accept

module _ (H : Hickory) (N : Networks) where
  build_query-Accepted :
      (id : ℕ) (name : Text) (qtype : ℕ) (msg : Message)
      → build_query H id name qtype ≡ ok msg
      → Accepted msg
  unfolding build_query classify_incoming
  build_query-Accepted id name qtype msg h =
      let (n, _, built) = >>=-eq-ok (ok_or (H.from_ascii name) _) _ h in
      subst Accepted (ok-eq built) refl

  with_spec-Accepted :
      (spec : Option Text) (msg msg' : Message)
      → with_spec H N spec msg ≡ ok msg'
      → Accepted msg
      → Accepted msg'
  unfolding set_ecs classify_incoming
  with_spec-Accepted none msg msg' h asked = subst Accepted (ok-eq h) asked
  with_spec-Accepted (some spec) msg msg' h asked =
      let (cs, _, set) = >>=-eq-ok (parse_ecs_spec N spec) _ h in subst Accepted (ok-eq set) asked

  ok_not_err : {A : Type 0} {a : A} {e : Error} → ◌≡◌ {A = Result A} (ok a) (err e) → ⊥
  ok_not_err h = ground arith

  bind-cases :
      {A B : Type 0} (Q : Result B → Type 0) (r : Result A) (f : A → Result B)
      → ((e : Error) → r ≡ err e → Q (err e))
      → ((a : A) → r ≡ ok a → Q (f a))
      → Q (r >>= f)
  bind-cases Q (err e) f bad good = bad e refl
  bind-cases Q (ok a) f bad good = good a refl

  ok_or-absent : {A : Type 0} (o : Option A) (e e' : Error) → ok_or o e ≡ err e' → o ≡ none
  ok_or-absent none e e' h = refl
  ok_or-absent (some a) e e' h = absurd (ground arith)

  -- The entry that a request names, without the `$` in front, or else the default one.
  abbrev pub IsNamed : Option Text → Option Text → Text → Type 0
  IsNamed none default entry = default ≡ some entry
  IsNamed (some raw) default entry = entry ≡ plain_entry raw

  abbrev pub IsClient : Option Text → Option Ip → Type 0
  IsClient none client = client ≡ none
  IsClient (some t) client = (ip : Ip) × (parse_ip t ≡ some ip) × (client ≡ some ip)

  abbrev pub IsSubnet : Option Text → Message → Type 0
  IsSubnet none msg = msg.edns ≡ none
  IsSubnet (some spec) msg =
      (cs : ClientSubnet) × (parse_ecs_spec N spec ≡ ok cs) × (ecs_of msg ≡ some cs)

  entry_of-IsNamed :
      (raw default : Option Text) (entry : Text)
      → entry_of raw default ≡ some entry
      → IsNamed raw default entry
  entry_of-IsNamed none default entry h = h
  entry_of-IsNamed (some raw) default entry h = sym (some-eq _ _ h)

  entry_of_absent :
      (raw default : Option Text) → entry_of raw default ≡ none → (raw ≡ none) × (default ≡ none)
  entry_of_absent none default h = (refl, h)
  entry_of_absent (some raw) default h = absurd (ground arith)

  client_of-IsClient :
      (t : Option Text) (client : Option Ip) → client_of t ≡ ok client → IsClient t client
  client_of-IsClient none client h = sym (ok-eq h)
  client_of-IsClient (some t) client h =
      let (ip, parsed, made) = >>=-eq-ok (ok_or (parse_ip t) _) _ h in
      (ip, ok_or-eq (parse_ip t) _ parsed, sym (ok-eq made))

  client_of-bad :
      (t : Option Text) (e : Error)
      → client_of t ≡ err e
      → (raw : Text) × (t ≡ some raw) × (parse_ip raw ≡ none)
  client_of-bad none e h = absurd (ground arith)
  client_of-bad (some raw) e h = elim (Option-cases (parse_ip raw)) [
    | inl absent ↦ (raw, refl, absent)
    | inr (ip, there) ↦ absurd (ok_not_err (rw there at h))
  ]

  with_spec-IsSubnet :
      (spec : Option Text) (msg msg' : Message)
      → with_spec H N spec msg ≡ ok msg'
      → msg.edns ≡ none
      → IsSubnet spec msg' × (msg'.queries ≡ msg.queries)
  unfolding set_ecs
  with_spec-IsSubnet none msg msg' h bare =
      subst (λ (m : Message). (m.edns ≡ none) × (m.queries ≡ msg.queries)) (ok-eq h) (bare, refl)
  with_spec-IsSubnet (some spec) msg msg' h bare =
      let (cs, parsed, set) = >>=-eq-ok (parse_ecs_spec N spec) _ h in
      subst (λ (m : Message). IsSubnet (some spec) m × (m.queries ≡ msg.queries)) (ok-eq set)
        ((cs, parsed, ecs_of-set_ecs H msg cs), refl)

  with_spec-bad :
      (spec : Option Text) (msg : Message) (e : Error)
      → with_spec H N spec msg ≡ err e
      → (raw : Text) × (e' : Error) × (spec ≡ some raw) × (parse_ecs_spec N raw ≡ err e')
  with_spec-bad none msg e h = absurd (ground arith)
  with_spec-bad (some raw) msg e h = elim (result-cases (parse_ecs_spec N raw)) [
    | inl (e', bad) ↦ (raw, e', refl, bad)
    | inr (cs, good) ↦ absurd (ok_not_err (rw good at h))
  ]

  build_query-Asks :
      (id : ℕ) (name : Text) (qtype : ℕ) (msg : Message)
      → build_query H id name qtype ≡ ok msg
      → (n : Name) × (H.from_ascii name ≡ some n)
        × (msg.queries ≡ record { name = n; query_type = qtype; query_class = class_in } ∷ [])
        × (msg.edns ≡ none)
  unfolding build_query
  build_query-Asks id name qtype msg h =
      let (n, is, built) = >>=-eq-ok (ok_or (H.from_ascii name) _) _ h in
      (
        n,
        ok_or-eq (H.from_ascii name) _ is,
        subst
            (λ (m : Message).
              m.queries ≡ record { name = n; query_type = qtype; query_class = class_in } ∷ [])
            (ok-eq built) refl,
        subst (λ (m : Message). m.edns ≡ none) (ok-eq built) refl,
      )

  build_query-bad :
      (id : ℕ) (name : Text) (qtype : ℕ) (e : Error)
      → build_query H id name qtype ≡ err e
      → H.from_ascii name ≡ none
  unfolding build_query
  build_query-bad id name qtype e h = elim (Option-cases (H.from_ascii name)) [
    | inl absent ↦ absent
    | inr (n, there) ↦ absurd (ok_not_err (rw there at h))
  ]

  module _ {P : Type 0} (pipelines : Pipelines P) (id : ℕ) (default : Option Text)
      (req : QueryReq) where
    -- Why a request is refused.
    pub data IsBad : Type 0 where
      bad_type : qtype_from_str H req.qtype ≡ none → IsBad
      bad_name : H.from_ascii (with_dot req.name) ≡ none → IsBad
      bad_subnet :
          (spec : Text) (e : Error) → req.ecs ≡ some spec → parse_ecs_spec N spec ≡ err e → IsBad
      bad_client : (t : Text) → req.client_ip ≡ some t → parse_ip t ≡ none → IsBad
      no_entry : req.entry ≡ none → default ≡ none → IsBad
      unknown_entry :
          (entry : Text) → IsNamed req.entry default entry → pipelines entry ≡ none → IsBad

    -- A context that asks what the request asks, with its client and its subnet, and the pipeline at
    -- the entry that it names.
    pub record IsReady (ctx : QueryContext) (entry : Text) : Type 0 where
      pub name : Name
      pub type : ℕ
      pub pipeline : QueryContext → P → Ending P
      pub name_is : H.from_ascii (with_dot req.name) ≡ some name
      pub type_is : qtype_from_str H req.qtype ≡ some type
      pub asks :
          ctx.query.queries ≡ record { name = name; query_type = type; query_class = class_in } ∷ []
      pub original_is : ctx.original ≡ ctx.query
      pub subnet_is : IsSubnet req.ecs ctx.query
      pub client_is : IsClient req.client_ip ctx.client_addr
      pub traced : ctx.trace_enabled ≡ true
      pub accepted : Accepted ctx.query
      pub named : IsNamed req.entry default entry
      pub found : pipelines entry ≡ some pipeline

    abbrev pub IsPrepared : Result (QueryContext × Text) → Type 0
    IsPrepared (err e) = IsBad
    IsPrepared (ok (ctx, entry)) = IsReady ctx entry

    pub prepare-IsPrepared : IsPrepared (prepare H N pipelines id default req)
    unfolding prepare new_context
    prepare-IsPrepared =
        bind-cases IsPrepared (ok_or (qtype_from_str H req.qtype) _) _
          (λ e bad. bad_type (ok_or-absent _ _ e bad))
          λ type type_is.
            bind-cases IsPrepared (build_query H id (with_dot req.name) type) _
              (λ e bad. bad_name (build_query-bad id _ type e bad))
              λ asked built.
                bind-cases IsPrepared (with_spec H N req.ecs asked) _
                  (λ e bad.
                    let (spec, e', given, why) = with_spec-bad req.ecs asked e bad in
                    bad_subnet spec e' given why)
                  λ msg with.
                    bind-cases IsPrepared (client_of req.client_ip) _
                      (λ e bad.
                        let (t, given, why) = client_of-bad req.client_ip e bad in
                        bad_client t given why)
                      λ client client_is.
                        bind-cases IsPrepared (ok_or (entry_of req.entry default) _) _
                          (λ e bad.
                            let (a, b) =
                              entry_of_absent req.entry default (ok_or-absent _ _ e bad) in
                            no_entry a b)
                          λ entry entry_is.
                            bind-cases IsPrepared (ok_or (pipelines entry) _) _
                              (λ e bad.
                                unknown_entry entry
                                  (entry_of-IsNamed req.entry default entry (ok_or-eq _ _ entry_is))
                                  (ok_or-absent _ _ e bad))
                              λ p p_is.
                                let (name, name_is, asks, bare) =
                                  build_query-Asks id _ type asked built in
                                let (subnet, same) =
                                  with_spec-IsSubnet req.ecs asked msg with bare in
                                record {
                                  name = name;
                                  type = type;
                                  pipeline = p;
                                  name_is = name_is;
                                  type_is = ok_or-eq _ _ type_is;
                                  asks = same ∙ asks;
                                  original_is = refl;
                                  subnet_is = subnet;
                                  client_is = client_of-IsClient req.client_ip client client_is;
                                  traced = refl;
                                  accepted =
                                      with_spec-Accepted req.ecs asked msg with
                                        (build_query-Accepted id _ type asked built);
                                  named =
                                      entry_of-IsNamed req.entry default entry
                                        (ok_or-eq _ _ entry_is);
                                  found = ok_or-eq _ _ p_is;
                                }
