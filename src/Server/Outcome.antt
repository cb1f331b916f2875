-- ===== src/Server/Outcome.antt =====
-- server.rs: what `handle` does for every query: its counters, its reply, and failing pipelines.
use ferrumdns.Base.{
  ℕ, ◌≡◌, inl, inr, refl, arith, subst, sym, ◌∙◌, min, length, Bool, true, false, none, some, List,
  ◌==◌, Text, Bool-cases, Option-cases, ok, err, if◌then◌else◌,
}
use ferrumdns.Base.{drop as drop_first}
use ferrumdns.Context.Rebind.{rebind_response, response_for_query, finalize_response, with_aliases}
use ferrumdns.Context.Reply.{IsBoundTo, response_for_query-IsBound}
use ferrumdns.Context.{QueryContext, begin_pipeline, has_resp, reject, set_response}
use ferrumdns.Dns.OpCode
use ferrumdns.Dns.Rcode
use ferrumdns.Dns.{Name, Message, Hickory}
use ferrumdns.Dnsutil.Subnet.{ecs_of-remove_ecs}
use ferrumdns.Dnsutil.{is_response, accept, classify_incoming, remove_ecs, ecs_of, reply_skeleton}
use ferrumdns.Metrics.{Metrics, fetch_add, observe_query}
use ferrumdns.Server.Handle.{
  Ending, finished, timed_out, Pipelines, after_pipeline, strip_ecs, count_reply, complete, handle,
}

-- Every query is counted once, with the time that it took, and is counted once more either as
-- answered or as dropped.
abbrev pub IsCounted : Bool → ℕ → Metrics → Metrics → Type 0
IsCounted answered us m m' =
    (m'.queries ≡ fetch_add m.queries 1)
    × (m'.latency_us_sum ≡ fetch_add m.latency_us_sum us)
    × (m'.responses ≡ (if answered then fetch_add m.responses 1 else m.responses))
    × (m'.dropped ≡ (if answered then m.dropped else fetch_add m.dropped 1))

observe_query-IsCounted :
    (answered : Bool) (us : ℕ) (m : Metrics)
    → IsCounted answered us m (observe_query (count_reply answered m) us)
unfolding observe_query
observe_query-IsCounted true us m = (refl, refl, refl, refl)
observe_query-IsCounted false us m = (refl, refl, refl, refl)

abbrev pub context_of : {S : Type 0} → Ending S → QueryContext
context_of (finished result ctx s) = ctx
context_of (timed_out ctx s) = ctx

-- The pipeline leaves the message that the client sent alone.
abbrev pub KeepsOriginal : {S : Type 0} → Pipelines S → Type 0
KeepsOriginal {S} pipelines =
    (entry : Text) (p : QueryContext → S → Ending S) (ctx : QueryContext) (s : S)
    → pipelines entry ≡ some p
    → (context_of (p ctx s)).original ≡ ctx.original

remove_ecs-IsBound : (q r : Message) → IsBoundTo q r → IsBoundTo q (remove_ecs r)
unfolding remove_ecs
remove_ecs-IsBound q r (a, b, c, d, e, f, g) = (a, b, c, d, e, f, λ h. ground (arith, g h))

begin_pipeline-original :
    (ctx : QueryContext) (entry : Text) → (begin_pipeline ctx entry).original ≡ ctx.original
unfolding begin_pipeline
begin_pipeline-original ctx entry = elim (Option-cases ctx.entry_state) [
  | inl absent ↦ ground arith
  | inr (e, present) ↦ ground arith
]

with_aliases-code :
    (H : Hickory) (q : Message) (aliases : List (Name × Name)) (resp : Message)
    → (with_aliases H q aliases resp).response_code ≡ resp.response_code
unfolding with_aliases
with_aliases-code H q aliases resp = ground arith

module _ (H : Hickory) {S : Type 0} where
  after_pipeline-original : (e : Ending S) → (after_pipeline e).0.original ≡ (context_of e).original
  unfolding after_pipeline reject set_response
  after_pipeline-original (finished (ok a) ctx s) = refl
  after_pipeline-original (finished (err e) ctx s) = ground arith
  after_pipeline-original (timed_out ctx s) = refl

  -- A query that is served without an error is completed from some context.
  handle-complete :
      (pipelines : Pipelines S) (entry : Text) (us : ℕ) (ctx : QueryContext) (s : S) (m : Metrics)
      → is_response ctx.query ≡ false
      → (handle H pipelines entry us ctx s m).result ≡ ok tt
      → (ctx' : QueryContext) × (s' : S) × (handle H pipelines entry us ctx s m
          ≡ complete H us ctx' s' m)
        × (KeepsOriginal pipelines → ctx'.original ≡ ctx.original)
  unfolding handle classify_incoming reject set_response
  handle-complete pipelines entry us ctx s m new fine =
      elim (Bool-cases (ctx.query.op_code == OpCode.query)) [
        | inr other ↦ (reject ctx Rcode.not_imp, s, ground arith, λ k. refl)
        | inl asks ↦ elim (Option-cases (pipelines entry)) [
          | inl absent ↦ absurd (ground arith)
          | inr (p, present) ↦
              let e = p (begin_pipeline ctx entry) s in
              (
                (after_pipeline e).0,
                (after_pipeline e).1,
                ground arith,
                λ k. ground (
                  arith,
                  after_pipeline-original e,
                  k entry p (begin_pipeline ctx entry) s present,
                  begin_pipeline-original ctx entry,
                ),
              )
        ]
      ]

  complete-IsCounted :
      (us : ℕ) (c : QueryContext) (t : S) (m : Metrics)
      → IsCounted (has_resp (complete H us c t m).context) us m (complete H us c t m).metrics
  unfolding complete
  complete-IsCounted us c t m =
      observe_query-IsCounted (has_resp (strip_ecs (finalize_response H c))) us m

  -- A message that is not a response and is served without an error counts as one query with the time
  -- that it took, and counts once more, as a response when the final context holds a reply and as
  -- dropped when it does not; counters wrap at 64 bits.
  pub handle-IsCounted :
      (pipelines : Pipelines S) (entry : Text) (us : ℕ) (ctx : QueryContext) (s : S) (m : Metrics)
      → is_response ctx.query ≡ false
      → (handle H pipelines entry us ctx s m).result ≡ ok tt
      → IsCounted
          (has_resp (handle H pipelines entry us ctx s m).context)
          us
          m
          (handle H pipelines entry us ctx s m).metrics
  handle-IsCounted pipelines entry us ctx s m new fine =
      let (ctx', s', done', keeps) = handle-complete pipelines entry us ctx s m new fine in
      subst (λ v. IsCounted (has_resp v.context) us m v.metrics) (sym done')
        (complete-IsCounted us ctx' s' m)

  complete-IsBound :
      (us : ℕ) (ctx : QueryContext) (s : S) (m : Metrics) (r : Message)
      → (complete H us ctx s m).context.response ≡ some r
      → IsBoundTo ctx.original r × (ctx.strip_ecs_on_reply ≡ true → ecs_of r ≡ none)
  unfolding complete finalize_response remove_ecs
  complete-IsBound us ctx s m r h = elim (Option-cases (response_for_query H ctx ctx.original 0)) [
    | inl absent ↦ absurd (ground arith)
    | inr (made, present) ↦
        let bound = response_for_query-IsBound H ctx ctx.original 0 made present in
        elim (Bool-cases ctx.strip_ecs_on_reply) [
          | inr keep ↦
              let same : made ≡ r = ground arith in
              (subst (IsBoundTo ctx.original) same bound, λ b. ground arith)
          | inl strip ↦
              let same : remove_ecs made ≡ r = ground arith in
              (
                subst (IsBoundTo ctx.original) same (remove_ecs-IsBound ctx.original made bound),
                λ b. subst (λ v. ecs_of v ≡ none) same (ecs_of-remove_ecs made),
              )
        ]
  ]

  -- When a query is completed from a context that asks for it, the reply carries no client subnet.
  pub complete-ecs_of :
      (us : ℕ) (ctx : QueryContext) (s : S) (m : Metrics) (r : Message)
      → ctx.strip_ecs_on_reply ≡ true
      → (complete H us ctx s m).context.response ≡ some r
      → ecs_of r ≡ none
  complete-ecs_of us ctx s m r strip h = (complete-IsBound us ctx s m r h).1 strip

  -- The reply to a message that is not a response, when it is served without an error, answers what
  -- the client sent, if the pipelines leave that message alone: it is a response, its id, its op code,
  -- its flags RD and CD and its questions are the client's, and it has no EDNS record when the client
  -- sent none.
  pub handle-IsBound :
      (pipelines : Pipelines S) (entry : Text) (us : ℕ) (ctx : QueryContext) (s : S) (m : Metrics)
      (r : Message)
      → KeepsOriginal pipelines
      → is_response ctx.query ≡ false
      → (handle H pipelines entry us ctx s m).result ≡ ok tt
      → (handle H pipelines entry us ctx s m).context.response ≡ some r
      → IsBoundTo ctx.original r
  handle-IsBound pipelines entry us ctx s m r keep new fine h =
      let (ctx', s', done', keeps) = handle-complete pipelines entry us ctx s m new fine in
      let h' : (complete H us ctx' s' m).context.response ≡ some r =
        subst (λ v. v.context.response ≡ some r) done' h in
      subst (λ o. IsBoundTo o r) (keeps keep) (complete-IsBound us ctx' s' m r h').0

  complete-code :
      (us : ℕ) (ctx : QueryContext) (s : S) (m : Metrics) (resp : Message)
      → ctx.response ≡ some resp
      → (r : Message) × ((complete H us ctx s m).context.response ≡ some r)
        × (r.response_code ≡ resp.response_code)
  unfolding complete finalize_response response_for_query rebind_response remove_ecs
  complete-code us ctx s m resp h =
      let made =
        with_aliases H ctx.original (drop_first (min 0 (length ctx.rewrites)) ctx.rewrites)
          (rebind_response H resp ctx.original) in
      let code =
        with_aliases-code H ctx.original (drop_first (min 0 (length ctx.rewrites)) ctx.rewrites)
          (rebind_response H resp ctx.original) in
      elim (Bool-cases ctx.strip_ecs_on_reply) [
        | inr keep ↦ (made, ground arith, ground (arith, code))
        | inl strip ↦ (remove_ecs made, ground arith, ground (arith, code))
      ]

  -- What a pipeline leaves when it cannot answer: it was cut off, or it failed without a response.
  abbrev pub IsFailed : Ending S → Type 0
  IsFailed (finished (ok a) ctx s) = ⊥
  IsFailed (finished (err e) ctx s) = ctx.response ≡ none
  IsFailed (timed_out ctx s) = Unit {0}

  after_pipeline-failed :
      (e : Ending S)
      → IsFailed e
      → (resp : Message) × ((after_pipeline e).0.response ≡ some resp)
        × (resp.response_code ≡ Rcode.serv_fail)
  unfolding after_pipeline reject set_response reply_skeleton
  after_pipeline-failed (finished (ok a) ctx s) h = absurd h
  after_pipeline-failed (finished (err e) ctx s) h =
      let failed = reject ctx Rcode.serv_fail in
      let made : failed.response ≡ (after_pipeline {S = S} (finished (err e) ctx s)).0.response =
        ground arith in
      (_, sym made ∙ refl, refl)
  after_pipeline-failed (timed_out ctx s) h = (_, refl, refl)

  complete-ok :
      (us : ℕ) (c : QueryContext) (t : S) (m : Metrics) → (complete H us c t m).result ≡ ok tt
  unfolding complete
  complete-ok us c t m = refl

  -- When the pipeline of a standard query is cut off by the timeout, or fails without a response, the
  -- query is still served without an error, and its reply says SERVFAIL.
  pub handle-servfail :
      (pipelines : Pipelines S) (entry : Text) (us : ℕ) (ctx : QueryContext) (s : S) (m : Metrics)
      (p : QueryContext → S → Ending S)
      → classify_incoming ctx.query ≡ accept
      → pipelines entry ≡ some p
      → IsFailed (p (begin_pipeline ctx entry) s)
      → ((handle H pipelines entry us ctx s m).result ≡ ok tt)
        × ((r : Message) × ((handle H pipelines entry us ctx s m).context.response ≡ some r)
            × (r.response_code ≡ Rcode.serv_fail))
  unfolding handle
  handle-servfail pipelines entry us ctx s m p standard present failed =
      let (resp, answered, code) = after_pipeline-failed (p (begin_pipeline ctx entry) s) failed in
      let e = after_pipeline (p (begin_pipeline ctx entry) s) in
      let (r, found, same) = complete-code us e.0 e.1 m resp answered in
      let whole : handle H pipelines entry us ctx s m ≡ complete H us e.0 e.1 m = ground arith in
      subst
        (λ v.
          (v.result ≡ ok tt)
          × ((r : Message) × (v.context.response ≡ some r) × (r.response_code ≡ Rcode.serv_fail)))
        (sym whole) (complete-ok us e.0 e.1 m, (r, found, same ∙ code))
