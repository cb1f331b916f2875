-- ===== src/Api/Query/Answered.antt =====
-- api.rs: how a query through the API ends.
use ferrumdns.Api.Query.Prepared.{Accepted, IsBad, IsReady, IsPrepared, prepare-IsPrepared}
use ferrumdns.Api.Query.{
  QueryReq, Answer, refused, answered, plain_entry, prepare, handle_query, query, response_of,
}
use ferrumdns.Base.{ℕ, ◌≡◌, ◌⊎◌, refl, subst, inl, inr, Option, some, List, Text, ok, result-cases}
use ferrumdns.Context.{QueryContext, begin_pipeline}
use ferrumdns.Dns.{Rdata, Hickory}
use ferrumdns.Ecs.Address.{Networks}
use ferrumdns.Metrics.{Metrics}
use ferrumdns.Server.Handle.{Pipelines, Ending, Served, after_pipeline, complete, handle}

module _ (H : Hickory) (N : Networks) {P : Type 0} (pipelines : Pipelines P) (id : ℕ)
    (default : Option Text) (req : QueryReq) (data_text : Rdata → Text) (caches : List Text)
    (us : ℕ) (s : P) (m : Metrics) where
  -- What a pipeline that begins at an entry on a context serves.
  abbrev pub served_by : (QueryContext → P → Ending P) → QueryContext → Text → Served P
  served_by p ctx entry =
      let (ctx', s') = after_pipeline (p (begin_pipeline ctx entry) s) in complete H us ctx' s' m

  handle-found :
      (ctx : QueryContext) (entry : Text) (p : QueryContext → P → Ending P)
      → Accepted ctx.query
      → pipelines entry ≡ some p
      → handle H pipelines entry us ctx s m ≡ served_by p ctx entry
  unfolding handle
  handle-found ctx entry p asked found = rw (handle, asked, found) refl

  abbrev asked_for : Answer × P × Metrics
  asked_for = query H N data_text caches pipelines id default req us s m

  -- The response that describes the context in which the pipeline ends, with what it leaves.
  abbrev pub told : Served P → Answer × P × Metrics
  told r = (answered (response_of H N data_text caches r.context), r.state, r.metrics)

  ready-told :
      (ctx : QueryContext) (entry : Text)
      → prepare H N pipelines id default req ≡ ok (ctx, entry)
      → plain_entry entry ≡ entry
      → (ready : IsReady H N pipelines id default req ctx entry)
      → asked_for ≡ told (served_by ready.pipeline ctx entry)
  unfolding query handle_query complete
  ready-told ctx entry e plain ready =
      rw (query, e, plain, handle-found ctx entry ready.pipeline ready.accepted ready.found) refl

  -- A query through the API is refused as a bad request, which changes nothing, only if its type, its
  -- name, its subnet or its client cannot be read, or it names no entry and there is no default one,
  -- or there is no pipeline at its entry. Or else it is answered: the pipeline at the entry that it
  -- names, or at the default one, runs as on a listener's query, on a context with the question, the
  -- subnet and the client of the request, and with a trace; the answer describes the context in which
  -- that ends, and the state and the counters are those that it leaves. So it never ends with the
  -- status 502. That is when the plugins have tags without `$` in front and white space around them.
  pub query-IsAnswered :
      ((entry : Text) (p : QueryContext → P → Ending P)
        → pipelines entry ≡ some p
        → plain_entry entry ≡ entry)
      → (IsBad H N pipelines id default req
          × (query H N data_text caches pipelines id default req us s m ≡ (refused 400, s, m)))
        ⊎ ((ctx : QueryContext) × (entry : Text) × (ready : IsReady H N pipelines id default req ctx
              entry)
            × (query H N data_text caches pipelines id default req us s m
                ≡ told (served_by ready.pipeline ctx entry)))
  unfolding query
  query-IsAnswered plain = elim (result-cases (prepare H N pipelines id default req)) [
    | inl (e, bad) ↦ inl (
      subst (IsPrepared H N pipelines id default req) bad
          (prepare-IsPrepared H N pipelines id default req),
      rw (query, bad) refl,
    )
    | inr ((ctx, entry), made) ↦
        let ready : IsReady H N pipelines id default req ctx entry =
          subst (IsPrepared H N pipelines id default req) made
            (prepare-IsPrepared H N pipelines id default req) in
        inr (
          ctx,
          entry,
          ready,
          ready-told ctx entry made (plain entry ready.pipeline ready.found) ready,
        )
  ]
