-- ===== src/Server/Handle.antt =====
-- server.rs: `handle`. Whether the pipeline ends within the timeout is the plugin's part.
use ferrumdns.Base.{
  ℕ, Bool, true, false, Option, none, some, Text, if◌then◌else◌, Result, ok, err, unknown_tag,
}
use ferrumdns.Context.Rebind.{finalize_response}
use ferrumdns.Context.{QueryContext, begin_pipeline, has_resp, reject}
use ferrumdns.Dns.Rcode
use ferrumdns.Dns.{Hickory}
use ferrumdns.Dnsutil.{drop, not_imp, accept, classify_incoming, remove_ecs}
use ferrumdns.Metrics.{Metrics, fetch_add, observe_query}
use ferrumdns.Plugin.{Action}

-- How a pipeline ends: with a result, or cut off by the timeout. The context keeps what it wrote.
pub data Ending (S : Type 0) : Type 0 where
  finished : Result Action → QueryContext → S → Ending S
  timed_out : QueryContext → S → Ending S

abbrev pub Pipelines : Type 0 → Type 0
Pipelines S = Text → Option (QueryContext → S → Ending S)

pub record Served (S : Type 0) : Type 0 where
  pub result : Result (Unit {0})
  pub context : QueryContext
  pub state : S
  pub metrics : Metrics

-- The context that a pipeline leaves, answered where it failed.
unfoldable pub after_pipeline : {S : Type 0} → Ending S → QueryContext × S
unfolding reject
after_pipeline (finished (ok action) ctx s) = (ctx, s)
after_pipeline (finished (err e) ctx s) =
    if has_resp ctx then (ctx, s) else (reject ctx Rcode.serv_fail, s)
after_pipeline (timed_out ctx s) = (reject ctx Rcode.serv_fail, s)

abbrev pub strip_ecs : QueryContext → QueryContext
strip_ecs ctx =
    if ctx.strip_ecs_on_reply
    then record ctx {
      response = elim ctx.response [ none ↦ none | some resp ↦ some (remove_ecs resp) ];
    }
    else ctx

abbrev pub count_reply : Bool → Metrics → Metrics
count_reply true m = record m { responses = fetch_add m.responses 1 }
count_reply false m = record m { dropped = fetch_add m.dropped 1 }

module _ (H : Hickory) {S : Type 0} where
  -- From the final context to the reply and the counters; `us` is the time that the query took.
  unfoldable pub complete : ℕ → QueryContext → S → Metrics → Served S
  unfolding finalize_response remove_ecs observe_query
  complete us ctx s m =
      let ctx' = strip_ecs (finalize_response H ctx) in
      record {
        result = ok tt;
        context = ctx';
        state = s;
        metrics = observe_query (count_reply (has_resp ctx') m) us;
      }

  unfoldable pub handle : Pipelines S → Text → ℕ → QueryContext → S → Metrics → Served S
  unfolding classify_incoming begin_pipeline reject after_pipeline complete
  handle pipelines entry us ctx s m = elim (classify_incoming ctx.query) [
    | drop ↦ record { result = ok tt; context = ctx; state = s; metrics = m }
    | not_imp ↦ complete us (reject ctx Rcode.not_imp) s m
    | accept ↦ elim (pipelines entry) [
      | none ↦ record {
        result = err (unknown_tag entry);
        context = begin_pipeline ctx entry;
        state = s;
        metrics = m;
      }
      | some pipeline ↦
          let (ctx', s') = after_pipeline (pipeline (begin_pipeline ctx entry) s) in
          complete us ctx' s' m
    ]
  ]
