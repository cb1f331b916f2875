-- ===== src/Context/Refresh.antt =====
-- context.rs: the context of a background refresh.
use ferrumdns.Base.{◌≡◌, arith, true, false, none, some, [], Text}
use ferrumdns.Context.{QueryContext, begin_pipeline, clone_for_lazy}

-- What the plugins of a pipeline leave as it was when the pipeline began.
abbrev pub IsFrom : QueryContext → QueryContext → Type 0
IsFrom start ctx =
    (ctx.original ≡ start.original)
    × (ctx.client_addr ≡ start.client_addr)
    × (ctx.protocol ≡ start.protocol)
    × (ctx.entry_state ≡ start.entry_state)
    × (ctx.pipeline_entry ≡ start.pipeline_entry)

-- A context that is as a pipeline at an entry finds one, but reads no cache and writes no trace, and
-- has no response and no rewrites.
abbrev pub restarted : QueryContext → Text → QueryContext
restarted start entry = record {
  client_addr = start.client_addr;
  protocol = start.protocol;
  query = start.query;
  original = start.original;
  response = none;
  marks = start.marks;
  rewrites = [];
  entry_state = some (record {
    query = start.query;
    marks = start.marks;
    strip_ecs_on_reply = start.strip_ecs_on_reply;
  });
  trace = [];
  trace_enabled = false;
  skip_cache = true;
  strip_ecs_on_reply = start.strip_ecs_on_reply;
  served_from_cache = false;
  pipeline_entry = some entry;
}

-- Let a pipeline begin at an entry on any context in which none has begun: one whose question may
-- differ from the client's, and which may have marks and a trace. As long as the pipeline leaves the
-- client's message, address and protocol, its entry and the state there alone, whatever else it
-- changes, the context of a refresh has the question, the marks and the strip flag with which the
-- pipeline began, at the same entry, and the client's message, address and protocol; it reads no
-- cache, its trace is empty and off, and it has no response and no rewrites.
pub clone_for_lazy-begin_pipeline :
    (start : QueryContext) (entry : Text) (ctx : QueryContext)
    → start.entry_state ≡ none
    → IsFrom (begin_pipeline start entry) ctx
    → clone_for_lazy ctx ≡ restarted start entry
unfolding clone_for_lazy begin_pipeline
clone_for_lazy-begin_pipeline start entry ctx fresh (a, b, c, d, e) = ground arith
