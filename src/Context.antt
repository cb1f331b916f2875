-- ===== src/Context.antt =====
-- context.rs: the state of one query in the pipeline. Its number and its clock (`id`, `start`, and
-- the time stamp of a trace event) are only reported, and are left out.
pub mod Rebind
pub mod Answers
pub mod Reply
pub mod Refresh
pub mod Ask
use ferrumdns.Base.{
  ℕ, min, max, ◌≡◌, Bool, true, false, not, ◌&&◌, ◌||◌, Option, none, some, List, [], ◌∷◌, ◌++◌,
  map, Text, codes, ◌==◌, leb, ltb, if◌then◌else◌, length, drop, first, filter, filter_map, any,
  is_empty,
}
use ferrumdns.Dns.Rcode
use ferrumdns.Dns.RecordType
use ferrumdns.Dns.{
  Ip, v4, v6, MessageType, class_in, Name, Query, Rdata, Record, record_type, Edns, Message,
  Hickory,
}
use ferrumdns.Dnsutil.{reply_skeleton, min_ttl, record_cname}

pub data ClientProto : Type 0 where
  udp tcp tls https : ClientProto

pub record EntryState : Type 0 where
  pub query : Message
  pub marks : List ℕ
  pub strip_ecs_on_reply : Bool

pub record TraceEvent : Type 0 where
  pub plugin : Text
  pub event : Text
  pub detail : Text

pub record QueryContext : Type 0 where
  pub client_addr : Option Ip
  pub protocol : ClientProto
  pub query : Message
  pub original : Message
  pub response : Option Message
  pub marks : List ℕ
  pub rewrites : List (Name × Name)
  pub entry_state : Option EntryState
  pub trace : List TraceEvent
  pub trace_enabled : Bool
  pub skip_cache : Bool
  pub strip_ecs_on_reply : Bool
  pub served_from_cache : Bool
  pub pipeline_entry : Option Text

unfoldable pub new_context : Message → Option Ip → ClientProto → QueryContext
new_context q client_addr protocol = record {
  client_addr = client_addr;
  protocol = protocol;
  query = q;
  original = q;
  response = none;
  marks = [];
  rewrites = [];
  entry_state = none;
  trace = [];
  trace_enabled = false;
  skip_cache = false;
  strip_ecs_on_reply = false;
  served_from_cache = false;
  pipeline_entry = none;
}

unfoldable pub set_response : QueryContext → Message → QueryContext
set_response ctx msg = record ctx {
  response = some (record msg { id = ctx.query.id; message_type = MessageType.response });
  served_from_cache = false;
}

unfoldable pub drop_response : QueryContext → QueryContext
drop_response ctx = record ctx { response = none; served_from_cache = false }

unfoldable pub begin_pipeline : QueryContext → Text → QueryContext
begin_pipeline ctx entry = elim ctx.entry_state [
  | some _ ↦ ctx
  | none ↦ record ctx {
    entry_state = some (record {
      query = ctx.query;
      marks = ctx.marks;
      strip_ecs_on_reply = ctx.strip_ecs_on_reply;
    });
    pipeline_entry = some entry;
  }
]

abbrev pub rewrite_count : QueryContext → ℕ
rewrite_count ctx = length ctx.rewrites

abbrev pub has_resp : QueryContext → Bool
has_resp ctx = elim ctx.response [ none ↦ false | some _ ↦ true ]

unfoldable pub qname_str : QueryContext → Text
qname_str ctx = elim (first ctx.query.queries) [ none ↦ codes "." | some q ↦ q.name ]

unfoldable pub qtype : QueryContext → ℕ
qtype ctx = elim (first ctx.query.queries) [ none ↦ RecordType.a | some q ↦ q.query_type ]

-- `marks` is a set: a mark is added once.
unfoldable pub has_mark : QueryContext → ℕ → Bool
has_mark ctx m = any (λ n. n == m) ctx.marks

unfoldable pub add_mark : QueryContext → ℕ → QueryContext
unfolding has_mark
add_mark ctx m = if has_mark ctx m then ctx else record ctx { marks = m ∷ ctx.marks }

unfoldable pub push_trace : QueryContext → Text → Text → Text → QueryContext
push_trace ctx plugin event detail =
    if ctx.trace_enabled
    then record ctx {
      trace = ctx.trace ++ record { plugin = plugin; event = event; detail = detail } ∷ [];
    }
    else ctx

abbrev pub make_response : QueryContext → ℕ → Message
make_response ctx rcode = reply_skeleton ctx.query rcode

unfoldable pub reject : QueryContext → ℕ → QueryContext
unfolding set_response reply_skeleton
reject ctx rcode = set_response ctx (make_response ctx rcode)

unfoldable pub clone_for_lazy : QueryContext → QueryContext
unfolding new_context
clone_for_lazy ctx =
    let c = new_context ctx.original ctx.client_addr ctx.protocol in
    let tagged = record c {
      entry_state = ctx.entry_state;
      pipeline_entry = ctx.pipeline_entry;
      skip_cache = true;
    } in
    elim ctx.entry_state [
      | none ↦ tagged
      | some initial ↦ record tagged {
        query = initial.query;
        marks = initial.marks;
        strip_ecs_on_reply = initial.strip_ecs_on_reply;
      }
    ]

unfoldable pub fork : QueryContext → QueryContext
fork ctx = record ctx { response = none; trace = []; served_from_cache = false }

unfoldable pub absorb : QueryContext → QueryContext → QueryContext
absorb ctx other = record ctx {
  query = other.query;
  response = other.response;
  marks = other.marks;
  rewrites = other.rewrites;
  strip_ecs_on_reply = other.strip_ecs_on_reply;
  skip_cache = other.skip_cache;
  served_from_cache = other.served_from_cache;
  trace = if ctx.trace_enabled then ctx.trace ++ other.trace else ctx.trace;
}
