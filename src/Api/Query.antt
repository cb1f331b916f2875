-- ===== src/Api/Query.antt =====
-- api.rs: a query that is made through the API, and `Runtime::handle_query`. The time that it takes and
-- the answers in the format of debugging are left out.
pub mod Answered
pub mod Prepared
use ferrumdns.Base.{
  ℕ, Bool, true, false, ◌&&◌, ◌||◌, Option, none, some, List, [], ◌∷◌, ◌++◌, Text, codes, teq,
  ends_with, map, any, trim, trim_start_by, if◌then◌else◌, Result, ok, err, ◌>>=◌, ok_or, config,
  unknown_tag,
}
use ferrumdns.Config.Lift.{strip_dollars}
use ferrumdns.Context.{https, TraceEvent, QueryContext, new_context}
use ferrumdns.Context.Ask.{build_query}
use ferrumdns.Dns.{Ip, Rdata, Record, record_type, Message, Hickory}
use ferrumdns.Dnsutil.Codes.{qtype_from_str}
use ferrumdns.Dnsutil.Spec.{parse_ecs_spec}
use ferrumdns.Dnsutil.{ecs_of, ecs_label, set_ecs}
use ferrumdns.Ecs.Address.{Networks}
use ferrumdns.Metrics.{Metrics}
use ferrumdns.Net.{parse_ip}
use ferrumdns.Server.Handle.{Pipelines, Served, handle}
use ferrumdns.Yaml.{or_else}

pub record QueryReq : Type 0 where
  pub name : Text
  pub qtype : Text
  pub entry : Option Text
  pub ecs : Option Text
  pub client_ip : Option Text

pub record QueryRecord : Type 0 where
  pub name : Text
  pub ttl : ℕ
  pub record_type : Text
  pub rdata : Text

pub record QueryResp : Type 0 where
  pub rcode : Text
  pub records : List QueryRecord
  pub cache_hit : Bool
  pub ecs : Option Text
  pub trace : List TraceEvent

-- A status of an error, or the response.
pub data Answer : Type 0 where
  refused : ℕ → Answer
  answered : QueryResp → Answer

abbrev pub plain_entry : Text → Text
plain_entry entry = strip_dollars (trim entry)

abbrev pub with_dot : Text → Text
with_dot name = if ends_with (codes ".") name then name else name ++ codes "."

abbrev pub entry_of : Option Text → Option Text → Option Text
entry_of none default = default
entry_of (some entry) default = some (plain_entry entry)

abbrev pub client_of : Option Text → Result (Option Ip)
client_of none = ok none
client_of (some t) = do ip ← ok_or (parse_ip t) (config "bad client_ip"); ok (some ip)

module _ (H : Hickory) (N : Networks) where
  abbrev pub with_spec : Option Text → Message → Result Message
  with_spec none msg = ok msg
  with_spec (some spec) msg = do cs ← parse_ecs_spec N spec; ok (set_ecs H msg cs)

  -- The context of the query and its entry; each error gives the status of a bad request.
  unfoldable pub prepare :
      {P : Type 0} → Pipelines P → ℕ → Option Text → QueryReq → Result (QueryContext × Text)
  unfolding qtype_from_str build_query parse_ecs_spec set_ecs parse_ip ends_with trim trim_start_by
      new_context
  prepare pipelines id default req = do
    qtype ← ok_or (qtype_from_str H req.qtype) (config "bad qtype")
    asked ← build_query H id (with_dot req.name) qtype
    msg ← with_spec req.ecs asked
    client ← client_of req.client_ip
    entry ← ok_or (entry_of req.entry default) (config "no entry")
    _ ← ok_or (pipelines entry) (unknown_tag entry)
    ok (record (new_context msg client https) { trace_enabled = true }, entry)

  unfoldable pub handle_query :
      {P : Type 0} → Pipelines P → Text → ℕ → QueryContext → P → Metrics → Served P
  unfolding handle trim trim_start_by
  handle_query pipelines entry us ctx s m = handle H pipelines (plain_entry entry) us ctx s m

  module _ (data_text : Rdata → Text) (caches : List Text) where
    abbrev pub record_of : Record → QueryRecord
    record_of r = record {
      name = r.name;
      ttl = r.ttl;
      record_type = H.type_text (record_type r);
      rdata = data_text r.rdata;
    }

    abbrev pub rcode_of : Option Message → Text
    rcode_of none = codes "SERVFAIL"
    rcode_of (some r) = H.rcode_text r.response_code

    abbrev pub records_of : Option Message → List QueryRecord
    records_of none = []
    records_of (some r) = map record_of r.answers

    abbrev pub is_hit : TraceEvent → Bool
    is_hit t =
        (teq t.event (codes "hit") || teq t.event (codes "lazy_hit")) && any (teq t.plugin) caches

    abbrev pub subnet_text : Message → Option Text
    subnet_text msg = elim (ecs_of msg) [ none ↦ none | some cs ↦ some (ecs_label H (some cs)) ]

    abbrev pub response_of : QueryContext → QueryResp
    response_of ctx = record {
      rcode = rcode_of ctx.response;
      records = records_of ctx.response;
      cache_hit = any is_hit ctx.trace;
      ecs = subnet_text ctx.query;
      trace = ctx.trace;
    }

    abbrev pub report : Result (Unit {0}) → QueryContext → Answer
    report (err e) ctx = refused 502
    report (ok _) ctx = answered (response_of ctx)

    unfoldable pub query :
        {P : Type 0}
        → Pipelines P
        → ℕ
        → Option Text
        → QueryReq
        → ℕ
        → P
        → Metrics
        → Answer × P × Metrics
    unfolding prepare handle_query ecs_of ecs_label teq
    query pipelines id default req us s m = elim (prepare pipelines id default req) [
      | err e ↦ (refused 400, s, m)
      | ok (ctx, entry) ↦
          let r = handle_query pipelines entry us ctx s m in
          (report r.result r.context, r.state, r.metrics)
    ]
