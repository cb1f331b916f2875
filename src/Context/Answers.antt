-- ===== src/Context/Answers.antt =====
-- context.rs: what the pipeline reads and changes in the answer section.
use ferrumdns.Base.{
  ℕ, Bool, true, false, not, ◌&&◌, Option, none, some, List, [], ◌++◌, map, ◌==◌, ltb,
  if◌then◌else◌, filter, filter_map, any,
}
use ferrumdns.Dns.Rcode
use ferrumdns.Dns.RecordType
use ferrumdns.Dns.{Ip, v4, v6, Rdata, Record, record_type, Message}
use ferrumdns.Dnsutil.{reply_skeleton}
use ferrumdns.Context.{QueryContext, qtype}

abbrev pub ip_of : Record → Option Ip
ip_of r = elim r.rdata [ Rdata.a ip ↦ some (v4 ip) | Rdata.aaaa ip ↦ some (v6 ip) | _ ↦ none ]

unfoldable pub answer_ips : QueryContext → List Ip
answer_ips ctx = elim ctx.response [ none ↦ [] | some resp ↦ filter_map ip_of resp.answers ]

unfoldable pub has_wanted_ans : QueryContext → Bool
unfolding qtype
has_wanted_ans ctx = elim ctx.response [
  | none ↦ false
  | some resp ↦
      resp.response_code == Rcode.no_error && any (λ r. record_type r == qtype ctx) resp.answers
]

abbrev pub map_response : (Message → Message) → QueryContext → QueryContext
map_response f ctx = record ctx {
  response = elim ctx.response [ none ↦ none | some resp ↦ some (f resp) ];
}

-- `clamp(min, max)` where `min ≤ max`.
abbrev pub clamp_ttl : ℕ → ℕ → Record → Record
clamp_ttl lo hi r = record r {
  ttl = if ltb r.ttl lo then lo else if ltb hi r.ttl then hi else r.ttl;
}

unfoldable pub apply_ttl_clamp : QueryContext → ℕ → ℕ → QueryContext
apply_ttl_clamp ctx lo hi =
    map_response
      (λ resp. record resp {
        answers = map (clamp_ttl lo hi) resp.answers;
        name_servers = map (clamp_ttl lo hi) resp.name_servers;
      })
      ctx

unfoldable pub filter_answers : QueryContext → (ℕ → Bool) → QueryContext
filter_answers ctx keep =
    map_response (λ resp. record resp { answers = filter (λ r. keep (record_type r)) resp.answers })
      ctx

unfoldable pub prefer_ipv4 : QueryContext → QueryContext
unfolding filter_answers
prefer_ipv4 ctx = filter_answers ctx (λ t. not (t == RecordType.aaaa))

unfoldable pub prefer_ipv6 : QueryContext → QueryContext
unfolding filter_answers
prefer_ipv6 ctx = filter_answers ctx (λ t. not (t == RecordType.a))

unfoldable pub build_hosts_response : Message → List Record → Message
unfolding reply_skeleton
build_hosts_response q records =
    let msg = reply_skeleton q Rcode.no_error in
    record msg { authoritative = true; answers = msg.answers ++ records }
