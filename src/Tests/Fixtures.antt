-- ===== src/Tests/Fixtures.antt =====
-- The inputs of the tests: a query for the address of a name, its reply, and concrete functions in
-- the place of the crates.
use ferrumdns.Base.{
  ℕ, ◌+◌, ◌*◌, true, false, none, some, [], ◌∷◌, map, codes, teq, decimal, if◌then◌else◌, ok,
}
use ferrumdns.Context.{udp, QueryContext}
use ferrumdns.Dns.{Ip, v4, MessageType, Query, Rdata, Record, Message, new_message, Hickory}
use ferrumdns.Ecs.Address.{Networks}
use ferrumdns.Matcher.DomainSet.{Regexes}
use ferrumdns.Plugin.{Action, Outcome, CacheHandle, Registry}
use ferrumdns.Sequence.{plugin, Sequence}

abbrev pub question : Query
question = record { name = codes "www.example"; query_type = 1; query_class = 1 }

abbrev pub request : Message
request = record new_message { id = 7; recursion_desired = true; queries = question ∷ [] }

abbrev pub address : Record
address = record { name = codes "www.example"; dns_class = 1; ttl = 300; rdata = Rdata.a 16909060 }

abbrev pub reply : Message
reply = record new_message {
  id = 7;
  message_type = MessageType.response;
  queries = question ∷ [];
  answers = address ∷ [];
}

-- Messages are written as their id and the TTLs of their answers.
abbrev pub crates : Hickory
crates = record {
  name_eq = teq;
  set_fqdn = λ n. n;
  from_ascii = λ t. some t;
  from_str = λ t. some t;
  payload = λ n. n;
  to_vec = λ m. some (m.id ∷ map (λ r. r.ttl) m.answers);
  from_vec = λ bytes. some reply;
  truncate = λ m. record m { truncated = true; answers = [] };
  type_from_str = λ t. none;
  type_text = decimal;
  class_text = decimal;
  rcode_text = decimal;
  ip_text = λ ip. [];
}

abbrev pub no_regexes : Regexes
no_regexes = record { compiles = λ t. false; is_match = λ t d. false }

abbrev pub host_networks : Networks
host_networks = record {
  parse_ip = λ t. if teq t (codes "1.2.3.4") then some (v4 16909060) else none;
  parse_net = λ t. none;
  net_contains = λ net ip. false;
  network = λ ip prefix. some ip;
}

-- A client at 8.8.8.8.
abbrev pub client : Ip
client = v4 (8 * 16777216 + 8 * 65536 + 8 * 256 + 8)

-- `new_context request (some client) udp`.
abbrev pub start : QueryContext
start = record {
  client_addr = some client;
  protocol = udp;
  query = request;
  original = request;
  response = none;
  marks = [];
  rewrites = [];
  entry_state = none;
  trace = [];
  trace_enabled = false;
  skip_cache = false;
  strip_ecs_on_reply = false;
  served_from_cache = false;
  pipeline_entry = none;
}

abbrev pub answering : QueryContext → ℕ → Outcome ℕ
answering ctx s = (ok Action.accept, record ctx { response = some reply }, s)

abbrev pub passing : QueryContext → ℕ → Outcome ℕ
passing ctx s = (ok Action.continue, ctx, s)

-- A cache that counts its writes.
abbrev pub counting : CacheHandle ℕ
counting = record {
  snapshot = λ ctx. some (record { key = codes "k"; query = ctx.query; rewrite_start = 0 });
  store_lookup = λ ctx look s. s + 1;
}

abbrev pub registry : Registry ℕ
registry = record {
  execs = λ tag.
      if teq tag (codes "cache")
      then some passing
      else if teq tag (codes "answer")
      then some answering
      else none;
  caches = λ tag. if teq tag (codes "cache") then some counting else none;
}

abbrev pub main_sequence : Sequence
main_sequence = record {
  tag = codes "main";
  steps =
      record { matchers = []; exec = plugin (codes "cache") }
      ∷ record { matchers = []; exec = plugin (codes "answer") }
      ∷ [];
}
