-- ===== src/Tests/Lookups.antt =====
-- Runs of the theorems on rules, hosts, upstreams, backups and the graph of calls.
use ferrumdns.Base.{
  ℕ, suc, ◌<◌, ◌≡◌, refl, true, ◌||◌, none, some, List, [], ◌∷◌, map, Text, codes, any, All, arith,
  Result, ok, if◌then◌else◌, ◌==◌, starts_with, teq, teq_refl, Bool-cases, inl, inr,
}
use ferrumdns.Dns.Rcode
use ferrumdns.Dns.{v4, Message}
use ferrumdns.Fallback.Agreement.{standby}
use ferrumdns.Fallback.Parts.{on_left, on_right}
use ferrumdns.Fallback.{Fallback, Pipeline, done, await, exec_standby, race, run, preferred, settle}
use ferrumdns.Forward.Choice.{chosen, exec-chosen}
use ferrumdns.Forward.{Forward, racers}
use ferrumdns.Forward
use ferrumdns.Hosts.{HostTable, Hosts}
use ferrumdns.Hosts
use ferrumdns.Matcher.DomainSet.Rules.{rule_covers, contains-add_rules}
use ferrumdns.Matcher.DomainSet.{DomainSet, new_set, add_rules, contains}
use ferrumdns.Matcher.Suffix.Cover.{covers, match_labels-insert_labels}
use ferrumdns.Matcher.Suffix.{empty_node, insert_labels, match_labels}
use ferrumdns.Metrics.{new_metrics}
use ferrumdns.Plugin.{Action}
use ferrumdns.Runtime.Graph.Chains.{here, call, validate_plugin_graph-Chain-lt}
use ferrumdns.Runtime.Graph.Total.{Answers, IsKnown, validate_plugin_graph-Answers}
use ferrumdns.Config.Types.{PluginConfig}
use ferrumdns.Runtime.Graph.{Edges, validate_plugin_graph, max_depth, collect_edges, find}
use ferrumdns.Tests.Fixtures.{reply, start, no_regexes}
use ferrumdns.Yaml.{Value, null, string, sequence, mapping, nil, cons, end, entry}

abbrev org : List Text
org = codes "org" ∷ codes "example" ∷ []

abbrev www : List Text
www = codes "org" ∷ codes "example" ∷ codes "www" ∷ []

match_labels-insert_labels_example :
    match_labels www (insert_labels org empty_node) ≡ covers org www || match_labels www empty_node
match_labels-insert_labels_example = match_labels-insert_labels org www empty_node

abbrev raws : List Text
raws = codes "full:a.example" ∷ []

abbrev loaded : DomainSet
loaded = record new_set { full = codes "a.example" ∷ [] }

contains-add_rules_example :
    contains no_regexes (codes "A.example.") loaded
    ≡ any (λ raw. rule_covers no_regexes raw (codes "A.example.")) raws
unfolding add_rules
contains-add_rules_example = contains-add_rules no_regexes (codes "A.example.") raws refl

abbrev forward : Forward
forward = record { tag = codes "forward"; upstreams = codes "u0" ∷ codes "u1" ∷ []; concurrent = 2 }

-- The first upstream refuses; the second one answers.
abbrev answer : ℕ → Result Message
answer i = ok (if i == 0 then record reply { response_code = Rcode.refused } else reply)

exec-chosen_example :
    (Forward.exec forward answer (0 ∷ 1 ∷ []) start new_metrics).0.response
    ≡ chosen start (if racers forward == 1 then answer 0 ∷ [] else map answer (0 ∷ 1 ∷ [])) none
exec-chosen_example = exec-chosen forward answer (0 ∷ 1 ∷ []) start new_metrics

abbrev backup : Fallback
backup = record {
  tag = codes "backup";
  primary = codes "a";
  secondary = codes "b";
  threshold = 500;
  always_standby = true;
}

-- A pipeline that is too slow, and one that is not; each counts in its part of the state.
abbrev slow : Pipeline ℕ
slow ctx =
    await 400 suc
      (λ n. await 900 suc (λ m. done (ok Action.accept) (record ctx { response = some reply })))

abbrev quick : Pipeline ℕ
quick ctx = await 20 suc (λ n.
    await 700 suc (λ m.
      done (ok Action.accept) (record ctx { response = some (record reply { answers = [] }) })))

-- The primary has counted once when its time is over; the backup goes on.
standby_counts : (standby backup slow quick start 0 0).state ≡ (1, 2)
unfolding exec_standby race run preferred settle on_left on_right
standby_counts = refl

abbrev table : HostTable
table = (codes "www.example", v4 1 ∷ []) ∷ []

abbrev hosts : Hosts
hosts = record { tag = codes "hosts"; table = table; ttl = 60 }

-- A sequence that calls a forwarder.
abbrev steps : Value
steps = sequence (cons (mapping (entry (string (codes "exec")) (string (codes "$fwd")) end)) nil)

abbrev plugins : List PluginConfig
plugins =
    record { tag = some (codes "main"); ty = codes "sequence"; args = steps; base_dir = [] }
    ∷ record { tag = some (codes "fwd"); ty = codes "forward"; args = null; base_dir = [] }
    ∷ []

abbrev edges : Edges
edges = (codes "fwd", []) ∷ (codes "main", codes "fwd" ∷ []) ∷ []

abbrev pub key_order : Edges → List Text
key_order = map (λ e. e.0)

All-IsKnown_later :
    (k : Text) (v : List Text) (m : Edges) (ts : List Text)
    → All (IsKnown m) ts
    → All (IsKnown ((k, v) ∷ m)) ts
unfolding find
All-IsKnown_later k v m [] h = tt
All-IsKnown_later k v m (t ∷ ts) ((calls, found), h) = (
  elim (Bool-cases (teq k t)) [ inl same ↦ (v, ground arith) | inr differ ↦ (calls, ground arith) ],
  All-IsKnown_later k v m ts h,
)

pub key_order-IsKnown : (m : Edges) → All (IsKnown m) (key_order m)
unfolding find
key_order-IsKnown [] = tt
key_order-IsKnown ((k, v) ∷ m) =
    ((v, ground (arith, teq_refl k)), All-IsKnown_later k v m (key_order m) (key_order-IsKnown m))

validate_plugin_graph-Answers_example : Answers (validate_plugin_graph plugins key_order)
validate_plugin_graph-Answers_example =
    validate_plugin_graph-Answers plugins key_order key_order-IsKnown

validate_plugin_graph-Chain-lt_example : 1 < max_depth
unfolding collect_edges validate_plugin_graph find teq starts_with
validate_plugin_graph-Chain-lt_example =
    validate_plugin_graph-Chain-lt plugins key_order edges refl refl (codes "main") 1 refl
      (call {tag = codes "main"} (codes "fwd") (codes "fwd" ∷ []) refl refl (here (codes "fwd")))
