-- ===== src/Forward.antt =====
-- plugin/forward.rs: the race between upstreams. What an upstream answers within the timeout is an
-- argument, and so is the order in which the exchanges end.
pub mod Choice
pub mod Setup
use ferrumdns.Base.{
  ℕ, zero, suc, min, max, Bool, true, false, Option, none, some, List, [], ◌∷◌, ◌++◌, map, Text,
  codes, ◌==◌, length, get_elem?, if◌then◌else◌, Result, ok, err, error_text,
}
use ferrumdns.Context.{QueryContext, set_response, push_trace}
use ferrumdns.Dns.{Message}
use ferrumdns.Dnsutil.{is_usable_response}
use ferrumdns.Metrics.{Metrics, fetch_add}
use ferrumdns.Yaml.{unwrap_or}

-- An upstream is its label here.
pub record Forward : Type 0 where
  pub tag : Text
  pub upstreams : List Text
  pub concurrent : ℕ

abbrev pub label_of : Forward → ℕ → Text
label_of f i = unwrap_or (get_elem? f.upstreams i) []

abbrev pub count_ok : Metrics → Metrics
count_ok m = record m { upstream_ok = fetch_add m.upstream_ok 1 }

abbrev pub count_err : Metrics → Metrics
count_err m = record m { upstream_err = fetch_add m.upstream_err 1 }

abbrev pub State : Type 0
State = QueryContext × Metrics

unfoldable pub exec_one : Forward → Result Message → QueryContext → Metrics → State
unfolding is_usable_response set_response push_trace
exec_one f (ok msg) ctx m =
    if is_usable_response msg
    then (set_response (push_trace ctx f.tag (codes "ok") (label_of f 0)) msg, count_ok m)
    else (
      set_response (push_trace ctx f.tag (codes "err") (codes "unusable rcode")) msg,
      count_err m,
    )
exec_one f (err e) ctx m = (push_trace ctx f.tag (codes "err") (error_text e), count_err m)

abbrev pub set_last : Option Message → QueryContext → QueryContext
set_last none ctx = ctx
set_last (some msg) ctx = set_response ctx msg

-- The loop over the exchanges that end, with the last error and the last unusable reply.
unfoldable pub race :
    Forward → List (ℕ × Result Message) → Text → Option Message → QueryContext → Metrics → State
unfolding is_usable_response set_response push_trace
race f [] last_err last_unusable ctx m =
    (push_trace (set_last last_unusable ctx) f.tag (codes "err") last_err, m)
race f ((i, ok msg) ∷ rest) last_err last_unusable ctx m =
    let won : State =
      (set_response (push_trace ctx f.tag (codes "ok") (label_of f i)) msg, count_ok m) in
    let lost : State =
      race f rest (label_of f i ++ codes " unusable rcode") (some msg) ctx (count_err m) in
    if is_usable_response msg then won else lost
race f ((i, err e) ∷ rest) last_err last_unusable ctx m =
    race f rest (error_text e) last_unusable ctx (count_err m)

abbrev pub racers : Forward → ℕ
racers f = max (min f.concurrent (length f.upstreams)) 1

-- `exec`; `order` lists the upstreams `0 … racers f - 1` as their exchanges end.
unfoldable pub exec : Forward → (ℕ → Result Message) → List ℕ → QueryContext → Metrics → State
unfolding exec_one race
exec f answer order ctx m =
    if racers f == 1
    then exec_one f (answer 0) ctx m
    else race f (map (λ i. (i, answer i)) order) (codes "all upstreams failed") none ctx m
