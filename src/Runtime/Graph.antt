-- ===== src/Runtime/Graph.antt =====
-- runtime.rs: the call graph of the plugins, which is checked before any query runs.
pub mod Ranks
pub mod Chains
pub mod Total
use ferrumdns.Base.{
  ℕ, zero, suc, ◌+◌, max, Bool, true, false, not, ◌||◌, Option, none, some, List, [], ◌∷◌, ◌++◌,
  Text, codes, teq, trim, strip_prefix, starts_with, is_white, any, is_empty, length, ltb, leb, map,
  ◌==◌, if◌then◌else◌, Error, Result, ok, err, ◌>>=◌, config, map_result,
}
use ferrumdns.Actions.{Builtin, parse}
use ferrumdns.Cache.Keys.{mem}
use ferrumdns.Config.Types.{PluginConfig}
use ferrumdns.Fallback
use ferrumdns.Sequence.{RawStep, parse_steps}
use ferrumdns.Yaml.{Value, unwrap_or}

abbrev pub Edges : Type 0
Edges = List (Text × List Text)

abbrev pub Depths : Type 0
Depths = List (Text × ℕ)

abbrev pub tag_of : PluginConfig → Text
tag_of p = unwrap_or p.tag p.ty

-- The call that a step makes, if it makes one.
unfoldable pub step_calls : RawStep → Result (List Text)
unfolding trim strip_prefix parse
step_calls step = elim (strip_prefix (codes "$") (trim step.exec)) [
  | some target ↦ ok (target ∷ [])
  | none ↦ do b ← parse (trim step.exec); ok (elim b [ Builtin.goto target ↦ target ∷ [] | _ ↦ [] ])
]

abbrev concat {ℓ} : {A : Type ℓ} → List (List A) → List A
concat [] = []
concat (l ∷ ls) = l ++ concat ls

unfoldable pub plugin_calls : PluginConfig → Result (List Text)
unfolding step_calls parse_steps Fallback.from_args teq
plugin_calls p =
    if teq p.ty (codes "sequence")
    then (do steps ← parse_steps p.args; calls ← map_result step_calls steps; ok (concat calls))
    else if teq p.ty (codes "fallback")
    then (do f ← Fallback.from_args (tag_of p) p.args; ok (f.primary ∷ f.secondary ∷ []))
    else ok []

abbrev pub is_bad_tag : Text → Bool
is_bad_tag tag = is_empty tag || starts_with (codes "$") tag || any is_white tag

-- The loop over the plugins: the tags that were met, and the edges.
unfoldable pub collect_edges : List PluginConfig → List Text → Edges → Result Edges
unfolding plugin_calls teq
collect_edges [] tags edges = ok edges
collect_edges (p ∷ ps) tags edges =
    let tag = tag_of p in
    let skip = collect_edges ps (tag ∷ tags) edges in
    let add = plugin_calls p >>= λ calls. collect_edges ps (tag ∷ tags) ((tag, calls) ∷ edges) in
    if is_bad_tag tag
    then err (config "invalid plugin tag")
    else if mem tag tags
    then err (config "duplicate plugin tag")
    else if teq p.ty (codes "domain_set") || teq p.ty (codes "ip_set")
    then skip
    else add

unfoldable pub find {ℓ} : {A : Type ℓ} → Text → List (Text × A) → Option A
find key [] = none
find key ((k, v) ∷ m) = if teq k key then some v else find key m

-- Every call names a plugin of the graph.
abbrev pub is_known : Edges → Text → Bool
is_known edges target = elim (find target edges) [ none ↦ false | some _ ↦ true ]

unfoldable pub check_targets : Edges → Edges → Result (Unit {0})
unfolding find
check_targets edges [] = ok tt
check_targets edges ((tag, calls) ∷ rest) =
    let later = check_targets edges rest in
    if any (λ t. not (is_known edges t)) calls
    then err (config "plugin references unknown executable")
    else later

abbrev pub max_depth : ℕ
max_depth = 64

-- What a visit comes to. `panic` is the index `edges[tag]` at a missing tag.
pub data Visit : Type 0 where
  out_of_fuel panic : Visit
  done : Result (ℕ × Depths) → Visit

abbrev pub bind_visit : Visit → (ℕ → Depths → Visit) → Visit
bind_visit out_of_fuel k = out_of_fuel
bind_visit panic k = panic
bind_visit (done (err e)) k = done (err e)
bind_visit (done (ok (depth, depths))) k = k depth depths

-- The loop over the targets of a plugin.
unfoldable pub visit_targets : (Text → Depths → Visit) → List Text → ℕ → Depths → Visit
visit_targets call [] depth depths = done (ok (depth, depths))
visit_targets call (target ∷ targets) depth depths =
    bind_visit (call target depths)
      (λ d depths'. visit_targets call targets (max depth (1 + d)) depths')

-- The end of a visit: the depth is checked and kept.
abbrev pub keep_depth : Text → ℕ → Depths → Visit
keep_depth tag depth depths =
    if ltb max_depth depth
    then done (err (config "plugin call depth exceeds 64"))
    else done (ok (depth, (tag, depth) ∷ depths))

-- `visit_plugin`; the list of active tags has the last one first.
unfoldable pub visit_plugin : Edges → ℕ → Text → List Text → Depths → Visit
unfolding visit_targets find
visit_plugin edges zero tag active depths = out_of_fuel
visit_plugin edges (suc fuel) tag active depths = elim (find tag depths) [
  | some depth ↦ done (ok (depth, depths))
  | none ↦
      if mem tag active
      then done (err (config "plugin reference cycle"))
      else if leb max_depth (length active)
      then done (err (config "plugin call depth exceeds 64"))
      else elim (find tag edges) [
        | none ↦ panic
        | some calls ↦
            bind_visit
              (visit_targets (λ t ds. visit_plugin edges fuel t (tag ∷ active) ds) calls 1 depths)
              (keep_depth tag)
      ]
]

-- The last loop of `validate_plugin_graph`, over the keys in any order.
unfoldable pub visit_all : Edges → List Text → Depths → Visit
unfolding visit_plugin
visit_all edges [] depths = done (ok (0, depths))
visit_all edges (tag ∷ tags) depths =
    bind_visit (visit_plugin edges (suc max_depth) tag [] depths)
      (λ d depths'. visit_all edges tags depths')

unfoldable pub validate_plugin_graph : List PluginConfig → (Edges → List Text) → Visit
unfolding collect_edges check_targets visit_all
validate_plugin_graph plugins order = elim (collect_edges plugins [] []) [
  | err e ↦ done (err e)
  | ok edges ↦ elim (check_targets edges edges) [
    | err e ↦ done (err e)
    | ok _ ↦ visit_all edges (order edges) []
  ]
]
