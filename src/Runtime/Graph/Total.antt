-- ===== src/Runtime/Graph/Total.antt =====
-- runtime.rs: whether the check of the call graph comes to an end.
use ferrumdns.Base.{
  ℕ, zero, suc, ◌+◌, max, ◌≤◌, ◌<◌, ◌≡◌, refl, false, not, some, List, [], ◌∷◌, Text, teq, any, All,
  length, ltb, leb, config, arith, Result, ok, err, Bool-cases, Option-cases, inl, inr,
  result-cases, subst,
}
use ferrumdns.Cache.Keys.{mem}
use ferrumdns.Config.Types.{PluginConfig}
use ferrumdns.Runtime.Graph.{
  Edges, Depths, find, is_known, max_depth, Visit, out_of_fuel, panic, done, bind_visit,
  visit_targets, keep_depth, visit_plugin, visit_all, check_targets, validate_plugin_graph,
  collect_edges,
}

abbrev pub Answers : Visit → Type 0
Answers v = (r : Result (ℕ × Depths)) × (v ≡ done r)

module _ (edges : Edges) where
  abbrev pub IsKnown : Text → Type 0
  IsKnown tag = (calls : List Text) × (find tag edges ≡ some calls)

  -- Every plugin that is called is in the graph.
  abbrev pub IsClosed : Type 0
  IsClosed = (tag : Text) (calls : List Text) → find tag edges ≡ some calls → All IsKnown calls

  bind_visit-Answers :
      (v : Visit) (k : ℕ → Depths → Visit)
      → Answers v
      → ((d : ℕ) (depths : Depths) → Answers (k d depths))
      → Answers (bind_visit v k)
  bind_visit-Answers out_of_fuel k (r, h) f = absurd (ground arith)
  bind_visit-Answers panic k (r, h) f = absurd (ground arith)
  bind_visit-Answers (done (err e)) k h f = (err e, refl)
  bind_visit-Answers (done (ok (d, depths))) k h f = f d depths

  visit_targets-Answers :
      (call : Text → Depths → Visit)
      → ((t : Text) (depths : Depths) → IsKnown t → Answers (call t depths))
      → (targets : List Text) (depth : ℕ) (depths : Depths) → All IsKnown targets
      → Answers (visit_targets call targets depth depths)
  unfolding visit_targets
  visit_targets-Answers call f [] depth depths h = (ok (depth, depths), refl)
  visit_targets-Answers call f (t ∷ ts) depth depths (known, h) =
      bind_visit-Answers (call t depths) _ (f t depths known)
        (λ d depths'. visit_targets-Answers call f ts (max depth (1 + d)) depths' h)

  keep_depth-Answers : (tag : Text) (d : ℕ) (depths : Depths) → Answers (keep_depth tag d depths)
  keep_depth-Answers tag d depths = elim (Bool-cases (ltb max_depth d)) [
    | inl h ↦ (err (config "plugin call depth exceeds 64"), ground arith)
    | inr h ↦ (ok (d, (tag, d) ∷ depths), ground arith)
  ]

  visit_plugin-Answers :
      (fuel : ℕ) (tag : Text) (active : List Text) (depths : Depths)
      → IsClosed
      → IsKnown tag
      → max_depth < fuel + length active
      → length active ≤ max_depth
      → Answers (visit_plugin edges fuel tag active depths)
  unfolding visit_plugin
  visit_plugin-Answers zero tag active depths closed known enough few = absurd (omega arith)
  visit_plugin-Answers (suc fuel) tag active depths closed (calls, known) enough few =
      elim (Option-cases (find tag depths)) [
        | inr (d, old) ↦ (ok (d, depths), ground arith)
        | inl new ↦ elim (Bool-cases (mem tag active)) [
          | inl cycle ↦ (err (config "plugin reference cycle"), ground arith)
          | inr fresh ↦ elim (Bool-cases (leb max_depth (length active))) [
            | inl deep ↦ (err (config "plugin call depth exceeds 64"), ground arith)
            | inr shallow ↦
                let inner =
                  bind_visit-Answers
                    (visit_targets (λ t ds. visit_plugin edges fuel t (tag ∷ active) ds) calls 1
                      depths)
                    (keep_depth tag)
                    (visit_targets-Answers _
                      (λ t ds k.
                        visit_plugin-Answers fuel t (tag ∷ active) ds closed k (ground arith)
                          (ground arith))
                      calls 1 depths (closed tag calls known))
                    (keep_depth-Answers tag) in
                (inner.0, ground arith)
          ]
        ]
      ]

All-IsKnown :
    (edges : Edges) (calls : List Text)
    → any (λ t. not (is_known edges t)) calls ≡ false
    → All (IsKnown edges) calls
All-IsKnown edges [] h = tt
All-IsKnown edges (t ∷ ts) h = elim (Option-cases (find t edges)) [
  | inl none' ↦ absurd (ground arith)
  | inr known ↦ (known, All-IsKnown edges ts (ground arith))
]

-- The check of the targets.
check_targets-closed :
    (edges rest : Edges)
    → check_targets edges rest ≡ ok tt
    → (tag : Text) (calls : List Text) → find tag rest ≡ some calls
    → All (IsKnown edges) calls
unfolding check_targets find
check_targets-closed edges [] h tag calls e = absurd (ground arith)
check_targets-closed edges ((t, l) ∷ rest) h tag calls e =
    elim (Bool-cases (any (λ t. not (is_known edges t)) l)) [
      | inl bad ↦ absurd (ground arith)
      | inr good ↦ elim (Bool-cases (teq t tag)) [
        | inl same ↦ subst (All (IsKnown edges)) (ground arith) (All-IsKnown edges l good)
        | inr differ ↦ check_targets-closed edges rest (ground arith) tag calls (ground arith)
      ]
    ]

-- The visits of known tags.
visit_all-Answers :
    (edges : Edges) (tags : List Text) (depths : Depths)
    → IsClosed edges
    → All (IsKnown edges) tags
    → Answers (visit_all edges tags depths)
unfolding visit_all
visit_all-Answers edges [] depths closed h = (ok (0, depths), refl)
visit_all-Answers edges (tag ∷ tags) depths closed (known, h) =
    bind_visit-Answers edges (visit_plugin edges (suc max_depth) tag [] depths) _
      (visit_plugin-Answers edges (suc max_depth) tag [] depths closed known (omega arith)
        (omega arith))
      (λ d depths'. visit_all-Answers edges tags depths' closed h)

-- The check of the plugins always gives a verdict, in whatever order it takes the tags of the
-- graph: the bound of 65 nested visits is never met, and no tag without an entry is looked up.
pub validate_plugin_graph-Answers :
    (plugins : List PluginConfig) (order : Edges → List Text)
    → ((edges : Edges) → All (IsKnown edges) (order edges))
    → Answers (validate_plugin_graph plugins order)
unfolding validate_plugin_graph
validate_plugin_graph-Answers plugins order known =
    elim (result-cases (collect_edges plugins [] [])) [
      | inl (e, bad) ↦ (err e, ground arith)
      | inr (edges, collected) ↦ elim (result-cases (check_targets edges edges)) [
        | inl (e, bad) ↦ (err e, ground arith)
        | inr (tt, checked) ↦
            let (r, h) =
              visit_all-Answers edges (order edges) [] (check_targets-closed edges edges checked)
                (known edges) in
            (r, ground arith)
      ]
    ]
