-- ===== src/Runtime/Graph/Chains.antt =====
-- runtime.rs: the chains of calls between the plugins.
use ferrumdns.Base.{
  ℕ, suc, ◌<◌, ◌≡◌, subst, true, some, List, [], ◌∷◌, Text, teq, teq_iff, All, arith, ok,
  Bool-cases, inl, inr, result-cases,
}
use ferrumdns.Cache.Keys.{mem}
use ferrumdns.Config.Types.{PluginConfig}
use ferrumdns.Runtime.Graph.{
  Edges, Depths, find, max_depth, done, visit_all, collect_edges, check_targets,
  validate_plugin_graph,
}
use ferrumdns.Runtime.Graph.Ranks.{HasDepthBelow, IsRanked, visit_all-IsRanked}

-- A chain of calls that starts at a plugin, with the number of its calls.
pub data Chain (edges : Edges) : Text → ℕ → Type 0 where
  here : (tag : Text) → Chain edges tag 0
  call :
      {tag : Text} {n : ℕ} (target : Text) (calls : List Text)
      → find tag edges ≡ some calls
      → mem target calls ≡ true
      → Chain edges target n
      → Chain edges tag (suc n)

All-mem {κ} : (P : Text → Type κ) (t : Text) (l : List Text) → All P l → mem t l ≡ true → P t
All-mem P t [] h m = absurd (ground arith)
All-mem P t (j ∷ l) (p, h) m = elim (Bool-cases (teq j t)) [
  | inl same ↦ subst P ((teq_iff j t).0 same) p
  | inr differ ↦ All-mem P t l h (ground arith)
]

Chain-lt :
    {edges : Edges} {depths : Depths} {tag : Text} {n : ℕ}
    → IsRanked edges depths
    → Chain edges tag n
    → (d : ℕ) → find tag depths ≡ some d
    → n < d
Chain-lt r (here tag) d h = (r.in_range tag d h).0
Chain-lt {depths} r (call {tag = tag} target calls known m c) d h =
    let (e, found, lt) =
      All-mem (HasDepthBelow depths d) target calls (r.falls tag d calls h known) m in
    omega (arith, Chain-lt r c e found)

IsRanked-nil : (edges : Edges) → IsRanked edges []
unfolding find
IsRanked-nil edges = record {
  in_range = λ t d h. absurd (ground arith);
  falls = λ t d l h. absurd (ground arith);
}

visit_all-Chain-lt :
    (edges : Edges) (tags : List Text) {n : ℕ} {depths : Depths}
    → visit_all edges tags [] ≡ done (ok (n, depths))
    → (tag : Text) (k : ℕ) → mem tag tags ≡ true
    → Chain edges tag k
    → k < max_depth
visit_all-Chain-lt edges tags {n} {depths} h tag k m c =
    let (r, more, ranked) = visit_all-IsRanked edges tags [] depths (IsRanked-nil edges) h in
    let (d, found) = All-mem (λ t. (e : ℕ) × (find t depths ≡ some e)) tag tags ranked m in
    omega (arith, Chain-lt r c d found, r.in_range tag d found)

-- When the check of the plugins succeeds, every chain of calls that starts at a tag which the check
-- has visited makes fewer than 64 calls.
pub validate_plugin_graph-Chain-lt :
    (plugins : List PluginConfig) (order : Edges → List Text) (edges : Edges) {n : ℕ}
    {depths : Depths}
    → collect_edges plugins [] [] ≡ ok edges
    → validate_plugin_graph plugins order ≡ done (ok (n, depths))
    → (tag : Text) (k : ℕ) → mem tag (order edges) ≡ true
    → Chain edges tag k
    → k < max_depth
unfolding validate_plugin_graph
validate_plugin_graph-Chain-lt plugins order edges {n} {depths} collected h tag k m c =
    elim (result-cases (check_targets edges edges)) [
      | inr (tt, good) ↦
          visit_all-Chain-lt edges (order edges) {n = n} {depths = depths} (ground arith) tag k m c
      | inl (e, bad) ↦ absurd (ground arith)
    ]
