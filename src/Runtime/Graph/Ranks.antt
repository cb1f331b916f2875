-- ===== src/Runtime/Graph/Ranks.antt =====
-- runtime.rs: the depths that the visits of the call graph give to the plugins.
use ferrumdns.Base.{
  ℕ, zero, suc, ◌+◌, max, ◌≤◌, ◌<◌, ◌≡◌, refl, subst, subst₂, true, false, none, some, List, [],
  ◌∷◌, Text, teq, teq_iff, All, arith, ok, err, Bool-cases, Option-cases, inl, inr, All-weaken,
}
use ferrumdns.Cache.Keys.{mem}
use ferrumdns.Runtime.Graph.{
  Edges, Depths, find, max_depth, Visit, out_of_fuel, panic, done, bind_visit, visit_targets,
  keep_depth, visit_plugin, visit_all,
}

abbrev pub HasDepthBelow : Depths → ℕ → Text → Type 0
HasDepthBelow depths d target = (e : ℕ) × (find target depths ≡ some e) × (e < d)

module _ (edges : Edges) where
  -- A kept depth is in range, and the plugins that are called have smaller ones.
  pub record IsRanked (depths : Depths) : Type 0 where
    pub in_range : (tag : Text) (d : ℕ) → find tag depths ≡ some d → (0 < d) × (d ≤ max_depth)
    pub falls :
        (tag : Text) (d : ℕ) (calls : List Text)
        → find tag depths ≡ some d
        → find tag edges ≡ some calls
        → All (HasDepthBelow depths d) calls

-- A plugin that is being visited has no depth yet.
abbrev pub IsClear : List Text → Depths → Type 0
IsClear active depths = (tag : Text) → mem tag active ≡ true → find tag depths ≡ none

abbrev pub Extends : Depths → Depths → Type 0
Extends depths depths' = (tag : Text) (d : ℕ) → find tag depths ≡ some d → find tag depths' ≡ some d

module _ (edges : Edges) where
  -- What a visit among the active tags keeps and adds.
  pub record Grows (active : List Text) (depths depths' : Depths) : Type 0 where
    pub ranked : IsRanked edges depths'
    pub clear : IsClear active depths'
    pub more : Extends depths depths'

  -- What a visit of a target promises.
  abbrev pub Keeps : List Text → (Text → Depths → Visit) → Type 0
  Keeps active call =
      (target : Text) (depths depths' : Depths) (d : ℕ)
      → IsRanked edges depths
      → IsClear active depths
      → call target depths ≡ done (ok (d, depths'))
      → Grows active depths depths' × (find target depths' ≡ some d)

  Grows-trans :
      {active : List Text} {a b c : Depths} → Grows active a b → Grows active b c → Grows active a c
  Grows-trans g h = record {
    ranked = h.ranked;
    clear = h.clear;
    more = λ tag d e. h.more tag d (g.more tag d e);
  }

  bind_visit-eq-ok :
      (v : Visit) (k : ℕ → Depths → Visit) {d : ℕ} {depths : Depths}
      → bind_visit v k ≡ done (ok (d, depths))
      → (e : ℕ) × (mid : Depths) × (v ≡ done (ok (e, mid))) × (k e mid ≡ done (ok (d, depths)))
  bind_visit-eq-ok out_of_fuel k h = cc
  bind_visit-eq-ok panic k h = cc
  bind_visit-eq-ok (done (err e)) k h = cc
  bind_visit-eq-ok (done (ok (e, mid))) k h = (e, mid, refl, h)

  visit_targets-Grows :
      (active : List Text) (call : Text → Depths → Visit)
      → Keeps active call
      → (targets : List Text) (depth : ℕ) (depths depths' : Depths) (d : ℕ) → IsRanked edges depths
      → IsClear active depths
      → visit_targets call targets depth depths ≡ done (ok (d, depths'))
      → Grows active depths depths' × (depth ≤ d) × All (HasDepthBelow depths' d) targets
  unfolding visit_targets
  visit_targets-Grows active call keeps [] depth depths depths' d r c h =
      let same : depths ≡ depths' = cc in
      (
        record {
          ranked = subst (IsRanked edges) same r;
          clear = subst (IsClear active) same c;
          more = λ tag e f. subst (λ ds. find tag ds ≡ some e) same f;
        },
        ground arith,
        tt,
      )
  visit_targets-Grows active call keeps (target ∷ targets) depth depths depths' d r c h =
      let (e, mid, here, rest) = bind_visit-eq-ok (call target depths) _ h in
      let (g, found) = keeps target depths mid e r c here in
      let (g', le, below) =
        visit_targets-Grows active call keeps targets (max depth (1 + e)) mid depths' d g.ranked
          g.clear rest in
      (Grows-trans g g', omega arith, ((e, g'.more target e found, omega arith), below))

  module _ (tag : Text) (d : ℕ) (mid : Depths) (absent : find tag mid ≡ none) where
    Extends-kept : Extends mid ((tag, d) ∷ mid)
    unfolding find
    Extends-kept t e h = ground (arith, teq_iff tag t)

    below-kept : (c : ℕ) (t : Text) → HasDepthBelow mid c t → HasDepthBelow ((tag, d) ∷ mid) c t
    below-kept c t (e, found, lt) = (e, Extends-kept t e found, lt)

    find-kept_self : find tag ((tag, d) ∷ mid) ≡ some d
    unfolding find
    find-kept_self = ground (arith, teq_iff tag tag)

    IsRanked-kept :
        (calls : List Text)
        → find tag edges ≡ some calls
        → 0 < d
        → d ≤ max_depth
        → All (HasDepthBelow mid d) calls
        → IsRanked edges mid
        → IsRanked edges ((tag, d) ∷ mid)
    unfolding find
    IsRanked-kept calls known pos le below r = record {
      in_range = λ t e h. elim (Bool-cases (teq tag t)) [
        | inl same ↦ (ground arith, ground arith)
        | inr differ ↦ r.in_range t e (ground arith)
      ];
      falls = λ t e others h k. elim (Bool-cases (teq tag t)) [
        | inl same ↦
            let at : tag ≡ t = (teq_iff tag t).0 same in
            let list : calls ≡ others = ground arith in
            let depth : d ≡ e = ground arith in
            All-weaken others (below-kept e) (
              subst (λ l. All (HasDepthBelow mid e) l) list
                (subst (λ n. All (HasDepthBelow mid n) calls) depth below))
        | inr differ ↦ All-weaken others (below-kept e) (r.falls t e others (ground arith) k)
      ];
    }

    IsClear-kept :
        (active : List Text)
        → mem tag active ≡ false
        → IsClear (tag ∷ active) mid
        → IsClear active ((tag, d) ∷ mid)
    unfolding find
    IsClear-kept active new c t h = ground (arith, teq_iff tag t, c t)

  -- The part of a visit after the checks.
  enter-Keeps :
      (tag : Text) (active calls : List Text) (call : Text → Depths → Visit)
      → Keeps (tag ∷ active) call
      → (depths depths' : Depths) (d : ℕ) → IsRanked edges depths
      → IsClear active depths
      → find tag depths ≡ none
      → mem tag active ≡ false
      → find tag edges ≡ some calls
      → bind_visit (visit_targets call calls 1 depths) (keep_depth tag) ≡ done (ok (d, depths'))
      → Grows active depths depths' × (find tag depths' ≡ some d)
  enter-Keeps tag active calls call keeps depths depths' d r c absent new known h =
      let (e, mid, looped, kept) =
        bind_visit-eq-ok (visit_targets call calls 1 depths) (keep_depth tag) h in
      let inner : IsClear (tag ∷ active) depths = λ t m. ground (arith, teq_iff tag t, c t) in
      let (g, le, below) =
        visit_targets-Grows (tag ∷ active) call keeps calls 1 depths mid e r inner looped in
      let gone : find tag mid ≡ none = g.clear tag (ground (arith, teq_iff tag tag)) in
      let in_range : e ≤ max_depth = ground arith in
      let depth : e ≡ d = ground arith in
      let out : ((tag, e) ∷ mid) ≡ depths' = ground arith in
      subst₂ (λ ds n. Grows active depths ds × (find tag ds ≡ some n)) out depth
        (
          record {
            ranked = IsRanked-kept tag e mid gone calls known le in_range below g.ranked;
            clear = IsClear-kept tag e mid gone active new g.clear;
            more = λ t n found. Extends-kept tag e mid gone t n (g.more t n found);
          },
          find-kept_self tag e mid gone,
        )

  Grows-refl :
      {active : List Text} {depths : Depths}
      → IsRanked edges depths
      → IsClear active depths
      → Grows active depths depths
  Grows-refl r c = record { ranked = r; clear = c; more = λ tag d e. e }

  visit_plugin-Keeps :
      (fuel : ℕ) (active : List Text) → Keeps active (λ t ds. visit_plugin edges fuel t active ds)
  unfolding visit_plugin
  visit_plugin-Keeps zero active tag depths depths' d r c h = cc
  visit_plugin-Keeps (suc fuel) active tag depths depths' d r c h =
      elim (Option-cases (find tag depths)) [
        | inr (e, old) ↦
            subst₂ (λ ds n. Grows active depths ds × (find tag ds ≡ some n)) (ground arith)
              (ground arith) (Grows-refl r c, old)
        | inl absent ↦ elim (Option-cases (find tag edges)) [
          | inl unknown ↦ absurd (ground arith)
          | inr (calls, known) ↦
              enter-Keeps tag active calls (λ t ds. visit_plugin edges fuel t (tag ∷ active) ds)
                (visit_plugin-Keeps fuel (tag ∷ active)) depths depths' d r c absent (ground arith)
                known (ground arith)
        ]
      ]

  pub visit_all-IsRanked :
      (tags : List Text) (depths depths' : Depths) {n : ℕ}
      → IsRanked edges depths
      → visit_all edges tags depths ≡ done (ok (n, depths'))
      → IsRanked edges depths'
        × Extends depths depths'
        × All (λ t. (d : ℕ) × (find t depths' ≡ some d)) tags
  unfolding visit_all
  visit_all-IsRanked [] depths depths' r h =
      let same : depths ≡ depths' = cc in
      (subst (IsRanked edges) same r, subst (Extends depths) same (λ t d e. e), tt)
  visit_all-IsRanked (tag ∷ tags) depths depths' r h =
      let (d, mid, here, rest) =
        bind_visit-eq-ok (visit_plugin edges (suc max_depth) tag [] depths) _ h in
      let (g, found) = visit_plugin-Keeps (suc max_depth) [] tag depths mid d r (λ t m. cc) here in
      let (r', more, ranked) = visit_all-IsRanked tags mid depths' g.ranked rest in
      (r', λ t e k. more t e (g.more t e k), ((d, more tag d found), ranked))
