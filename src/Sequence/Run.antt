-- ===== src/Sequence/Run.antt =====
-- plugin/sequence.rs: `Sequence::run`. The plugins of the registry are functions on the context
-- and on the state `S` that they share; other queries do not run in between.
use ferrumdns.Base.{Bool, none, some, List, [], ◌∷◌, ◌++◌, Text, codes, all, if◌then◌else◌, ok, err}
use ferrumdns.Actions.{apply, label}
use ferrumdns.Context.{QueryContext, push_trace}
use ferrumdns.Dns.{Hickory}
use ferrumdns.Ecs.Address.{Networks}
use ferrumdns.Matcher.DomainSet.{Regexes}
use ferrumdns.Matcher.Eval.{matches}
use ferrumdns.Plugin.{Action, Outcome, CacheLookup, CacheHandle, Registry, get_exec}
use ferrumdns.Sequence.{Exec, plugin, builtin, Step, Sequence}

-- The pending cache writes, in the order of the lookups.
abbrev pub Writes : Type 0 → Type 0
Writes S = List (CacheHandle S × CacheLookup)

unfoldable pub store_all : {S : Type 0} → QueryContext → Writes S → S → S
store_all ctx [] s = s
store_all ctx ((cache, look) ∷ writes) s = store_all ctx writes (cache.store_lookup ctx look s)

-- A lookup is noted when the plugin is a cache and the query has a key.
unfoldable pub note_lookup : {S : Type 0} → Registry S → Text → QueryContext → Writes S → Writes S
note_lookup reg tag ctx writes = elim (reg.caches tag) [
  | none ↦ writes
  | some cache ↦ elim (cache.snapshot ctx) [
    | none ↦ writes
    | some look ↦ writes ++ (cache, look) ∷ []
  ]
]

-- How a step that was executed lets the loop go on: to the next step, or out with a result.
pub data Flow (S : Type 0) : Type 0 where
  next : QueryContext → S → Writes S → Flow S
  stop : Outcome S → Flow S

-- The end of the sequence with the outcome of a call.
abbrev pub end_with : {S : Type 0} → Writes S → Outcome S → Outcome S
unfolding store_all
end_with writes (err e, ctx, s) = (err e, ctx, s)
end_with writes (ok a, ctx, s) = (ok a, ctx, store_all ctx writes s)

abbrev pub resume : {S : Type 0} → Flow S → (QueryContext → S → Writes S → Outcome S) → Outcome S
resume (stop outcome) rest = outcome
resume (next ctx s writes) rest = rest ctx s writes

module _ (H : Hickory) (R : Regexes) (N : Networks) {S : Type 0} (reg : Registry S)
    (tag : Text) where
  -- The match on the action; `goto` makes the last call of the sequence.
  unfoldable pub after_action : Action → QueryContext → S → Writes S → Flow S
  unfolding store_all note_lookup get_exec
  after_action Action.continue ctx s writes = next ctx s writes
  after_action Action.accept ctx s writes = stop (ok Action.accept, ctx, store_all ctx writes s)
  after_action Action.return ctx s writes = stop (ok Action.continue, ctx, store_all ctx writes s)
  after_action (Action.goto target) ctx s writes = elim (get_exec reg target) [
    | err e ↦ stop (err e, ctx, s)
    | ok p ↦ stop (end_with (note_lookup reg target ctx writes) (p ctx s))
  ]

  -- The outcome of the step's plugin or builtin.
  abbrev pub after_outcome : Writes S → Outcome S → Flow S
  after_outcome writes (err e, ctx, s) = stop (err e, ctx, s)
  after_outcome writes (ok a, ctx, s) = after_action a ctx s writes

  unfoldable pub run_exec : Exec → QueryContext → S → Writes S → Flow S
  unfolding after_action note_lookup get_exec push_trace apply label
  run_exec (plugin target) ctx s writes = elim (get_exec reg target) [
    | err e ↦ stop (err e, ctx, s)
    | ok p ↦
        after_outcome (note_lookup reg target ctx writes)
          (p (push_trace ctx tag (codes "exec") target) s)
  ]
  run_exec (builtin b) ctx s writes =
      let (result, ctx') = apply b (push_trace ctx tag (codes "builtin") (label H b)) in
      after_outcome writes (result, ctx', s)

  abbrev pub holds : Step → QueryContext → Bool
  holds step ctx = all (λ m. matches R N m ctx) step.matchers

  -- The loop.
  unfoldable pub run_steps : List Step → QueryContext → S → Writes S → Outcome S
  unfolding run_exec matches store_all
  run_steps [] ctx s writes = (ok Action.continue, ctx, store_all ctx writes s)
  run_steps (step ∷ steps) ctx s writes =
      let skip = run_steps steps ctx s writes in
      let enter =
        resume (run_exec step.exec ctx s writes)
          (λ ctx' s' writes'. run_steps steps ctx' s' writes') in
      if holds step ctx then enter else skip

unfoldable pub run :
    Hickory
    → Regexes
    → Networks
    → {S : Type 0} → Registry S
    → Sequence
    → QueryContext
    → S
    → Outcome S
unfolding run_steps
run H R N reg seq ctx s = run_steps H R N reg seq.tag seq.steps ctx s []
