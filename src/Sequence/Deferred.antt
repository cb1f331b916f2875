-- ===== src/Sequence/Deferred.antt =====
-- plugin/sequence.rs: the cache writes of a run.
use ferrumdns.Base.{
  ◌≡◌, refl, ap, arith, subst, sym, inl, inr, Bool, true, false, Option, none, some, List, [], ◌∷◌,
  ◌++◌, map, Text, codes, ok, err, Error, if◌then◌else◌, unknown_tag, subst₂, Option-cases, All,
  All-append,
}
use ferrumdns.Context.{QueryContext, push_trace}
use ferrumdns.Dns.{Hickory}
use ferrumdns.Ecs.Address.{Networks}
use ferrumdns.Matcher.DomainSet.{Regexes}
use ferrumdns.Plugin.{Action, Outcome, CacheLookup, CacheHandle, Registry}
use ferrumdns.Sequence.Calls.{goto_absent, goto_present, plugin_absent, plugin_present}
use ferrumdns.Sequence.Run.{
  Writes, store_all, note_lookup, Flow, next, stop, after_action, run_exec, holds, run_steps, run,
  end_with, resume, after_outcome,
}
use ferrumdns.Sequence.{Exec, plugin, builtin, Step, Sequence}

-- The registry with the cache writes of the runner turned off.
abbrev pub mute : {S : Type 0} → CacheHandle S → CacheHandle S
mute cache = record cache { store_lookup = λ ctx look s. s }

abbrev mute_cache : {S : Type 0} → Option (CacheHandle S) → Option (CacheHandle S)
mute_cache none = none
mute_cache (some cache) = some (mute cache)

abbrev pub quiet : {S : Type 0} → Registry S → Registry S
quiet reg = record reg { caches = λ tag. mute_cache (reg.caches tag) }

abbrev mute_all : {S : Type 0} → Writes S → Writes S
mute_all = map (λ w. (mute w.0, w.1))

-- A write to a cache of the registry.
abbrev pub IsCacheOf : {S : Type 0} → Registry S → CacheHandle S × CacheLookup → Type 0
IsCacheOf reg write = (tag : Text) × (reg.caches tag ≡ some write.0)

-- A run, against the run that writes nothing: the same result and context, and a state with some
-- writes to caches of the registry made, all of them with the final context; none after a failure.
abbrev pub IsDeferred : {S : Type 0} → Registry S → Outcome S → Outcome S → Type 0
IsDeferred {S} reg (r, ctx, s) (r', ctx', s') =
    (r ≡ r')
    × (ctx ≡ ctx')
    × ((writes : Writes S) × All (IsCacheOf reg) writes
        × (s ≡ store_all ctx writes s')
        × ((e : Error) → r ≡ err e → writes ≡ []))

module _ {S : Type 0} where
  store_all-mute :
      (ctx : QueryContext) (writes : Writes S) (s : S) → store_all ctx (mute_all writes) s ≡ s
  unfolding store_all
  store_all-mute ctx [] s = refl
  store_all-mute ctx ((cache, look) ∷ writes) s = store_all-mute ctx writes s

  mute_all-append : (a : Writes S) (b : Writes S) → mute_all (a ++ b) ≡ mute_all a ++ mute_all b
  mute_all-append [] b = refl
  mute_all-append (x ∷ a) b = ap (λ l. (mute x.0, x.1) ∷ l) (mute_all-append a b)

  note_lookup-quiet :
      (reg : Registry S) (tag : Text) (ctx : QueryContext) (writes : Writes S)
      → note_lookup (quiet reg) tag ctx (mute_all writes)
        ≡ mute_all (note_lookup reg tag ctx writes)
  unfolding note_lookup
  note_lookup-quiet reg tag ctx writes = elim (Option-cases (reg.caches tag)) [
    | inl absent ↦ ground arith
    | inr (cache, present) ↦ elim (Option-cases (cache.snapshot ctx)) [
      | inl absent ↦ ground arith
      | inr (look, found) ↦ ground (arith, mute_all-append writes ((cache, look) ∷ []))
    ]
  ]

  note_lookup-IsCacheOf :
      (reg : Registry S) (tag : Text) (ctx : QueryContext) (writes : Writes S)
      → All (IsCacheOf reg) writes
      → All (IsCacheOf reg) (note_lookup reg tag ctx writes)
  unfolding note_lookup
  note_lookup-IsCacheOf reg tag ctx writes h = elim (Option-cases (reg.caches tag)) [
    | inl absent ↦ rw (note_lookup, absent) h
    | inr (cache, present) ↦ elim (Option-cases (cache.snapshot ctx)) [
      | inl absent ↦ rw (note_lookup, present, absent) h
      | inr (look, found) ↦
          rw (note_lookup, present, found)
            (All-append (IsCacheOf reg) writes ((cache, look) ∷ []) h ((tag, present), tt))
    ]
  ]

module _ {S : Type 0} (reg : Registry S) where
  -- The steps of a run against those of the quiet run.
  abbrev Follows : Flow S → Flow S → Type 0
  Follows (next ctx s writes) (next ctx' s' writes') =
      (ctx ≡ ctx') × (s ≡ s') × (mute_all writes ≡ writes') × All (IsCacheOf reg) writes
  Follows (stop a) (stop b) = IsDeferred reg a b
  Follows (next ctx s writes) (stop b) = ⊥
  Follows (stop a) (next ctx s writes) = ⊥

  stored :
      (r : Action) (ctx : QueryContext) (s : S) (writes : Writes S)
      → All (IsCacheOf reg) writes
      → IsDeferred reg
          (ok r, ctx, store_all ctx writes s)
          (ok r, ctx, store_all ctx (mute_all writes) s)
  stored r ctx s writes caches = (
    refl,
    refl,
    (writes, caches, ap (store_all ctx writes) (sym (store_all-mute ctx writes s)), λ e h. cc),
  )

  failed : (e : Error) (ctx : QueryContext) (s : S) → IsDeferred reg (err e, ctx, s) (err e, ctx, s)
  unfolding store_all
  failed e ctx s = (refl, refl, ([], tt, refl, λ e' h. refl))

  end_with-IsDeferred :
      (writes : Writes S) (o : Outcome S)
      → All (IsCacheOf reg) writes
      → IsDeferred reg (end_with writes o) (end_with (mute_all writes) o)
  unfolding store_all
  end_with-IsDeferred writes (err e, ctx, s) caches = failed e ctx s
  end_with-IsDeferred writes (ok a, ctx, s) caches = stored a ctx s writes caches

  resume-IsDeferred :
      (f g : Flow S) (rest rest' : QueryContext → S → Writes S → Outcome S)
      → Follows f g
      → ((ctx : QueryContext) (s : S) (writes : Writes S)
          → All (IsCacheOf reg) writes
          → IsDeferred reg (rest ctx s writes) (rest' ctx s (mute_all writes)))
      → IsDeferred reg (resume f rest) (resume g rest')
  resume-IsDeferred (next ctx s writes) (next ctx' s' writes') rest rest' (a, b, c, caches) h =
      let same : rest' ctx s (mute_all writes) ≡ rest' ctx' s' writes' = cc in
      subst (IsDeferred reg (rest ctx s writes)) same (h ctx s writes caches)
  resume-IsDeferred (stop a) (stop b) rest rest' h k = h
  resume-IsDeferred (next ctx s writes) (stop b) rest rest' h k = absurd h
  resume-IsDeferred (stop a) (next ctx s writes) rest rest' h k = absurd h

  if-IsDeferred :
      (b : Bool) (x x' y y' : Outcome S)
      → IsDeferred reg x x'
      → IsDeferred reg y y'
      → IsDeferred reg (if b then x else y) (if b then x' else y')
  if-IsDeferred true x x' y y' h k = h
  if-IsDeferred false x x' y y' h k = k

  module _ (H : Hickory) (R : Regexes) (N : Networks) (tag : Text) where
    after_action-Follows :
        (a : Action) (ctx : QueryContext) (s : S) (writes : Writes S)
        → All (IsCacheOf reg) writes
        → Follows
            (after_action H R N reg tag a ctx s writes)
            (after_action H R N (quiet reg) tag a ctx s (mute_all writes))
    unfolding after_action
    after_action-Follows Action.continue ctx s writes caches = (refl, refl, refl, caches)
    after_action-Follows Action.accept ctx s writes caches =
        stored Action.accept ctx s writes caches
    after_action-Follows Action.return ctx s writes caches =
        stored Action.continue ctx s writes caches
    after_action-Follows (Action.goto target) ctx s writes caches =
        elim (Option-cases (reg.execs target)) [
          | inl absent ↦
              subst₂ Follows (sym (goto_absent H R N reg tag target ctx s writes absent))
                (sym (goto_absent H R N (quiet reg) tag target ctx s (mute_all writes) absent))
                (failed (unknown_tag target) ctx s)
          | inr (p, present) ↦
              subst₂ Follows (sym (goto_present H R N reg tag target ctx s writes p present))
                (sym (goto_present H R N (quiet reg) tag target ctx s (mute_all writes) p present))
                (subst
                  (λ w.
                    IsDeferred reg (end_with (note_lookup reg target ctx writes) (p ctx s))
                      (end_with w (p ctx s)))
                  (sym (note_lookup-quiet reg target ctx writes))
                  (end_with-IsDeferred (note_lookup reg target ctx writes) (p ctx s)
                    (note_lookup-IsCacheOf reg target ctx writes caches)))
        ]

    after_outcome-Follows :
        (writes : Writes S) (o : Outcome S)
        → All (IsCacheOf reg) writes
        → Follows
            (after_outcome H R N reg tag writes o)
            (after_outcome H R N (quiet reg) tag (mute_all writes) o)
    after_outcome-Follows writes (err e, ctx, s) caches = failed e ctx s
    after_outcome-Follows writes (ok a, ctx, s) caches = after_action-Follows a ctx s writes caches

    run_exec-Follows :
        (e : Exec) (ctx : QueryContext) (s : S) (writes : Writes S)
        → All (IsCacheOf reg) writes
        → Follows
            (run_exec H R N reg tag e ctx s writes)
            (run_exec H R N (quiet reg) tag e ctx s (mute_all writes))
    unfolding run_exec
    run_exec-Follows (builtin b) ctx s writes caches = after_outcome-Follows writes _ caches
    run_exec-Follows (plugin target) ctx s writes caches = elim (Option-cases (reg.execs target)) [
      | inl absent ↦
          subst₂ Follows (sym (plugin_absent H R N reg tag target ctx s writes absent))
            (sym (plugin_absent H R N (quiet reg) tag target ctx s (mute_all writes) absent))
            (failed (unknown_tag target) ctx s)
      | inr (p, present) ↦
          let o = p (push_trace ctx tag (codes "exec") target) s in
          subst₂ Follows (sym (plugin_present H R N reg tag target ctx s writes p present))
            (sym (plugin_present H R N (quiet reg) tag target ctx s (mute_all writes) p present))
            (subst
              (λ w.
                Follows (after_outcome H R N reg tag (note_lookup reg target ctx writes) o)
                  (after_outcome H R N (quiet reg) tag w o))
              (sym (note_lookup-quiet reg target ctx writes))
              (after_outcome-Follows (note_lookup reg target ctx writes) o
                (note_lookup-IsCacheOf reg target ctx writes caches)))
    ]

    run_steps-IsDeferred :
        (steps : List Step) (ctx : QueryContext) (s : S) (writes : Writes S)
        → All (IsCacheOf reg) writes
        → IsDeferred reg
            (run_steps H R N reg tag steps ctx s writes)
            (run_steps H R N (quiet reg) tag steps ctx s (mute_all writes))
    unfolding run_steps
    run_steps-IsDeferred [] ctx s writes caches = stored Action.continue ctx s writes caches
    run_steps-IsDeferred (step ∷ steps) ctx s writes caches =
        if-IsDeferred (holds H R N reg tag step ctx)
          (resume (run_exec H R N reg tag step.exec ctx s writes)
            (λ c t w. run_steps H R N reg tag steps c t w))
          (resume (run_exec H R N (quiet reg) tag step.exec ctx s (mute_all writes))
            (λ c t w. run_steps H R N (quiet reg) tag steps c t w))
          (run_steps H R N reg tag steps ctx s writes)
          (run_steps H R N (quiet reg) tag steps ctx s (mute_all writes))
          (resume-IsDeferred _ _ _ _ (run_exec-Follows step.exec ctx s writes caches)
            (λ c t w k. run_steps-IsDeferred steps c t w k))
          (run_steps-IsDeferred steps ctx s writes caches)

-- A run makes its cache writes only when it ends, all of them with its final context and to caches of
-- its registry, and makes none when it ends with an error: its result and its context are those of the
-- run without cache writes, and its state is that run's with the writes made in turn.
pub run-IsDeferred :
    (H : Hickory) (R : Regexes) (N : Networks) {S : Type 0} (reg : Registry S) (seq : Sequence)
    (ctx : QueryContext) (s : S)
    → IsDeferred reg (run H R N reg seq ctx s) (run H R N (quiet reg) seq ctx s)
unfolding run
run-IsDeferred H R N reg seq ctx s = run_steps-IsDeferred reg H R N seq.tag seq.steps ctx s [] tt
