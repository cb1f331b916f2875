-- ===== src/Sequence/Ends.antt =====
-- plugin/sequence.rs: the actions with which a sequence can end.
use ferrumdns.Base.{
  ◌≡◌, subst, sym, inl, inr, Bool, true, false, some, List, [], ◌∷◌, Text, codes, Result, ok, err,
  if◌then◌else◌, Option-cases,
}
use ferrumdns.Context.{QueryContext, push_trace}
use ferrumdns.Dns.{Hickory}
use ferrumdns.Ecs.Address.{Networks}
use ferrumdns.Matcher.DomainSet.{Regexes}
use ferrumdns.Plugin.{Action, Outcome, Registry}
use ferrumdns.Sequence.Calls.{goto_absent, goto_present, plugin_absent, plugin_present}
use ferrumdns.Sequence.Run.{
  Writes, store_all, note_lookup, Flow, next, stop, after_action, run_exec, holds, run_steps, run,
  end_with, resume, after_outcome,
}
use ferrumdns.Sequence.{Exec, plugin, builtin, Step, Sequence}

-- An action that the caller of a plugin has nothing left to do for.
abbrev pub IsSettled : Result Action → Type 0
IsSettled (ok Action.continue) = Unit {0}
IsSettled (ok Action.accept) = Unit {0}
IsSettled (ok Action.return) = ⊥
IsSettled (ok (Action.goto target)) = ⊥
IsSettled (err e) = Unit {0}

module _ {S : Type 0} where
  -- Every plugin of the registry ends with such an action.
  abbrev pub IsSettling : Registry S → Type 0
  IsSettling reg =
      (tag : Text) (p : QueryContext → S → Outcome S) (ctx : QueryContext) (s : S)
      → reg.execs tag ≡ some p
      → IsSettled (p ctx s).0

  abbrev Stops : Flow S → Type 0
  Stops (next ctx s writes) = Unit {0}
  Stops (stop o) = IsSettled o.0

  end_with-IsSettled :
      (writes : Writes S) (o : Outcome S) → IsSettled o.0 → IsSettled (end_with writes o).0
  unfolding store_all
  end_with-IsSettled writes (err e, ctx, s) h = tt
  end_with-IsSettled writes (ok a, ctx, s) h = h

  resume-IsSettled :
      (f : Flow S) (rest : QueryContext → S → Writes S → Outcome S)
      → Stops f
      → ((ctx : QueryContext) (s : S) (writes : Writes S) → IsSettled (rest ctx s writes).0)
      → IsSettled (resume f rest).0
  resume-IsSettled (next ctx s writes) rest h k = k ctx s writes
  resume-IsSettled (stop o) rest h k = h

  if-IsSettled :
      (b : Bool) (x y : Outcome S)
      → IsSettled x.0
      → IsSettled y.0
      → IsSettled (if b then x else y).0
  if-IsSettled true x y h k = h
  if-IsSettled false x y h k = k

  module _ (H : Hickory) (R : Regexes) (N : Networks) (reg : Registry S) (tag : Text)
      (settling : IsSettling reg) where
    after_action-Stops :
        (a : Action) (ctx : QueryContext) (s : S) (writes : Writes S)
        → Stops (after_action H R N reg tag a ctx s writes)
    unfolding after_action
    after_action-Stops Action.continue ctx s writes = tt
    after_action-Stops Action.accept ctx s writes = tt
    after_action-Stops Action.return ctx s writes = tt
    after_action-Stops (Action.goto target) ctx s writes = elim (Option-cases (reg.execs target)) [
      | inl absent ↦ subst Stops (sym (goto_absent H R N reg tag target ctx s writes absent)) tt
      | inr (p, present) ↦
          subst Stops (sym (goto_present H R N reg tag target ctx s writes p present)) (
            end_with-IsSettled (note_lookup reg target ctx writes) (p ctx s)
              (settling target p ctx s present))
    ]

    after_outcome-Stops :
        (writes : Writes S) (o : Outcome S) → Stops (after_outcome H R N reg tag writes o)
    after_outcome-Stops writes (err e, ctx, s) = tt
    after_outcome-Stops writes (ok a, ctx, s) = after_action-Stops a ctx s writes

    run_exec-Stops :
        (e : Exec) (ctx : QueryContext) (s : S) (writes : Writes S)
        → Stops (run_exec H R N reg tag e ctx s writes)
    unfolding run_exec
    run_exec-Stops (builtin b) ctx s writes = after_outcome-Stops writes _
    run_exec-Stops (plugin target) ctx s writes = elim (Option-cases (reg.execs target)) [
      | inl absent ↦ subst Stops (sym (plugin_absent H R N reg tag target ctx s writes absent)) tt
      | inr (p, present) ↦
          subst Stops (sym (plugin_present H R N reg tag target ctx s writes p present)) (
            after_outcome-Stops (note_lookup reg target ctx writes)
              (p (push_trace ctx tag (codes "exec") target) s))
    ]

    run_steps-IsSettled :
        (steps : List Step) (ctx : QueryContext) (s : S) (writes : Writes S)
        → IsSettled (run_steps H R N reg tag steps ctx s writes).0
    unfolding run_steps
    run_steps-IsSettled [] ctx s writes = tt
    run_steps-IsSettled (step ∷ steps) ctx s writes =
        if-IsSettled (holds H R N reg tag step ctx)
          (resume (run_exec H R N reg tag step.exec ctx s writes)
            (λ c t w. run_steps H R N reg tag steps c t w))
          (run_steps H R N reg tag steps ctx s writes)
          (resume-IsSettled _ _ (run_exec-Stops step.exec ctx s writes)
            (λ c t w. run_steps-IsSettled steps c t w))
          (run_steps-IsSettled steps ctx s writes)

-- When every plugin ends with an error, with `continue` or with `accept`, so does a sequence of them,
-- whatever its steps and its builtins are: it never hands `return` or `goto` to its caller.
pub run-IsSettled :
    (H : Hickory) (R : Regexes) (N : Networks) {S : Type 0} (reg : Registry S) (seq : Sequence)
    (ctx : QueryContext) (s : S)
    → IsSettling reg
    → IsSettled (run H R N reg seq ctx s).0
unfolding run
run-IsSettled H R N reg seq ctx s settling =
    run_steps-IsSettled H R N reg seq.tag settling seq.steps ctx s []
