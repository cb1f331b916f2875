-- ===== src/Sequence/Calls.antt =====
-- plugin/sequence.rs: what a call of a plugin by a step or by `goto` comes to.
use ferrumdns.Base.{◌≡◌, arith, none, some, Text, codes, err, unknown_tag}
use ferrumdns.Context.{QueryContext, push_trace}
use ferrumdns.Dns.{Hickory}
use ferrumdns.Ecs.Address.{Networks}
use ferrumdns.Matcher.DomainSet.{Regexes}
use ferrumdns.Plugin.{Action, Outcome, Registry, get_exec}
use ferrumdns.Sequence.Run.{
  Writes, note_lookup, stop, after_action, run_exec, end_with, after_outcome,
}
use ferrumdns.Sequence.{plugin}

-- The calls of plugins by `goto` and by a step.
module _ (H : Hickory) (R : Regexes) (N : Networks) {S : Type 0} (reg : Registry S)
    (tag : Text) where
  pub goto_absent :
      (target : Text) (ctx : QueryContext) (s : S) (writes : Writes S)
      → reg.execs target ≡ none
      → after_action H R N reg tag (Action.goto target) ctx s writes
        ≡ stop (err (unknown_tag target), ctx, s)
  unfolding after_action get_exec
  goto_absent target ctx s writes h = ground arith

  pub goto_present :
      (target : Text) (ctx : QueryContext) (s : S) (writes : Writes S)
      (p : QueryContext → S → Outcome S)
      → reg.execs target ≡ some p
      → after_action H R N reg tag (Action.goto target) ctx s writes
        ≡ stop (end_with (note_lookup reg target ctx writes) (p ctx s))
  unfolding after_action get_exec
  goto_present target ctx s writes p h = ground arith

  pub plugin_absent :
      (target : Text) (ctx : QueryContext) (s : S) (writes : Writes S)
      → reg.execs target ≡ none
      → run_exec H R N reg tag (plugin target) ctx s writes
        ≡ stop (err (unknown_tag target), ctx, s)
  unfolding run_exec get_exec
  plugin_absent target ctx s writes h = ground arith

  pub plugin_present :
      (target : Text) (ctx : QueryContext) (s : S) (writes : Writes S)
      (p : QueryContext → S → Outcome S)
      → reg.execs target ≡ some p
      → run_exec H R N reg tag (plugin target) ctx s writes
        ≡ after_outcome H R N reg tag
            (note_lookup reg target ctx writes)
            (p (push_trace ctx tag (codes "exec") target) s)
  unfolding run_exec get_exec
  plugin_present target ctx s writes p h = ground arith
