-- ===== src/Fallback/Agreement.antt =====
-- plugin/fallback.rs: the two ways to run a backup, compared.
use ferrumdns.Base.{◌≡◌, Option, none, []}
use ferrumdns.Context.{QueryContext, fork}
use ferrumdns.Fallback.{
  Fallback, Outcome, Pipeline, wait_of, run, within, Raced, race, Done, exec_standby, exec_in_turn,
}
use ferrumdns.Fallback.Parts.{on_left, on_right}

abbrev pub untraced : QueryContext → QueryContext
untraced ctx = record ctx { trace = [] }

module _ {A B : Type 0} where
  module _ (f : Fallback) (primary : Pipeline A) (secondary : Pipeline B) (ctx : QueryContext)
      (a : A) (b : B) where
    -- The primary alone, on its part of the state.
    abbrev pub alone : Option Outcome × A
    alone = within f.threshold (wait_of (primary (fork ctx))) (primary (fork ctx)) a

    abbrev pub standby : Done (A × B)
    standby = exec_standby f (λ c. on_left (primary c)) (λ c. on_right (secondary c)) ctx (a, b)

    abbrev pub in_turn : Done (A × B)
    in_turn = exec_in_turn f (λ c. on_left (primary c)) (λ c. on_right (secondary c)) ctx (a, b)

    abbrev backup : Outcome × B
    backup = run (secondary (fork ctx)) b

    abbrev raced : Raced (A × B)
    raced =
        race f.threshold (wait_of (primary (fork ctx))) (on_left (primary (fork ctx)))
          (wait_of (secondary (fork ctx))) (on_right (secondary (fork ctx))) (a, b)

    -- The same but for the trace and for what a primary that is preferred leaves beside it.
    abbrev pub AreAlike : Option QueryContext → Done (A × B) → Done (A × B) → Type 0
    AreAlike o d d' =
        (d.result ≡ d'.result)
        × (untraced d.context ≡ untraced d'.context)
        × (d.state.0 ≡ d'.state.0)
        × (o ≡ none → d.state ≡ d'.state)
