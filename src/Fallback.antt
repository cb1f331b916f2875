-- ===== src/Fallback.antt =====
-- plugin/fallback.rs: a primary pipeline with a preference window, and a backup. A pipeline is
-- a task on the state that all tasks share: between its waits it reads and changes that state, and
-- two tasks take turns as their waits end. `timeout` and `select` are as tokio and futures document
-- them: what is ready is taken before the time is over, and the primary is polled first.
pub mod Agreement
pub mod Parts
use ferrumdns.Base.{
  ℕ, ◌-◌, Bool, true, false, ◌&&◌, Option, none, some, List, Text, codes, leb, if◌then◌else◌,
  Result, ok, err, trim_start_by, ◌==◌, ◌>>=◌, ok_or, config,
}
use ferrumdns.Context.Answers.{has_wanted_ans}
use ferrumdns.Context.{QueryContext, fork, absorb, push_trace}
use ferrumdns.Plugin.{Action}
use ferrumdns.Yaml.{Value, get, as_str, as_u64, as_bool, and_then, unwrap_or}

pub record Fallback : Type 0 where
  pub tag : Text
  pub primary : Text
  pub secondary : Text
  pub threshold : ℕ
  pub always_standby : Bool

abbrev tag_of : Text → Value → Result Text
tag_of key args = ok_or (and_then (get key args) as_str) (config "fallback needs two tags")

unfoldable pub from_args : Text → Value → Result Fallback
unfolding get trim_start_by
from_args tag args = do
  primary ← tag_of (codes "primary") args
  secondary ← tag_of (codes "secondary") args
  ok (record {
    tag = tag;
    primary = trim_start_by (λ c. c == b'$') primary;
    secondary = trim_start_by (λ c. c == b'$') secondary;
    threshold = unwrap_or (and_then (get (codes "threshold") args) as_u64) 500;
    always_standby = unwrap_or (and_then (get (codes "always_standby") args) as_bool) false;
  })

-- A task waits some milliseconds, changes the shared state and goes on with what it has read there;
-- or it is done, with a result and its context.
pub data Task (P : Type 0) : Type 0 where
  done : Result Action → QueryContext → Task P
  await : ℕ → (P → P) → (P → Task P) → Task P

abbrev pub Pipeline : Type 0 → Type 0
Pipeline P = QueryContext → Task P

abbrev pub Outcome : Type 0
Outcome = Result Action × QueryContext

-- The wait that a task begins with.
abbrev pub wait_of : {P : Type 0} → Task P → ℕ
wait_of (done result ctx) = 0
wait_of (await ms change next) = ms

-- A task alone, to its end.
unfoldable pub run : {P : Type 0} → Task P → P → Outcome × P
run (done result ctx) s = ((result, ctx), s)
run (await ms change next) s = run (next s) (change s)

-- `timeout` on a task that is to wait for another `p`, when another `t` are left of the time: its
-- outcome, or `none` when it is dropped, and the state at that time. A task that is ready when the
-- time is over is in time.
unfoldable pub within : {P : Type 0} → ℕ → ℕ → Task P → P → Option Outcome × P
within t p (done result ctx) s = (some (result, ctx), s)
within t p (await ms change next) s =
    let rest = within (t - p) (wait_of (next s)) (next s) (change s) in
    if leb p t then rest else (none, s)

-- The end of a primary under a timeout, with what is left of the task beside it.
pub record Raced (P : Type 0) : Type 0 where
  pub outcome : Option Outcome
  pub rest : Task P
  pub state : P

-- A primary under a timeout and a task beside it, which are to wait for another `p` and `q`. The
-- primary is polled first.
unfoldable pub race : {P : Type 0} → ℕ → ℕ → Task P → ℕ → Task P → P → Raced P
race t p (done result ctx) q other s = record {
  outcome = some (result, ctx);
  rest = other;
  state = s;
}
race t p (await ms change next) q (done result ctx) s =
    let on = race (t - p) (wait_of (next s)) (next s) q (done result ctx) (change s) in
    if leb p t then on else record { outcome = none; rest = done result ctx; state = s }
race t p (await ms change next) q (await ms' change' next') s =
    let first =
      race (t - p) (wait_of (next s)) (next s) (q - p) (await ms' change' next') (change s) in
    let second =
      race (t - q) (p - q) (await ms change next) (wait_of (next' s)) (next' s) (change' s) in
    if leb p t && leb p q
    then first
    else if leb t q
    then record { outcome = none; rest = await ms' change' next'; state = s }
    else second

-- The context of a primary that ended in time, without an error and with the wanted answer.
unfoldable pub preferred : Option Outcome → Option QueryContext
unfolding has_wanted_ans
preferred none = none
preferred (some (err e, ctx)) = none
preferred (some (ok a, ctx)) = if has_wanted_ans ctx then some ctx else none

abbrev pub to_continue : Result Action → Result Action
to_continue (ok a) = ok Action.continue
to_continue (err e) = err e

-- What `exec` returns, with the context and the shared state that it leaves.
pub record Done (P : Type 0) : Type 0 where
  pub result : Result Action
  pub context : QueryContext
  pub state : P

module _ {P : Type 0} (f : Fallback) where
  abbrev pub use_primary : QueryContext → QueryContext → P → Done P
  use_primary ctx pctx s = record {
    result = ok Action.continue;
    context = absorb (push_trace ctx f.tag (codes "primary") (codes "ok")) pctx;
    state = s;
  }

  abbrev pub use_secondary : QueryContext → Outcome × P → Done P
  use_secondary ctx ((result, sctx), s) = record {
    result = to_continue result;
    context = absorb ctx sctx;
    state = s;
  }

  -- The primary's end when it is preferred, or else the backup's.
  unfoldable pub settle : Text → QueryContext → Option QueryContext → P → Outcome × P → Done P
  unfolding absorb push_trace
  settle detail ctx (some pctx) s backup = use_primary ctx pctx s
  settle detail ctx none s backup =
      use_secondary (push_trace ctx f.tag (codes "secondary") detail) backup

  -- Both run from the start. The backup goes on, also when it is done, until the primary has ended
  -- or its time is over: then it is dropped, or it is what counts. So the two arms of `select` are
  -- the same here.
  unfoldable pub exec_standby : Pipeline P → Pipeline P → QueryContext → P → Done P
  unfolding fork preferred race run settle
  exec_standby primary secondary ctx s =
      let p = primary (fork ctx) in
      let q = secondary (fork ctx) in
      let r = race f.threshold (wait_of p) p (wait_of q) q s in
      settle (codes "used") ctx (preferred r.outcome) r.state (run r.rest r.state)

  -- The backup starts when the primary has failed, on the state that it leaves.
  unfoldable pub exec_in_turn : Pipeline P → Pipeline P → QueryContext → P → Done P
  unfolding fork push_trace preferred within run settle
  exec_in_turn primary secondary ctx s =
      let p = primary (fork ctx) in
      let r = within f.threshold (wait_of p) p s in
      let q = secondary (fork (push_trace ctx f.tag (codes "secondary") (codes "fallback"))) in
      settle (codes "fallback") ctx (preferred r.0) r.1 (run q r.1)

  -- A pipeline that is not registered is an error, before anything runs.
  unfoldable pub exec : (Text → Result (Pipeline P)) → QueryContext → P → Done P
  unfolding exec_standby exec_in_turn
  exec get_exec ctx s = elim (both_of get_exec) [
    | err e ↦ record { result = err e; context = ctx; state = s }
    | ok (primary, secondary) ↦
        if f.always_standby
        then exec_standby primary secondary ctx s
        else exec_in_turn primary secondary ctx s
  ]
    where
      both_of : (Text → Result (Pipeline P)) → Result (Pipeline P × Pipeline P)
      both_of get_exec = do
        primary ← get_exec f.primary
        secondary ← get_exec f.secondary
        ok (primary, secondary)
