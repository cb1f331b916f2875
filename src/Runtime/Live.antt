-- ===== src/Runtime/Live.antt =====
-- runtime.rs: `Live`, the runtime that is being served, and main.rs: its reloads.
pub mod Reloads
pub mod Swaps
use ferrumdns.Base.{
  ℕ, max, Bool, not, ◌||◌, Option, none, some, List, [], ◌∷◌, ◌++◌, map, Text, if◌then◌else◌, trim,
  trim_start_by, Result, ok, err, ◌>>=◌, Error, config,
}
use ferrumdns.Config.Lift.{strip_dollars}
use ferrumdns.Config.Load.{Files, load_file}
use ferrumdns.Config.Same.{servers_eq, api_eq, log_eq}
use ferrumdns.Config.Types.{ListenerConfig, ServerConfig, Config}
use ferrumdns.Runtime.Build.{Runtime, Outside, build}
use ferrumdns.Runtime.Settings.{validate_service}

-- The tasks that are spawned: a listener with its entry and its timeout in seconds, or the API.
pub data Task : Type 0 where
  listener : Text → ℕ → ListenerConfig → Task
  api : Text → Task

abbrev server_tasks : List ServerConfig → List Task
server_tasks [] = []
server_tasks (s ∷ servers) =
    map (listener s.exec (max s.timeout 1)) s.listeners ++ server_tasks servers

abbrev api_tasks : Option Text → List Task
api_tasks none = []
api_tasks (some http) = api http ∷ []

unfoldable pub tasks : Config → List Task
tasks cfg = server_tasks cfg.servers ++ api_tasks cfg.api.http

-- How the first task to end does.
pub data TaskEnd : Type 0 where
  failed : Error → TaskEnd
  panicked returned : TaskEnd

unfoldable pub task_error : TaskEnd → Error
task_error (failed e) = e
task_error panicked = config "listener task failed"
task_error returned = config "listener exited unexpectedly"

abbrev pub Reloaded : Type 0 → Type 0 → Type 0
Reloaded C S = Option (Result (Unit {0}) × Runtime C S)

module _ {C S : Type 0} where
  -- What is served, and the error with which serving ends.
  unfoldable pub serve : Runtime C S → TaskEnd → List Task × Error
  unfolding validate_service tasks task_error
  serve rt ending = elim (validate_service rt.config) [
    | err e ↦ ([], e)
    | ok _ ↦ (tasks rt.config, task_error ending)
  ]

  -- The end of a reload: the new runtime takes the place of the old one, or is refused.
  unfoldable pub swap_checked : Runtime C S → Runtime C S → Result (Unit {0}) × Runtime C S
  unfolding servers_eq api_eq log_eq
  swap_checked previous rt =
      if not (servers_eq previous.config.servers rt.config.servers)
        || not (api_eq previous.config.api rt.config.api)
      then (err (config "listener, entry or API changes require a process restart"), previous)
      else if not (log_eq previous.config.log rt.config.log)
      then (err (config "logging changes require a process restart"), previous)
      else (ok tt, rt)

  abbrev pub after_build : Runtime C S → Option (Result (Runtime C S)) → Reloaded C S
  after_build live none = none
  after_build live (some (err e)) = some (err e, live)
  after_build live (some (ok rt)) = some (swap_checked live rt)

  abbrev pub after_load : Outside → Runtime C S → Option (Result Config) → Reloaded C S
  after_load O live none = none
  after_load O live (some (err e)) = some (err e, live)
  after_load O live (some (ok cfg)) = after_build live (build O cfg)

  -- `reload_file`; `none` stands for the loads and the builds that do not end, of which there are none.
  unfoldable pub reload_file : Files → Outside → Text → Runtime C S → Reloaded C S
  unfolding load_file build swap_checked
  reload_file F O path live = after_load O live (load_file F path)

  -- `reload_loop` of main.rs: at each signal the files and all else are read anew.
  unfoldable pub reload_loop : List (Files × Outside) → Text → Runtime C S → Option (Runtime C S)
  unfolding reload_file
  reload_loop [] path live = some live
  reload_loop ((F, O) ∷ signals) path live = elim (reload_file F O path live) [
    | none ↦ none
    | some (r, live') ↦ reload_loop signals path live'
  ]
