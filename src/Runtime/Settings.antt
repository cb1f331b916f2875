-- ===== src/Runtime/Settings.antt =====
-- runtime.rs: the checks of the settings, and the entry that a server without one gets.
use ferrumdns.Base.{
  Bool, Option, none, some, List, [], ◌∷◌, Text, all, is_empty, trim, trim_start_by, if◌then◌else◌,
  Result, ok, err, ◌>>=◌, ok_or, config,
}
use ferrumdns.Config.Lift.{strip_dollars}
use ferrumdns.Config.Types.{ListenerConfig, ServerConfig, Config}
use ferrumdns.Net.{parse_socket}
use ferrumdns.Server.Listener.{Tls, validate_listener}
use ferrumdns.Yaml.{Value}

abbrev check_level : Bool → Result (Unit {0})
check_level good = if good then ok tt else err (config "bad log level")

abbrev check_log_file : Option Text → Result (Unit {0})
check_log_file none = ok tt
check_log_file (some path) =
    if is_empty (trim path) then err (config "log.file must not be empty") else ok tt

abbrev check_api : Option Text → Result (Unit {0})
check_api none = ok tt
check_api (some bind) = do _ ← ok_or (parse_socket bind) (config "bad api addr"); ok tt

module _ (T : Tls) where
  unfoldable pub validate_listeners : List ListenerConfig → Result (Unit {0})
  unfolding validate_listener
  validate_listeners [] = ok tt
  validate_listeners (l ∷ ls) = do _ ← validate_listener T l; validate_listeners ls

  unfoldable pub validate_servers : List ServerConfig → Result (Unit {0})
  unfolding validate_listeners
  validate_servers [] = ok tt
  validate_servers (s ∷ servers) = do _ ← validate_listeners s.listeners; validate_servers servers

  -- `is_level` is the crate tracing's reading of a log level.
  unfoldable pub validate_settings : (Text → Bool) → Config → Result (Unit {0})
  unfolding validate_servers parse_socket trim
  validate_settings is_level cfg = do
    _ ← check_level (is_level cfg.log.level)
    _ ← check_log_file cfg.log.file
    _ ← check_api cfg.api.http
    validate_servers cfg.servers

unfoldable pub validate_service : Config → Result (Unit {0})
validate_service cfg = elim cfg.api.http [
  | some http ↦ ok tt
  | none ↦
      if all (λ (s : ServerConfig). is_empty s.listeners) cfg.servers
      then err (config "no listeners configured")
      else ok tt
]

abbrev last_tag : List (Text × Value) → Option Text
last_tag [] = none
last_tag ((tag, args) ∷ []) = some tag
last_tag (p ∷ q ∷ pending) = last_tag (q ∷ pending)

-- The first entry that a server names, or the last sequence.
unfoldable pub pick_default_entry : List ServerConfig → List (Text × Value) → Option Text
unfolding trim_start_by
pick_default_entry [] pending = last_tag pending
pick_default_entry (s ∷ servers) pending =
    let later = pick_default_entry servers pending in
    let entry = strip_dollars s.exec in if is_empty entry then later else some entry
