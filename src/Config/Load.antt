-- ===== src/Config/Load.antt =====
-- config.rs: reading a configuration file with its includes.
pub mod Ready
pub mod Includes
pub mod Loop
use ferrumdns.Base.{
  ℕ, zero, suc, Bool, true, false, Option, none, some, List, [], ◌∷◌, ◌++◌, Text, codes, ◌==◌, leb,
  if◌then◌else◌, is_empty, starts_with, reverse, length, map, Result, ok, err, ◌>>=◌, ok_or, config,
}
use ferrumdns.Cache.Keys.{mem}
use ferrumdns.Config.Lift.{lift_server_plugins, normalize_entries}
use ferrumdns.Config.Paths.{resolve_path}
use ferrumdns.Config.Types.{
  LogConfig, PluginConfig, ListenerConfig, ServerConfig, ApiConfig, Config,
}
use ferrumdns.Yaml.{unwrap_or}

-- What loading takes from outside: `canonicalize`, `read_to_string`, and the reading of YAML.
pub record Files : Type 0 where
  pub canonicalize : Text → Option Text
  pub read : Text → Option Text
  pub parse : Text → Option Config

-- Trailing separators and `.` components, on a path that is written from its end.
trim_tail : Text → Text
trim_tail [] = []
trim_tail (c ∷ []) = if c == b'/' then [] else c ∷ []
trim_tail (c ∷ d ∷ r) =
    let one = trim_tail (d ∷ r) in
    let two = trim_tail r in
    if c == b'/' then one else if c == b'.' then if d == b'/' then two else c ∷ d ∷ r else c ∷ d ∷ r

skip_name : Text → Text
skip_name [] = []
skip_name (c ∷ r) = let more = skip_name r in if c == b'/' then c ∷ r else more

-- `Path::parent`.
unfoldable pub parent : Text → Option Text
unfolding trim_tail skip_name starts_with
parent path =
    let r = trim_tail (reverse path) in
    let rest = trim_tail (skip_name r) in
    if is_empty r
    then none
    else if is_empty rest
    then some (if starts_with (codes "/") path then codes "/" else [])
    else some (reverse rest)

-- The parent, or `.` where that is empty or there is none.
abbrev pub base_of : Option Text → Text
base_of none = codes "."
base_of (some []) = codes "."
base_of (some (c ∷ p)) = c ∷ p

abbrev pub resolve_opt : Text → Option Text → Option Text
resolve_opt base none = none
resolve_opt base (some p) = some (resolve_path base p)

abbrev pub stamp_plugin : Text → PluginConfig → PluginConfig
stamp_plugin base p = record p { base_dir = if is_empty p.base_dir then base else p.base_dir }

abbrev pub stamp_listener : Text → ListenerConfig → ListenerConfig
stamp_listener base l = record l { cert = resolve_opt base l.cert; key = resolve_opt base l.key }

abbrev pub stamp_server : Text → ServerConfig → ServerConfig
stamp_server base s = record s { listeners = map (stamp_listener base) s.listeners }

abbrev pub stamp_log : Text → LogConfig → LogConfig
stamp_log base l = record l { file = resolve_opt base l.file }

unfoldable pub stamp_base : Config → Config
unfolding resolve_path
stamp_base cfg = record cfg {
  log = stamp_log cfg.base_dir cfg.log;
  plugins = map (stamp_plugin cfg.base_dir) cfg.plugins;
  servers = map (stamp_server cfg.base_dir) cfg.servers;
}

abbrev pub api_or : ApiConfig → ApiConfig → ApiConfig
api_or a other = record { http = elim a.http [ none ↦ other.http | some h ↦ some h ] }

unfoldable pub merge : Config → Config → Config
merge cfg other = record cfg {
  plugins = cfg.plugins ++ other.plugins;
  servers = cfg.servers ++ other.servers;
  api = api_or cfg.api other.api;
}

abbrev pub max_include_depth : ℕ
max_include_depth = 64

-- What a load comes to; `none` means that the fuel ran out.
abbrev pub Loading : Type 0
Loading = Option (Result Config)

-- The operator `?` on a load.
abbrev pub bind_load : Loading → (Config → Loading) → Loading
bind_load none next = none
bind_load (some (err e)) next = some (err e)
bind_load (some (ok cfg)) next = next cfg

abbrev pub bind_result : {A : Type 0} → Result A → (A → Loading) → Loading
bind_result (err e) next = some (err e)
bind_result (ok a) next = next a

module _ (F : Files) where
  unfoldable pub from_yaml : Text → Result Config
  unfolding lift_server_plugins normalize_entries
  from_yaml text = do
    raw ← ok_or (F.parse text) (config "yaml parse")
    lifted ← lift_server_plugins raw
    normalize_entries lifted

  -- The loop over the includes; `call` loads a file.
  unfoldable pub merge_includes : (Text → Loading) → List Text → Config → Loading
  unfolding resolve_path merge
  merge_includes call [] cfg = some (ok cfg)
  merge_includes call (rel ∷ rels) cfg =
      bind_load (call (resolve_path cfg.base_dir rel))
        (λ extra. merge_includes call rels (merge cfg extra))

  abbrev pub placed : Text → Config → Config
  placed path cfg = stamp_base (record cfg { base_dir = base_of (parent path) })

  unfoldable pub load_contents : (Text → Loading) → Text → Loading
  unfolding from_yaml parent stamp_base merge_includes
  load_contents call path = bind_result (ok_or (F.read path) (config "read")) (λ text.
      bind_result (from_yaml text) (λ cfg. merge_includes call cfg.include (placed path cfg)))

  -- The stack has the file last opened first.
  unfoldable pub load_with_stack : ℕ → Text → List Text → Loading
  unfolding load_contents
  load_with_stack zero path stack = none
  load_with_stack (suc fuel) path stack =
      if leb max_include_depth (length stack)
      then some (err (config "include depth exceeds 64"))
      else bind_result (ok_or (F.canonicalize path) (config "resolve")) (λ canonical.
        if mem canonical stack
        then some (err (config "include cycle"))
        else load_contents (λ p. load_with_stack fuel p (canonical ∷ stack)) path)

  unfoldable pub load_file : Text → Loading
  unfolding load_with_stack
  load_file path = load_with_stack (suc max_include_depth) path []
