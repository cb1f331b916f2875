-- ===== src/Config/Lift.antt =====
-- config.rs: `lift_server_plugins`, which makes servers of the plugins that stand for them, and
-- `normalize_entries`.
pub mod Split
pub mod Entries
use ferrumdns.Base.{
  ℕ, Bool, true, false, not, ◌&&◌, ◌||◌, Option, none, some, List, [], ◌∷◌, ◌++◌, Text, codes, teq,
  ◌==◌, leb, if◌then◌else◌, is_empty, is_white, any, trim, trim_start_by, Result, ok, err, ◌>>=◌,
  config,
}
use ferrumdns.Config.Types.{PluginConfig, ListenerConfig, ServerConfig, Config}
use ferrumdns.Dnsutil.Codes.{max_u32}
use ferrumdns.Yaml.{Value, string, get, as_str, as_u64, and_then, or_else, unwrap_or}

-- The types of plugin that stand for a server.
abbrev pub is_server_type : Text → Bool
is_server_type ty =
    teq ty (codes "udp_server")
    || teq ty (codes "tcp_server")
    || teq ty (codes "tls_server")
    || teq ty (codes "http_server")
    || teq ty (codes "doh_server")

unfoldable pub proto_of : Text → Text
unfolding teq
proto_of ty =
    if teq ty (codes "udp_server")
    then codes "udp"
    else if teq ty (codes "tcp_server")
    then codes "tcp"
    else if teq ty (codes "tls_server")
    then codes "tls"
    else codes "doh"

abbrev listen_of : Option Value → Result Text
listen_of none = ok (codes "0.0.0.0:53")
listen_of (some (string s)) = ok s
listen_of (some v) = err (config "server listen must be a string")

abbrev workers_of : Option Value → Result (Option ℕ)
workers_of none = ok none
workers_of (some v) = elim (as_u64 v) [
  | none ↦ err (config "server workers must be a u32")
  | some n ↦ if leb n max_u32 then ok (some n) else err (config "server workers must be a u32")
]

-- The server of a plugin.
unfoldable pub server_of : PluginConfig → Result ServerConfig
unfolding get proto_of
server_of p = do
  listen ← listen_of (or_else (get (codes "listen") p.args) (get (codes "addr") p.args))
  workers ← workers_of (get (codes "workers") p.args)
  ok (record {
    exec =
        unwrap_or
          (and_then (or_else (get (codes "entry") p.args) (get (codes "exec") p.args)) as_str) [];
    timeout = unwrap_or (and_then (get (codes "timeout") p.args) as_u64) 5;
    listeners =
        record {
          protocol = proto_of p.ty;
          addr = listen;
          cert = and_then (get (codes "cert") p.args) as_str;
          key = and_then (get (codes "key") p.args) as_str;
          url_path =
              and_then (or_else (get (codes "url_path") p.args) (get (codes "path") p.args)) as_str;
          idle_timeout = and_then (get (codes "idle_timeout") p.args) as_u64;
          workers = workers;
        }
        ∷ [];
  })

-- The loop over the plugins, with those that are kept and the servers.
unfoldable pub lift :
    List PluginConfig
    → List PluginConfig
    → List ServerConfig
    → Result (List PluginConfig × List ServerConfig)
unfolding server_of
lift [] keep servers = ok (keep, servers)
lift (p ∷ ps) keep servers =
    let kept = lift ps (keep ++ p ∷ []) servers in
    let lifted = server_of p >>= λ s. lift ps keep (servers ++ s ∷ []) in
    if is_server_type p.ty then lifted else kept

unfoldable pub lift_server_plugins : Config → Result Config
unfolding lift
lift_server_plugins cfg = do
  (keep, servers) ← lift cfg.plugins [] cfg.servers
  ok (record cfg { plugins = keep; servers = servers })

abbrev pub strip_dollars : Text → Text
strip_dollars s = trim_start_by (λ c. c == b'$') s

unfoldable pub normalize_entry : Text → Result Text
unfolding trim trim_start_by is_white
normalize_entry exec =
    let raw = trim exec in
    let entry = strip_dollars raw in
    if (not (is_empty raw) && is_empty entry) || any is_white entry
    then err (config "invalid server entry")
    else ok entry

unfoldable pub normalize_servers : List ServerConfig → Result (List ServerConfig)
unfolding normalize_entry
normalize_servers [] = ok []
normalize_servers (s ∷ servers) = do
  entry ← normalize_entry s.exec
  rest ← normalize_servers servers
  ok (record s { exec = entry } ∷ rest)

unfoldable pub normalize_entries : Config → Result Config
unfolding normalize_servers
normalize_entries cfg = do
  servers ← normalize_servers cfg.servers
  ok (record cfg { servers = servers })
