-- ===== src/Api/Report.antt =====
-- api.rs: what the console is shown of a runtime. The version and the id of the runtime are left out.
pub mod Hidden
use ferrumdns.Api.Origin.{Url, Urls}
use ferrumdns.Base.{
  ℕ, max, Bool, true, false, ◌&&◌, ◌||◌, Option, none, some, List, [], ◌∷◌, ◌++◌, Text, codes, teq,
  decimal, map, is_empty, contains_text, to_ascii_lowercase, trim, if◌then◌else◌, Result, ok, err,
}
use ferrumdns.Config.Types.{PluginConfig, ListenerConfig, ServerConfig, Config}
use ferrumdns.Server.Listener.{is_given, is_tls, is_doh}
use ferrumdns.Upstream.Spec.{UpstreamSpec, from_value}
use ferrumdns.Yaml.{Value, get, or_else, unwrap_or, as_sequence}

abbrev pub hidden : Text
hidden = codes "(hidden)"

abbrev pub port_text : Option ℕ → Text
port_text none = []
port_text (some port) = codes ":" ++ decimal port

abbrev pub with_host : Text → Option Text → Option ℕ → Text
with_host scheme none port = hidden
with_host scheme (some host) port = scheme ++ (codes "://" ++ (host ++ port_text port))

abbrev pub of_url : Option Url → Text
of_url none = hidden
of_url (some url) = with_host url.scheme url.host_str url.port

-- An address without a scheme is one of UDP.
unfoldable pub normalized : Text → Text
unfolding trim contains_text
normalized address' =
    let address = trim address' in
    if contains_text (codes "://") address then address else codes "udp://" ++ address

unfoldable pub public_upstream_address : Urls → Text → Text
unfolding normalized decimal
public_upstream_address U address = of_url (U.parse (normalized address))

pub record ShownUpstream : Type 0 where
  pub plugin : Text
  pub tag : Option Text
  pub addr : Text

pub record ShownListener : Type 0 where
  pub protocol : Text
  pub addr : Text
  pub entry : Text
  pub timeout_secs : ℕ
  pub tls : Bool

abbrev pub plugin_name : PluginConfig → Text
plugin_name p = unwrap_or p.tag p.ty

abbrev pub named : PluginConfig → Text × Text
named p = (plugin_name p, p.ty)

abbrev pub show_upstream : Urls → Text → Result UpstreamSpec → List ShownUpstream
show_upstream U name (err e) = []
show_upstream U name (ok spec) =
    record { plugin = name; tag = spec.tag; addr = public_upstream_address U spec.addr } ∷ []

abbrev pub show_values : Urls → Text → List Value → List ShownUpstream
show_values U name [] = []
show_values U name (v ∷ values) = show_upstream U name (from_value v) ++ show_values U name values

-- The list of upstreams, or the one upstream.
abbrev pub upstream_values : Option Value → List Value
upstream_values none = []
upstream_values (some list) = unwrap_or (as_sequence list) (list ∷ [])

abbrev pub values_of : PluginConfig → List Value
values_of p =
    upstream_values (or_else (get (codes "upstreams") p.args) (get (codes "upstream") p.args))

abbrev pub is_forward : Text → Bool
is_forward ty = teq ty (codes "forward") || teq ty (codes "fast_forward")

-- The upstreams of the forwarders.
unfoldable pub show_upstreams : Urls → List PluginConfig → List ShownUpstream
unfolding public_upstream_address from_value get teq
show_upstreams U [] = []
show_upstreams U (p ∷ plugins) =
    let rest = show_upstreams U plugins in
    if is_forward p.ty then show_values U (plugin_name p) (values_of p) ++ rest else rest

unfoldable pub show_listener : ServerConfig → ListenerConfig → ShownListener
unfolding to_ascii_lowercase teq
show_listener server listener =
    let protocol = to_ascii_lowercase listener.protocol in
    record {
      protocol = if is_empty protocol then codes "udp" else protocol;
      addr = listener.addr;
      entry = server.exec;
      timeout_secs = max server.timeout 1;
      tls = is_tls protocol || is_doh protocol && is_given listener.cert && is_given listener.key;
    }

abbrev pub show_listeners : List ServerConfig → List ShownListener
show_listeners [] = []
show_listeners (s ∷ servers) = map (show_listener s) s.listeners ++ show_listeners servers

pub record SystemReport : Type 0 where
  pub entry : Option Text
  pub listeners : List ShownListener
  pub plugins : List (Text × Text)
  pub upstreams : List ShownUpstream

unfoldable pub system : Urls → Option Text → Config → SystemReport
unfolding show_listener show_upstreams
system U default cfg = record {
  entry = default;
  listeners = show_listeners cfg.servers;
  plugins = map named cfg.plugins;
  upstreams = show_upstreams U cfg.plugins;
}
