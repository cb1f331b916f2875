-- ===== src/Runtime/Build.antt =====
-- runtime.rs: `Runtime::build`, which makes a registry of the plugins of a configuration.
pub mod Growth
pub mod Served
use ferrumdns.Base.{
  ℕ, Bool, true, false, ◌||◌, Option, none, some, List, [], ◌∷◌, ◌++◌, map, Text, codes, teq,
  is_empty, if◌then◌else◌, Result, ok, err, ◌>>=◌, ok_or, Error, config, plugin, unknown_tag,
}
use ferrumdns.Actions.Redirect
use ferrumdns.Actions.Redirect.{Rules, blackhole_rcode}
use ferrumdns.Cache.Serve.{bind_refresh}
use ferrumdns.Cache.Store
use ferrumdns.Cache.Store.{Cache}
use ferrumdns.Config.Lift.{normalize_entries}
use ferrumdns.Config.Types.{PluginConfig, ServerConfig, Config}
use ferrumdns.Dns.{Hickory}
use ferrumdns.Ecs.Address.{Networks}
use ferrumdns.Ecs.Attach
use ferrumdns.Ecs.Attach.{Ecs}
use ferrumdns.Fallback
use ferrumdns.Fallback.{Fallback}
use ferrumdns.Forward.Setup
use ferrumdns.Forward.Setup.{Connected}
use ferrumdns.Hosts
use ferrumdns.Hosts.{Hosts}
use ferrumdns.Matcher.DomainSet
use ferrumdns.Matcher.DomainSet.{DomainSet, Regexes}
use ferrumdns.Matcher.Eval
use ferrumdns.Matcher.Eval.{IpSet}
use ferrumdns.Runtime.Graph.{
  Edges, Visit, out_of_fuel, panic, done, find, tag_of, validate_plugin_graph,
}
use ferrumdns.Runtime.Settings.{validate_settings, pick_default_entry}
use ferrumdns.Sequence.{Sequence, Sets, parse_steps, compile_steps}
use ferrumdns.Server.Listener.{Tls}
use ferrumdns.Upstream.Spec.{UpstreamSpec}
use ferrumdns.Yaml.{Value}

-- A plugin of the registry. A cache is kept by its tag among the caches.
pub data Executable (C S : Type 0) : Type 0 where
  cache : Text → Executable C S
  hosts : Hosts → Executable C S
  forward : Connected C S → Executable C S
  black_hole : ℕ → Executable C S
  redirect : Rules → Executable C S
  ecs : Ecs → Executable C S
  no_ecs : Text → Executable C S
  sequence : Sequence → Executable C S
  fallback : Fallback → Executable C S

-- The maps, with the entry last inserted in front, and what waits for the registry.
pub record Building (C S : Type 0) : Type 0 where
  pub execs : List (Text × Executable C S)
  pub domains : List (Text × DomainSet)
  pub ips : List (Text × IpSet)
  pub caches : List (Text × Cache)
  pub pending_seq : List (Text × Value)
  pub pending_fb : List (Text × Fallback)

abbrev pub nothing_built : {C S : Type 0} → Building C S
nothing_built = record {
  execs = [];
  domains = [];
  ips = [];
  caches = [];
  pending_seq = [];
  pending_fb = [];
}

pub record Runtime (C S : Type 0) : Type 0 where
  pub execs : List (Text × Executable C S)
  pub domains : List (Text × DomainSet)
  pub ips : List (Text × IpSet)
  pub caches : List (Text × Cache)
  pub default_entry : Option Text
  pub config : Config

-- What a build takes from outside: the crates, files, and certificates.
pub record Outside : Type 0 where
  pub hickory : Hickory
  pub regexes : Regexes
  pub networks : Networks
  pub tls : Tls
  pub read : Text → Option Text
  pub builds : UpstreamSpec → Bool
  pub is_level : Text → Bool
  pub order : Edges → List Text

-- The arms of the match on the type of a plugin.
pub data PluginType : Type 0 where
  of_domain_set of_ip_set of_cache of_hosts of_forward of_black_hole : PluginType
  of_redirect of_ecs of_no_ecs of_sequence of_fallback unknown_type : PluginType

unfoldable pub plugin_type : Text → PluginType
unfolding teq
plugin_type ty =
    if teq ty (codes "domain_set")
    then of_domain_set
    else if teq ty (codes "ip_set")
    then of_ip_set
    else if teq ty (codes "cache")
    then of_cache
    else if teq ty (codes "hosts")
    then of_hosts
    else if teq ty (codes "forward") || teq ty (codes "fast_forward")
    then of_forward
    else if teq ty (codes "black_hole") || teq ty (codes "blackhole") || teq ty (codes "reject_any")
    then of_black_hole
    else if teq ty (codes "redirect")
    then of_redirect
    else if teq ty (codes "ecs")
    then of_ecs
    else if teq ty (codes "no_ecs") || teq ty (codes "_no_ecs")
    then of_no_ecs
    else if teq ty (codes "sequence")
    then of_sequence
    else if teq ty (codes "fallback")
    then of_fallback
    else unknown_type

-- The servers without an entry get the default one.
unfoldable pub fill_entries : Option Text → List ServerConfig → Result (List ServerConfig)
fill_entries default [] = ok []
fill_entries default (s ∷ servers) = do
  entry ← (if is_empty s.exec then ok_or default (config "server has no exec/entry") else ok s.exec)
  rest ← fill_entries default servers
  ok (record s { exec = entry } ∷ rest)

abbrev pub bind_caches : Option Text → List (Text × Cache) → List (Text × Cache)
bind_caches none caches = caches
bind_caches (some entry) caches = map (λ c. (c.0, bind_refresh entry c.1)) caches

unfoldable pub compile_all : Hickory → Sets → List (Text × Value) → Result (List (Text × Sequence))
unfolding parse_steps compile_steps
compile_all H sets [] = ok []
compile_all H sets ((tag, args) ∷ pending) = do
  raw ← parse_steps args
  seq ← compile_steps H sets tag raw
  rest ← compile_all H sets pending
  ok ((tag, seq) ∷ rest)

module _ (O : Outside) {C S : Type 0} where
  abbrev pub with_exec : Text → Executable C S → Building C S → Building C S
  with_exec tag e b = record b { execs = (tag, e) ∷ b.execs }

  -- One round of the loop over the plugins, by the type of the plugin.
  unfoldable pub add_plugin : PluginType → PluginConfig → Building C S → Result (Building C S)
  add_plugin of_domain_set p b = do
    set ← DomainSet.from_args O.regexes O.read p.args p.base_dir
    ok (record b { domains = (tag_of p, set) ∷ b.domains })
  add_plugin of_ip_set p b = do
    set ← Eval.from_args O.networks O.read p.args p.base_dir
    ok (record b { ips = (tag_of p, set) ∷ b.ips })
  add_plugin of_cache p b = ok (
      with_exec (tag_of p) (cache (tag_of p))
        (record b { caches = (tag_of p, Store.from_args (tag_of p) p.args) ∷ b.caches }))
  add_plugin of_hosts p b = do
    h ← Hosts.from_args O.hickory O.networks (tag_of p) O.read p.args p.base_dir
    ok (with_exec (tag_of p) (hosts h) b)
  add_plugin of_forward p b = do
    f ← Setup.from_args O.builds (tag_of p) p.args
    ok (with_exec (tag_of p) (forward f) b)
  add_plugin of_black_hole p b = ok (with_exec (tag_of p) (black_hole (blackhole_rcode p.args)) b)
  add_plugin of_redirect p b = do
    r ← Redirect.from_args O.hickory p.args
    ok (with_exec (tag_of p) (redirect r) b)
  add_plugin of_ecs p b = do
    e ← Attach.from_args O.networks (tag_of p) p.args
    ok (with_exec (tag_of p) (ecs e) b)
  add_plugin of_no_ecs p b = ok (with_exec (tag_of p) (no_ecs (tag_of p)) b)
  add_plugin of_sequence p b =
      ok (record b { pending_seq = b.pending_seq ++ (tag_of p, p.args) ∷ [] })
  add_plugin of_fallback p b = do
    f ← Fallback.from_args (tag_of p) p.args
    ok (record b { pending_fb = b.pending_fb ++ (tag_of p, f) ∷ [] })
  add_plugin unknown_type p b = err (plugin (tag_of p) p.ty "unknown plugin type")

  unfoldable pub add_plugins : List PluginConfig → Building C S → Result (Building C S)
  unfolding plugin_type add_plugin
  add_plugins [] b = ok b
  add_plugins (p ∷ ps) b = do b' ← add_plugin (plugin_type p.ty) p b; add_plugins ps b'

  abbrev pub sets_of : Building C S → Sets
  sets_of b = record { domains = λ t. find t b.domains; ips = λ t. find t b.ips }

  -- The sequences are inserted in their order, and then the fallbacks.
  abbrev pub insert_all :
      {A : Type 0}
      → (A → Executable C S)
      → List (Text × A)
      → List (Text × Executable C S)
      → List (Text × Executable C S)
  insert_all wrap [] execs = execs
  insert_all wrap ((tag, a) ∷ rest) execs = insert_all wrap rest ((tag, wrap a) ∷ execs)

  -- Every entry is in the registry.
  unfoldable pub check_entries :
      List (Text × Executable C S) → List ServerConfig → Result (Unit {0})
  unfolding find
  check_entries execs [] = ok tt
  check_entries execs (s ∷ servers) = do
    _ ← ok_or (find s.exec execs) (unknown_tag s.exec)
    check_entries execs servers

  -- The build once the graph has been checked.
  unfoldable pub build_checked : Config → Result (Runtime C S)
  unfolding validate_settings add_plugins pick_default_entry fill_entries compile_all check_entries
      bind_refresh
  build_checked cfg = do
    _ ← validate_settings O.tls O.is_level cfg
    b ← add_plugins cfg.plugins nothing_built
    let default = pick_default_entry cfg.servers b.pending_seq
    servers ← fill_entries default cfg.servers
    compiled ← compile_all O.hickory (sets_of b) b.pending_seq
    let execs = insert_all fallback b.pending_fb (insert_all sequence compiled b.execs)
    _ ← check_entries execs servers
    ok (record {
      execs = execs;
      domains = b.domains;
      ips = b.ips;
      caches = bind_caches default b.caches;
      default_entry = default;
      config = record cfg { servers = servers };
    })

  -- `none` stands for the ends of the check of the graph that do not occur.
  abbrev pub after_graph : Visit → Result (Runtime C S) → Option (Result (Runtime C S))
  after_graph out_of_fuel next = none
  after_graph panic next = none
  after_graph (done (err e)) next = some (err e)
  after_graph (done (ok _)) next = some next

  unfoldable pub build : Config → Option (Result (Runtime C S))
  unfolding normalize_entries validate_plugin_graph build_checked
  build cfg' = elim (normalize_entries cfg') [
    | err e ↦ some (err e)
    | ok cfg ↦ after_graph (validate_plugin_graph cfg.plugins O.order) (build_checked cfg)
  ]
