-- ===== src/Tests/Loading.antt =====
-- Runs of the theorems on configurations, on the build of a runtime and on its reloads.
use ferrumdns.Actions.Redirect.{blackhole_rcode}
use ferrumdns.Base.{
  ◌<◌, ◌≡◌, ◌≢◌, refl, true, none, some, List, [], ◌∷◌, ◌++◌, Text, codes, teq, if◌then◌else◌,
  Result, ok, err, inl, io, filter, map_result, ◌>>=◌, All, Option, Bool-cases, inr, subst, some-eq,
  arith,
}
use ferrumdns.Config.Lift.Split.{is_server, is_plain, lift_server_plugins-filter}
use ferrumdns.Config.Lift.{server_of, lift_server_plugins}
use ferrumdns.Config.Load.Includes.{by_entry, here, step, load_file-Chain}
use ferrumdns.Config.Load.Ready.{IsReady, ParsesBare, load_file-Answers, load_file-IsReady}
use ferrumdns.Config.Load.{Files, max_include_depth, load_file, parent, from_yaml}
use ferrumdns.Config.Paths.{resolve_path}
use ferrumdns.Config.Types.{PluginConfig, Config}
use ferrumdns.Runtime.Build.{Runtime, Outside, build, build_checked, sequence, black_hole}
use ferrumdns.Sequence.{plugin}
use ferrumdns.Runtime.Graph.{validate_plugin_graph}
use ferrumdns.Runtime.Live.Reloads.{Comes, reload_loop-Comes, reload_loop-Answers}
use ferrumdns.Runtime.Live.Swaps.{SameSettings}
use ferrumdns.Runtime.Live.{reload_loop, reload_file}
use ferrumdns.Tests.Fixtures.{crates, no_regexes, host_networks}
use ferrumdns.Tests.Lookups.{key_order, key_order-IsKnown}
use ferrumdns.Yaml
use ferrumdns.Yaml.{Value, null, string, mapping, nil, cons, end, entry, get, find_key}

-- A sequence that calls a plugin of the other file.
abbrev steps : Value
steps =
    Yaml.sequence (cons (mapping (entry (string (codes "exec")) (string (codes "$sink")) end)) nil)

abbrev main : PluginConfig
main = record { tag = some (codes "main"); ty = codes "sequence"; args = steps; base_dir = [] }

abbrev sink : PluginConfig
sink = record { tag = some (codes "sink"); ty = codes "black_hole"; args = null; base_dir = [] }

-- A plugin that stands for a server at the default address.
abbrev server : PluginConfig
server = record {
  tag = none;
  ty = codes "udp_server";
  args = mapping (entry (string (codes "entry")) (string (codes " $main")) end);
  base_dir = [];
}

abbrev of_plugins : List PluginConfig → List Text → Config
of_plugins plugins include = record {
  log = record { level = codes "info"; file = none };
  include = include;
  plugins = plugins;
  servers = [];
  api = record { http = none };
  base_dir = [];
}

abbrev files : Files
files = record {
  canonicalize = λ p. some p;
  read = λ p. some p;
  parse = λ t.
      if teq t (codes "/etc/a")
      then some (of_plugins (main ∷ server ∷ []) (codes "b" ∷ []))
      else if teq t (codes "/etc/b")
      then some (of_plugins (sink ∷ []) [])
      else none;
}

abbrev loaded : Config
loaded =
    record (of_plugins
      (record main { base_dir = codes "/etc" } ∷ record sink { base_dir = codes "/etc" } ∷ [])
      (codes "b" ∷ [])) {
        servers =
            record {
              exec = codes "main";
              timeout = 5;
              listeners =
                  record {
                    protocol = codes "udp";
                    addr = codes "0.0.0.0:53";
                    cert = none;
                    key = none;
                    url_path = none;
                    idle_timeout = none;
                    workers = none;
                  }
                  ∷ [];
            }
            ∷ [];
        base_dir = codes "/etc";
      }

loads : load_file files (codes "/etc/a") ≡ some (ok loaded)
unfolding load_file find_key
loads = refl

load_file-Answers_example : (r : Result Config) × (load_file files (codes "/etc/a") ≡ some r)
load_file-Answers_example = load_file-Answers files (codes "/etc/a")

is_some : {A : Type 0} {a : A} → ◌≡◌ {A = Option A} none (some a) → ⊥
is_some h = ground arith

files-ParsesBare : ParsesBare files
files-ParsesBare text raw h = elim (Bool-cases (teq text (codes "/etc/a"))) [
  | inl first' ↦
      subst (λ (c : Config). All (λ (p : PluginConfig). p.base_dir ≡ []) c.plugins)
        (some-eq _ raw (rw first' at h)) (refl, (refl, tt))
  | inr other ↦ elim (Bool-cases (teq text (codes "/etc/b"))) [
    | inl second ↦
        subst (λ (c : Config). All (λ (p : PluginConfig). p.base_dir ≡ []) c.plugins)
          (some-eq _ raw (rw (other, second) at h)) (refl, tt)
    | inr none_read ↦ absurd (is_some (rw (other, none_read) at h))
  ]
]

load_file-IsReady_example : IsReady files (codes "/etc/a") loaded
load_file-IsReady_example = load_file-IsReady files (codes "/etc/a") loaded files-ParsesBare loads

-- The first file, as it is read: its server is lifted.
abbrev lifted : Config
lifted = record (of_plugins (main ∷ []) (codes "b" ∷ [])) { servers = loaded.servers }

load_file-Chain_example :
    (1 < max_include_depth)
    × (some (codes "/etc/b") ≢ some (codes "/etc/a"))
    × (c : Text) × (some (codes "/etc/a") ≡ some c)
unfolding parent from_yaml find_key resolve_path
load_file-Chain_example = load_file-Chain files (codes "/etc/a") (codes "/etc/b") loaded loads (
    step (by_entry (codes "/etc/a") (codes "b") lifted refl refl (inl refl) refl)
      (here (codes "/etc/b")))

abbrev listed : Config
listed = of_plugins (main ∷ server ∷ sink ∷ []) []

lift_server_plugins-filter_example : lift_server_plugins listed ≡ (do
  new ← map_result server_of (filter is_server listed.plugins)
  ok (record listed { plugins = filter is_plain listed.plugins; servers = [] ++ new }))
lift_server_plugins-filter_example = lift_server_plugins-filter listed

abbrev outside : Outside
outside = record {
  hickory = crates;
  regexes = no_regexes;
  networks = host_networks;
  tls = record { acceptor = λ cert key. err io; parse_uri = λ t. none };
  read = λ p. none;
  builds = λ spec. true;
  is_level = λ t. teq t (codes "info");
  order = key_order;
}

abbrev served : Runtime Text Text
served = record {
  execs =
      (
        codes "main",
        sequence (record {
          tag = codes "main";
          steps = record { matchers = []; exec = plugin (codes "sink") } ∷ [];
        }),
      )
      ∷ (codes "sink", black_hole 3)
      ∷ [];
  domains = [];
  ips = [];
  caches = [];
  default_entry = some (codes "main");
  config = loaded;
}

builds : build outside loaded ≡ some (ok served)
unfolding build build_checked validate_plugin_graph find_key blackhole_rcode
builds = refl

-- The files at a time when they cannot be found.
abbrev no_files : Files
no_files = record { canonicalize = λ p. none; read = λ p. none; parse = λ t. none }

abbrev signals : List (Files × Outside)
signals = (no_files, outside) ∷ (files, outside) ∷ []

abbrev first : Runtime Text Text
first = record served { execs = [] }

reloads : reload_loop signals (codes "/etc/a") first ≡ some served
unfolding reload_loop reload_file load_file build build_checked validate_plugin_graph find_key
    blackhole_rcode
reloads = refl

reload_loop-Comes_example : Comes (codes "/etc/a") signals first served × SameSettings first served
reload_loop-Comes_example = reload_loop-Comes signals (codes "/etc/a") first served reloads

reload_loop-Answers_example :
    (rt : Runtime Text Text) × (reload_loop signals (codes "/etc/a") first ≡ some rt)
reload_loop-Answers_example =
    reload_loop-Answers signals (codes "/etc/a") first (key_order-IsKnown, (key_order-IsKnown, tt))
