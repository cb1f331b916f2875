-- ===== src/Config/Load/Ready.antt =====
-- config.rs: a load of a file always ends, and what it gives is ready for use.
use ferrumdns.Base.{
  ℕ, suc, ◌≡◌, refl, sym, ap, ◌∙◌, inl, inr, Bool-cases, false, not, Option, none, some, List, [],
  ◌∷◌, Text, filter, map, All, All-append, Result, ok, >>=-eq-ok, ok-eq, subst, map_result, ok_or,
  config, ok_or-eq, codes,
}
use ferrumdns.Config.Load.Includes.{Among, Includes, Chain, here, step}
use ferrumdns.Config.Lift.Entries.{IsEntry, AreEntries, normalize_entries-AreEntries}
use ferrumdns.Config.Lift.Split.{lift_server_plugins-filter}
use ferrumdns.Config.Lift.{
  is_server_type, lift_server_plugins, normalize_entries, normalize_servers, server_of,
}
use ferrumdns.Config.Load.{
  Files, parent, base_of, stamp_plugin, stamp_server, stamp_base, merge, from_yaml, Loading,
  load_file, placed,
}
use ferrumdns.Config.Load.Loop.{Ends, load_file-Ends}
use ferrumdns.Config.Types.{PluginConfig, ServerConfig, Config}

-- The directory of a file with this parent, `.` when that is empty or there is none.
abbrev pub IsDirectory : Option Text → Text → Type 0
IsDirectory none dir = dir ≡ codes "."
IsDirectory (some []) dir = dir ≡ codes "."
IsDirectory (some (c ∷ d)) dir = dir ≡ c ∷ d

base_of-IsDirectory : (p : Option Text) → IsDirectory p (base_of p)
base_of-IsDirectory none = refl
base_of-IsDirectory (some []) = refl
base_of-IsDirectory (some (c ∷ p)) = refl

-- A plugin is listed in a file that a chain of includes leads to, knows the directory of that file,
-- and stands for no server.
pub record IsPlaced (F : Files) (path : Text) (p : PluginConfig) : Type 0 where
  pub file : Text
  pub includes : ℕ
  pub chain : Chain F path file includes
  pub text : Text
  pub contents : Config
  pub read_is : F.read file ≡ some text
  pub contents_is : from_yaml F text ≡ ok contents
  pub source : PluginConfig
  pub listed : Among source contents.plugins
  pub like_source : p ≡ record source { base_dir = p.base_dir }
  pub directory : IsDirectory (parent file) p.base_dir
  pub plain : is_server_type p.ty ≡ false

abbrev pub IsReady : Files → Text → Config → Type 0
IsReady F path cfg = AreEntries cfg.servers × All (IsPlaced F path) cfg.plugins

-- Reading YAML gives no plugin a directory: that field is skipped.
abbrev pub ParsesBare : Files → Type 0
ParsesBare F =
    (text : Text) (raw : Config)
    → F.parse text ≡ some raw
    → All (λ (p : PluginConfig). p.base_dir ≡ []) raw.plugins

stamp_servers-AreEntries :
    (base : Text) (servers : List ServerConfig)
    → AreEntries servers
    → AreEntries (map (stamp_server base) servers)
stamp_servers-AreEntries base [] h = tt
stamp_servers-AreEntries base (s ∷ servers) (h, hs) = (h, stamp_servers-AreEntries base servers hs)

-- A plugin that is read from a file, before it is stamped.
abbrev IsBare : PluginConfig → Type 0
IsBare p = (p.base_dir ≡ []) × (is_server_type p.ty ≡ false)

filter-IsBare :
    (ps : List PluginConfig)
    → All (λ (p : PluginConfig). p.base_dir ≡ []) ps
    → All IsBare (filter (λ (p : PluginConfig). not (is_server_type p.ty)) ps)
filter-IsBare [] h = tt
filter-IsBare (p ∷ ps) (h, hs) = elim (Bool-cases (is_server_type p.ty)) [
  | inl server ↦ rw server (filter-IsBare ps hs)
  | inr plain ↦ rw plain ((h, plain), filter-IsBare ps hs)
]

-- What `from_yaml` gives.
abbrev IsRead : Config → Type 0
IsRead cfg = AreEntries cfg.servers × All IsBare cfg.plugins

pub normalize_entries-plugins :
    (cfg cfg' : Config) → normalize_entries cfg ≡ ok cfg' → cfg.plugins ≡ cfg'.plugins
unfolding normalize_entries
normalize_entries-plugins cfg cfg' h =
    let (servers, e, same) = >>=-eq-ok (normalize_servers cfg.servers) _ h in
    ap (λ (c : Config). c.plugins) (ok-eq same)

lift-IsBare :
    (cfg cfg' : Config)
    → All (λ (p : PluginConfig). p.base_dir ≡ []) cfg.plugins
    → lift_server_plugins cfg ≡ ok cfg'
    → All IsBare cfg'.plugins
lift-IsBare cfg cfg' bare h =
    let (new, e, same) =
      >>=-eq-ok
        (map_result server_of (filter (λ (p : PluginConfig). is_server_type p.ty) cfg.plugins)) _
        (sym (lift_server_plugins-filter cfg) ∙ h) in
    subst (λ (c : Config). All IsBare c.plugins) (ok-eq same) (filter-IsBare cfg.plugins bare)

module _ (F : Files) (parses_bare : ParsesBare F) where
  from_yaml-IsRead : (text : Text) (cfg : Config) → from_yaml F text ≡ ok cfg → IsRead cfg
  unfolding from_yaml
  from_yaml-IsRead text cfg h =
      let (raw, parsed, h1) = >>=-eq-ok (ok_or (F.parse text) (config "yaml parse")) _ h in
      let (lifted, e, h2) = >>=-eq-ok (lift_server_plugins raw) _ h1 in
      (
        normalize_entries-AreEntries lifted cfg h2,
        subst (All IsBare) (normalize_entries-plugins lifted cfg h2)
            (lift-IsBare raw lifted (parses_bare text raw (ok_or-eq _ _ parsed)) e),
      )

  module _ (path text : Text) (cfg : Config) (read_is : F.read path ≡ some text)
      (contents_is : from_yaml F text ≡ ok cfg) where
    stamp-IsPlaced :
        (p : PluginConfig)
        → Among p cfg.plugins
        → IsBare p
        → IsPlaced F path (stamp_plugin (base_of (parent path)) p)
    stamp-IsPlaced p among (unset, plain) = record {
      file = path;
      includes = 0;
      chain = here path;
      text = text;
      contents = cfg;
      read_is = read_is;
      contents_is = contents_is;
      source = p;
      listed = among;
      like_source = refl;
      directory = rw unset (base_of-IsDirectory (parent path));
      plain = plain;
    }

    stamp_plugins-IsPlaced :
        (ps : List PluginConfig)
        → ((p : PluginConfig) → Among p ps → Among p cfg.plugins)
        → All IsBare ps
        → All (IsPlaced F path) (map (stamp_plugin (base_of (parent path))) ps)
    stamp_plugins-IsPlaced [] listed h = tt
    stamp_plugins-IsPlaced (p ∷ ps) listed (h, hs) = (
      stamp-IsPlaced p (listed p (inl refl)) h,
      stamp_plugins-IsPlaced ps (λ p' among. listed p' (inr among)) hs,
    )

    placed-IsReady : IsReady F path (placed F path cfg)
    unfolding stamp_base
    placed-IsReady =
        let (entries, bare) = from_yaml-IsRead text cfg contents_is in
        (
          stamp_servers-AreEntries (base_of (parent path)) cfg.servers entries,
          stamp_plugins-IsPlaced cfg.plugins (λ p among. among) bare,
        )

included-IsPlaced :
    {F : Files} {path other : Text}
    → Includes F path other
    → (ps : List PluginConfig) → All (IsPlaced F other) ps
    → All (IsPlaced F path) ps
included-IsPlaced inc [] h = tt
included-IsPlaced inc (p ∷ ps) (h, hs) = (
  record {
    file = h.file;
    includes = suc h.includes;
    chain = step inc h.chain;
    text = h.text;
    contents = h.contents;
    read_is = h.read_is;
    contents_is = h.contents_is;
    source = h.source;
    listed = h.listed;
    like_source = h.like_source;
    directory = h.directory;
    plain = h.plain;
  },
  included-IsPlaced inc ps hs,
)

merge-IsReady :
    {F : Files} (path other : Text) (cfg extra : Config)
    → Includes F path other
    → IsReady F path cfg
    → IsReady F other extra
    → IsReady F path (merge cfg extra)
unfolding merge
merge-IsReady {F = F} path other cfg extra inc (e, p) (e', p') = (
  All-append (λ (s : ServerConfig). IsEntry s.exec) cfg.servers extra.servers e e',
  All-append (IsPlaced F path) cfg.plugins extra.plugins p (included-IsPlaced inc extra.plugins p'),
)

Ends-Answers : (P : Config → Type 0) (l : Loading) → Ends P l → (r : Result Config) × (l ≡ some r)
Ends-Answers P none h = absurd h
Ends-Answers P (some r) h = (r, refl)

-- Loading a file always gives a configuration or an error, whatever the files include, each other
-- and themselves too: the bound of 65 nested files is never met, since the code stops at 64.
pub load_file-Answers :
    (F : Files) (path : Text) → (r : Result Config) × (load_file F path ≡ some r)
load_file-Answers F path =
    Ends-Answers (λ _. Unit {0}) (load_file F path)
      (load_file-Ends F (λ _ _. Unit {0}) (λ path text cfg h h'. tt)
        (λ path other cfg extra inc h h'. tt) path)

-- In a configuration that is loaded from a file, with all that it includes, the entries of the
-- servers have no white space and no `$` in front, and no plugin stands for a server. Every plugin
-- is one that some file lists, to which a chain of includes leads from the first file, and has the
-- directory of that file, or `.` where that is empty or there is none. That is when the reading of
-- YAML gives no plugin a directory.
pub load_file-IsReady :
    (F : Files) (path : Text) (cfg : Config)
    → ParsesBare F
    → load_file F path ≡ some (ok cfg)
    → IsReady F path cfg
load_file-IsReady F path cfg bare h =
    subst (Ends (IsReady F path)) h
      (load_file-Ends F (IsReady F) (placed-IsReady F bare) merge-IsReady path)
