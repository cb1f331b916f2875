-- ===== src/Plugin.antt =====
-- plugin/mod.rs: what a plugin is to the sequence runner.
use ferrumdns.Base.{Option, Text, unknown_tag, Result, ok_or}
use ferrumdns.Context.{QueryContext}
use ferrumdns.Dns.{Message}
use ferrumdns.Base.{ℕ}

pub data Action : Type 0 where
  continue accept return : Action
  goto : Text → Action

-- What a call leaves: its result, the context, and the state that the plugins share.
abbrev pub Outcome : Type 0 → Type 0
Outcome S = Result Action × QueryContext × S

-- `Executable::exec`.
abbrev pub Exec : Type 0 → Type 0
Exec S = QueryContext → S → Outcome S

-- `CacheLookup`: the request at a cache step that was executed.
pub record CacheLookup : Type 0 where
  pub key : Text
  pub query : Message
  pub rewrite_start : ℕ

-- A cache, as the sequence runner sees it.
pub record CacheHandle (S : Type 0) : Type 0 where
  pub snapshot : QueryContext → Option CacheLookup
  pub store_lookup : QueryContext → CacheLookup → S → S

pub record Registry (S : Type 0) : Type 0 where
  pub execs : Text → Option (Exec S)
  pub caches : Text → Option (CacheHandle S)

unfoldable pub get_exec : {S : Type 0} → Registry S → Text → Result (Exec S)
get_exec reg tag = ok_or (reg.execs tag) (unknown_tag tag)
