-- ===== src/Cache/Serve.antt =====
-- plugin/cache.rs: answering from the cache, and the lazy refresh.
use ferrumdns.Base.{
  ℕ, ◌+◌, ◌-◌, ◌/◌, ◌%◌, ◌^◌, Bool, true, none, some, List, [], ◌∷◌, ◌++◌, Text, codes,
  if◌then◌else◌, ok, err, map,
}
use ferrumdns.Cache.Key.{key_of}
use ferrumdns.Cache.Keys.{mem, erase}
use ferrumdns.Cache.Shard
use ferrumdns.Cache.Shard.{Shard}
use ferrumdns.Cache.Store.{Cache, Entry, second, lookup}
use ferrumdns.Context.Rebind.{rebind_response}
use ferrumdns.Context.{QueryContext, clone_for_lazy, push_trace, set_response}
use ferrumdns.Dns.{Message, Hickory}
use ferrumdns.Dnsutil.{decode, set_all_ttl, subtract_ttl}
use ferrumdns.Metrics.{Metrics, fetch_add}
use ferrumdns.Plugin.{Action, Outcome}
use ferrumdns.Yaml.{unwrap_or}

unfoldable pub flush : Cache → Cache
flush c = record c { shards = map Shard.flush c.shards }

abbrev pub total : List (Shard Entry) → ℕ
total [] = 0
total (s ∷ ss) = Shard.size s + total ss

unfoldable pub len : Cache → ℕ
len c = total c.shards

-- `OnceLock::set`: the first entry stays.
unfoldable pub bind_refresh : Text → Cache → Cache
bind_refresh entry c = elim c.settings.refresh [
  | some _ ↦ c
  | none ↦ record c { settings = record (c.settings) { refresh = some entry } }
]

-- One refresh for a key at a time; it runs the pipeline from its entry without reading the cache.
unfoldable pub kick_refresh : QueryContext → Text → Cache → Cache
unfolding clone_for_lazy
kick_refresh ctx key c = if ctx.skip_cache then c else elim c.settings.refresh [
  | none ↦ c
  | some entry ↦ if mem key c.inflight then c else record c {
    inflight = key ∷ c.inflight;
    spawned =
        c.spawned
        ++ record {
          context = clone_for_lazy ctx;
          entry = unwrap_or ctx.pipeline_entry entry;
          key = key;
        }
          ∷ [];
  }
]

-- The end of a refresh drops its guard.
unfoldable pub end_refresh : Text → Cache → Cache
unfolding erase
end_refresh key c = record c { inflight = erase key c.inflight }

-- The plugin, with the metrics that it shares.
pub record Caching : Type 0 where
  pub cache : Cache
  pub metrics : Metrics

abbrev count_miss : Metrics → Metrics
count_miss m = record m { cache_misses = fetch_add m.cache_misses 1 }

abbrev count_hit : Bool → Metrics → Metrics
count_hit lazy m = record m {
  cache_hits = fetch_add m.cache_hits 1;
  cache_lazy_hits = if lazy then fetch_add m.cache_lazy_hits 1 else m.cache_lazy_hits;
}

-- `Instant::now().saturating_duration_since(stored).as_secs() as u32`.
abbrev pub elapsed_secs : ℕ → ℕ → ℕ
elapsed_secs now stored = (now - stored) / second % 2 ^ 32

module _ (H : Hickory) where
  -- The reply to a hit: its TTLs, and the question that it answers.
  unfoldable pub hit_reply : Cache → ℕ → QueryContext → Bool → ℕ → Message → Message
  unfolding rebind_response set_all_ttl subtract_ttl
  hit_reply c now ctx lazy stored msg =
      rebind_response H
        (if lazy
          then set_all_ttl msg c.settings.lazy_reply_ttl
          else subtract_ttl msg (elapsed_secs now stored))
        ctx.query

  unfoldable pub miss : Text → QueryContext → Caching → Outcome Caching
  unfolding push_trace
  miss key ctx s = (
    ok Action.continue,
    push_trace ctx s.cache.settings.tag (codes "miss") key,
    record s { metrics = count_miss s.metrics },
  )

  unfoldable pub hit : Text → ℕ → QueryContext → Caching → Bool → ℕ → Message → Outcome Caching
  unfolding push_trace kick_refresh hit_reply set_response
  hit key now ctx s lazy stored msg =
      let ctx' =
        push_trace ctx s.cache.settings.tag (codes (if lazy then "lazy_hit" else "hit")) key in
      let cache' = if lazy then kick_refresh ctx' key s.cache else s.cache in
      (
        ok Action.continue,
        record (set_response ctx' (hit_reply s.cache now ctx' lazy stored msg)) {
          served_from_cache = true;
        },
        record { cache = cache'; metrics = count_hit lazy s.metrics },
      )

  -- `exec`, which reads the clock at the lookup and again for the age of the entry.
  unfoldable pub exec : ℕ → ℕ → QueryContext → Caching → Outcome Caching
  unfolding key_of miss hit lookup decode
  exec now later ctx s = elim (key_of H ctx s.cache.settings.cache_everything) [
    | none ↦ (ok Action.continue, ctx, s)
    | some key ↦
        if ctx.skip_cache
        then (
          ok Action.continue,
          push_trace ctx s.cache.settings.tag (codes "miss") (codes "refresh"),
          record s { metrics = count_miss s.metrics },
        )
        else (let (cache', found) = lookup key now s.cache in
            let s' = record s { cache = cache' } in
            elim found [
              | none ↦ miss key ctx s'
              | some (wire, lazy, stored) ↦ elim (decode H wire) [
                | ok msg ↦ hit key later ctx s' lazy stored msg
                | err e ↦ miss key ctx s'
              ]
            ])
  ]
