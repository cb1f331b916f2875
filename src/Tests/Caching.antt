-- ===== src/Tests/Caching.antt =====
-- Runs of the theorems on the cache.
use ferrumdns.Base.{
  ℕ, ◌*◌, ◌≡◌, refl, true, false, some, List, [], ◌∷◌, Text, codes, teq, decimal, arith,
}
use ferrumdns.Cache.Expiry.{IsStorable, lookup-store}
use ferrumdns.Cache.Hits.{exec-store}
use ferrumdns.Cache.Key.{key_of, cacheable_edns}
use ferrumdns.Cache.Keys.{erase}
use ferrumdns.Cache.Refreshing.{CanHappen, IsRefreshing, Event, kick, end, run-IsRefreshing}
use ferrumdns.Cache.Refreshing
use ferrumdns.Cache.Serve.{kick_refresh, end_refresh, Caching, elapsed_secs, exec}
use ferrumdns.Cache.Shard.Recency.{view, write_recent, view-insert}
use ferrumdns.Cache.Shard.Run.{Op, read, write, clear, run-new_shard-IsValid}
use ferrumdns.Cache.Shard.Run
use ferrumdns.Cache.Shard.Valid.{IsValid}
use ferrumdns.Cache.Shard.{Shard, new_shard}
use ferrumdns.Cache.Shard
use ferrumdns.Cache.Store.{Cache, second, lookup, store}
use ferrumdns.Context.Rebind.{rebind_response}
use ferrumdns.Dnsutil.{encode, min_ttl, subtract_ttl}
use ferrumdns.Metrics.{new_metrics, fetch_add}
use ferrumdns.Tests.Fixtures.{request, reply, crates, start}

-- A write, a read, and two more writes to a shard of two entries.
abbrev ops : List (Op ℕ)
ops = write (codes "a") 1 ∷ write (codes "b") 2 ∷ read (codes "a") ∷ write (codes "c") 3 ∷ []

run-new_shard-IsValid_example : IsValid (Run.run (new_shard 2) ops)
run-new_shard-IsValid_example = run-new_shard-IsValid 2 ops

-- The read saves the first key: the second one is evicted.
run_keys : (Run.run (new_shard 2) ops).lru ≡ codes "a" ∷ codes "c" ∷ []
unfolding Shard.insert Shard.get teq erase
run_keys = refl

abbrev full : Shard ℕ
full = Run.run (new_shard 2) ops

full-IsValid : IsValid full
full-IsValid = run-new_shard-IsValid 2 ops

view-insert_example :
    view (Shard.insert (codes "d") 4 full) ≡ write_recent full.cap (codes "d") 4 (view full)
view-insert_example = view-insert (codes "d") 4 full-IsValid

-- A cache with one shard, which refreshes lazily for an hour.
abbrev pub small : Cache
small = record {
  settings = record {
    tag = codes "cache";
    lazy_ttl = 3600 * second;
    lazy_reply_ttl = 5;
    cache_everything = false;
    refresh = some (codes "main");
  };
  shards = new_shard 32 ∷ [];
  inflight = [];
  spawned = [];
}

abbrev wire : List ℕ
wire = 7 ∷ 300 ∷ []

reply-IsStorable : IsStorable crates reply wire
unfolding cacheable_edns encode min_ttl
reply-IsStorable = (refl, refl, refl, refl, omega arith)

lookup-store_example :
    (lookup (codes "k") (310 * second) (store crates (codes "k") reply (2 * second) small)).1
    ≡ some (wire, true, 2 * second)
unfolding min_ttl
lookup-store_example =
    lookup-store crates (codes "k") reply wire (2 * second) (310 * second) small (omega arith)
      reply-IsStorable

abbrev caching : Caching
caching = record { cache = small; metrics = new_metrics }

abbrev key : Text
key = codes "www.example|1|1|ecs=-|rd=true|cd=false|ad=false|edns=None"

exec-store_example :
    ((exec crates
        (12 * second)
        (13 * second)
        start
        (record caching { cache = store crates key reply (2 * second) small })).1.response
      ≡ some (
          rebind_response crates
            (subtract_ttl reply (elapsed_secs (13 * second) (2 * second)))
            request))
    × ((exec crates (12 * second) (13 * second) start (record caching {
      cache = store crates key reply (2 * second) small;
    })).1.served_from_cache
        ≡ true)
    × ((exec crates (12 * second) (13 * second) start (record caching {
      cache = store crates key reply (2 * second) small;
    })).2.metrics.cache_hits
        ≡ fetch_add 0 1)
unfolding min_ttl key_of decimal
exec-store_example =
    exec-store crates key reply reply wire (2 * second) (12 * second) (13 * second) start caching
      (omega arith) reply-IsStorable refl (omega arith) refl refl

abbrev events : List Event
events =
    kick start (codes "k") ∷ kick start (codes "k") ∷ end (codes "k") ∷ kick start (codes "k") ∷ []

run-IsRefreshing_example : IsRefreshing (Refreshing.run small events) (codes "k" ∷ [])
unfolding CanHappen kick_refresh end_refresh teq
run-IsRefreshing_example = run-IsRefreshing small events refl refl (omega arith, tt)
