-- ===== src/Cache/Store.antt =====
-- plugin/cache.rs: `Cache`. Times are nanoseconds of one monotonic clock, and an operation takes
-- the time at which it reads the clock.
use ferrumdns.Base.{
  ℕ, zero, suc, ◌+◌, ◌*◌, ◌/◌, ◌%◌, ◌^◌, max, Bool, false, not, ◌&&◌, ◌||◌, Option, none, some,
  List, [], ◌∷◌, Text, codes, utf8, ◌==◌, ltb, leb, length, get_elem?, if◌then◌else◌, ok, err,
}
use Prim.Native.Nat.{bit_xor}
use ferrumdns.Cache.Key.{cacheable_edns, key_of}
use ferrumdns.Cache.Shard.{Shard, new_shard}
use ferrumdns.Cache.Shard
use ferrumdns.Context.{QueryContext, rewrite_count}
use ferrumdns.Context.Rebind.{response_for_query}
use ferrumdns.Dns.Rcode
use ferrumdns.Dns.{Message, Hickory}
use ferrumdns.Dnsutil.{encode, min_ttl}
use ferrumdns.Metrics.{u64_mod}
use ferrumdns.Plugin.{CacheLookup}
use ferrumdns.Yaml.{Value, get, as_u64, as_bool, and_then, unwrap_or, or_else}

abbrev pub second : ℕ
second = 1_000_000_000

pub record Entry : Type 0 where
  pub wire : List ℕ
  pub stored : ℕ
  pub ttl_deadline : ℕ
  pub expire : ℕ

-- A spawned refresh: the context that it runs, from which entry, and the key that it holds.
pub record Refresh : Type 0 where
  pub context : QueryContext
  pub entry : Text
  pub key : Text

-- The settings of a cache; `refresh` is the entry that `bind_refresh` gave.
pub record Settings : Type 0 where
  pub tag : Text
  pub lazy_ttl : ℕ
  pub lazy_reply_ttl : ℕ
  pub cache_everything : Bool
  pub refresh : Option Text

pub record Cache : Type 0 where
  pub settings : Settings
  pub shards : List (Shard Entry)
  pub inflight : List Text
  pub spawned : List Refresh

abbrev pub replicate_shards : ℕ → ℕ → List (Shard Entry)
replicate_shards zero per = []
replicate_shards (suc n) per = new_shard per ∷ replicate_shards n per

unfoldable pub from_args : Text → Value → Cache
unfolding get
from_args tag args =
    let size = unwrap_or (and_then (get (codes "size") args) as_u64) 8192 in
    let per = max (size / 16) 32 in
    let lazy =
      unwrap_or
        (and_then (or_else (get (codes "lazy_cache_ttl") args) (get (codes "lazy_ttl") args))
          as_u64)
        0 in
    let lazy_reply =
      unwrap_or (and_then (get (codes "lazy_cache_reply_ttl") args) as_u64) 5 % 2 ^ 32 in
    record {
      settings = record {
        tag = tag;
        lazy_ttl = lazy * second;
        lazy_reply_ttl = max lazy_reply 1;
        cache_everything = unwrap_or (and_then (get (codes "cache_everything") args) as_bool) false;
        refresh = none;
      };
      shards = replicate_shards 16 per;
      inflight = [];
      spawned = [];
    }

-- The loop of `shard`, over the bytes of the key.
unfoldable pub hash_from : ℕ → List ℕ → ℕ
hash_from h [] = h
hash_from h (b ∷ bs) = hash_from (bit_xor (h * 16777619 % u64_mod) b) bs

unfoldable pub shard_index : Text → Cache → ℕ
unfolding hash_from utf8
shard_index key c = hash_from 0 (utf8 key) % length c.shards

-- The shard at an index, given anew.
abbrev pub set_shard : List (Shard Entry) → ℕ → Shard Entry → List (Shard Entry)
set_shard [] i s = []
set_shard (t ∷ ts) zero s = s ∷ ts
set_shard (t ∷ ts) (suc i) s = t ∷ set_shard ts i s

abbrev pub is_lazy : Cache → Bool
is_lazy c = ltb 0 c.settings.lazy_ttl

-- What `lookup` says of an entry that the shard holds.
unfoldable pub fresh : Cache → ℕ → Entry → Option (List ℕ × Bool × ℕ)
fresh c now e =
    if leb e.expire now then none else some (e.wire, leb e.ttl_deadline now && is_lazy c, e.stored)

unfoldable pub lookup : Text → ℕ → Cache → Cache × Option (List ℕ × Bool × ℕ)
unfolding shard_index fresh Shard.get
lookup key now c = elim (get_elem? c.shards (shard_index key c)) [
  | none ↦ (c, none)
  | some s ↦
      let (s', found) = Shard.get key s in
      let c' = record c { shards = set_shard c.shards (shard_index key c) s' } in
      elim found [ none ↦ (c', none) | some e ↦ (c', fresh c now e) ]
]

unfoldable pub insert_entry : Text → Entry → Cache → Cache
unfolding shard_index Shard.insert
insert_entry key e c = elim (get_elem? c.shards (shard_index key c)) [
  | none ↦ c
  | some s ↦ record c { shards = set_shard c.shards (shard_index key c) (Shard.insert key e s) }
]

-- The entry that `store` makes at a time.
unfoldable pub make_entry : Cache → ℕ → ℕ → List ℕ → Entry
make_entry c now ttl wire =
    let deadline = now + ttl * second in
    record {
      wire = wire;
      stored = now;
      ttl_deadline = deadline;
      expire = if is_lazy c then max deadline (now + c.settings.lazy_ttl) else deadline;
    }

module _ (H : Hickory) where
  unfoldable pub store : Text → Message → ℕ → Cache → Cache
  unfolding cacheable_edns encode min_ttl insert_entry make_entry
  store key resp now c =
      if not (resp.response_code == Rcode.no_error) || resp.truncated || not (cacheable_edns resp)
      then c
      else elim (encode H resp) [
        | err e ↦ c
        | ok wire ↦
            if min_ttl resp == 0
            then c
            else insert_entry key (make_entry c now (min_ttl resp) wire) c
      ]

  unfoldable pub snapshot : Settings → QueryContext → Option CacheLookup
  unfolding key_of
  snapshot settings ctx = elim (key_of H ctx settings.cache_everything) [
    | none ↦ none
    | some key ↦ some (record { key = key; query = ctx.query; rewrite_start = rewrite_count ctx })
  ]

  abbrev has_uncacheable_response : QueryContext → Bool
  has_uncacheable_response ctx = elim ctx.response [
    | none ↦ false
    | some r ↦ not (cacheable_edns r)
  ]

  unfoldable pub store_lookup : QueryContext → CacheLookup → ℕ → Cache → Cache
  unfolding cacheable_edns response_for_query store
  store_lookup ctx look now c =
      if ctx.served_from_cache || has_uncacheable_response ctx
      then c
      else elim (response_for_query H ctx look.query look.rewrite_start) [
        | none ↦ c
        | some resp ↦ store look.key resp now c
      ]

  unfoldable pub maybe_store : QueryContext → ℕ → Cache → Cache
  unfolding snapshot store_lookup
  maybe_store ctx now c = elim (snapshot c.settings ctx) [
    | none ↦ c
    | some look ↦ store_lookup ctx look now c
  ]
