-- ===== src/Cache/Hits.antt =====
-- plugin/cache.rs: the reply that a hit gives.
use ferrumdns.Base.{
  ℕ, ◌+◌, ◌*◌, ◌<◌, ◌≡◌, ◌∙◌, refl, ap, arith, sym, subst, Bool, true, false, some, List, Text,
  length, Option-cases, inl, inr, ok,
}
use ferrumdns.Cache.Expiry.{IsStorable, lookup-store}
use ferrumdns.Cache.Key.{key_of}
use ferrumdns.Cache.Serve.{Caching, elapsed_secs, hit, hit_reply, exec}
use ferrumdns.Cache.Store.{Cache, second, lookup, store, insert_entry}
use ferrumdns.Context.Rebind.{rebind_response}
use ferrumdns.Context.{QueryContext, set_response, push_trace}
use ferrumdns.Dns.{Message, Hickory}
use ferrumdns.Dnsutil.{min_ttl, decode, subtract_ttl}
use ferrumdns.Plugin.{Action}
use ferrumdns.Metrics.{fetch_add}

module _ (H : Hickory) where
  exec-hit :
      (key : Text) (now later : ℕ) (ctx : QueryContext) (s : Caching) (wire : List ℕ) (lazy : Bool)
      (stored : ℕ) (msg : Message)
      → key_of H ctx s.cache.settings.cache_everything ≡ some key
      → ctx.skip_cache ≡ false
      → (lookup key now s.cache).1 ≡ some (wire, lazy, stored)
      → H.from_vec wire ≡ some msg
      → exec H now later ctx s
        ≡ hit H key later ctx (record s { cache = (lookup key now s.cache).0 }) lazy stored msg
  unfolding exec decode
  exec-hit key now later ctx s wire lazy stored msg a b c d = ground arith

  hit-reply :
      (key : Text) (later : ℕ) (ctx : QueryContext) (s : Caching) (stored : ℕ) (msg : Message)
      → ((hit H key later ctx s false stored msg).1.response
          ≡ some (rebind_response H (subtract_ttl msg (elapsed_secs later stored)) ctx.query))
        × ((hit H key later ctx s false stored msg).1.served_from_cache ≡ true)
        × ((hit H key later ctx s false stored msg).2.metrics.cache_hits
            ≡ fetch_add s.metrics.cache_hits 1)
  unfolding hit hit_reply set_response push_trace rebind_response
  hit-reply key later ctx s stored msg = (ground arith, refl, refl)

  store-everything :
      (key : Text) (resp : Message) (now : ℕ) (c : Cache)
      → (store H key resp now c).settings.cache_everything ≡ c.settings.cache_everything
  unfolding store insert_entry
  store-everything key resp now c = ground arith

  -- A query that may read the cache, and under whose key a storable response has been stored, is
  -- answered from the cache while the TTL of that response has not passed and if its bytes decode:
  -- with the decoded message, aged by the whole seconds since it was stored and bound to the question
  -- of this query. It is marked as served from the cache, and counted as a hit. The cache has a
  -- shard at least.
  pub exec-store :
      (key : Text) (resp msg : Message) (wire : List ℕ) (stored now later : ℕ) (ctx : QueryContext)
      (s : Caching)
      → 0 < length s.cache.shards
      → IsStorable H resp wire
      → H.from_vec wire ≡ some msg
      → now < stored + min_ttl resp * second
      → key_of H ctx s.cache.settings.cache_everything ≡ some key
      → ctx.skip_cache ≡ false
      → ((exec H now later ctx (record s { cache = store H key resp stored s.cache })).1.response
          ≡ some (rebind_response H (subtract_ttl msg (elapsed_secs later stored)) ctx.query))
        × ((exec H now later ctx
              (record s { cache = store H key resp stored s.cache })).1.served_from_cache
            ≡ true)
        × ((exec H now later ctx
              (record s { cache = store H key resp stored s.cache })).2.metrics.cache_hits
            ≡ fetch_add s.metrics.cache_hits 1)
  exec-store key resp msg wire stored now later ctx s size storable decodes fresh keyed reads =
      let s' : Caching = record s { cache = store H key resp stored s.cache } in
      let found : (lookup key now s'.cache).1 ≡ some (wire, false, stored) =
        lookup-store H key resp wire stored now s.cache size storable ∙ ground arith in
      let whole =
        exec-hit key now later ctx s' wire false stored msg
          (ap (key_of H ctx) (store-everything key resp stored s.cache) ∙ keyed) reads found
          decodes in
      subst
        (λ o.
          (o.1.response
            ≡ some (rebind_response H (subtract_ttl msg (elapsed_secs later stored)) ctx.query))
          × (o.1.served_from_cache ≡ true)
          × (o.2.metrics.cache_hits ≡ fetch_add s.metrics.cache_hits 1))
        (sym whole) (hit-reply key later ctx _ stored msg)

  -- A query that skips the cache, as refreshes do, keeps the response that it has, and leaves the
  -- cache alone, with its recency queues; it goes on to the next step.
  pub exec-skip_cache :
      (now later : ℕ) (ctx : QueryContext) (s : Caching)
      → ctx.skip_cache ≡ true
      → ((exec H now later ctx s).0 ≡ ok Action.continue)
        × ((exec H now later ctx s).1.response ≡ ctx.response)
        × ((exec H now later ctx s).2.cache ≡ s.cache)
  unfolding exec push_trace
  exec-skip_cache now later ctx s skip =
      elim (Option-cases (key_of H ctx s.cache.settings.cache_everything)) [
        | inl absent ↦ (ground arith, ground arith, ground arith)
        | inr (key, present) ↦ (ground arith, ground arith, ground arith)
      ]
