-- ===== src/Cache/Expiry.antt =====
-- plugin/cache.rs: what a stored response answers later, until it expires.
use ferrumdns.Base.{
  ℕ, zero, suc, ◌+◌, ◌*◌, ◌%◌, ◌<◌, max, ◌≡◌, ◌∙◌, refl, ap, arith, sym, inl, inr, true, false,
  none, some, List, [], ◌∷◌, Text, teq_iff, leb, length, get_elem?, if◌then◌else◌, ok, utf8,
  Bool-cases,
}
use ferrumdns.Cache.Key.{cacheable_edns}
use ferrumdns.Cache.Shard.{Shard}
use ferrumdns.Cache.Shard
use ferrumdns.Cache.Store.{
  second, Entry, Cache, shard_index, set_shard, fresh, lookup, insert_entry, make_entry, store,
  hash_from,
}
use ferrumdns.Dns.Rcode
use ferrumdns.Dns.{Message, Hickory}
use ferrumdns.Dnsutil.{encode, min_ttl}

contains_key-put :
    (k : Text) (v : Entry) (m : List (Text × Entry)) → Shard.contains_key k (Shard.put k v m) ≡ true
unfolding Shard.put
contains_key-put k v [] = ground (arith, teq_iff k k)
contains_key-put k v ((j, w) ∷ m) = ground (arith, contains_key-put k v m, teq_iff k k)

lookup-put :
    (k : Text) (v : Entry) (m : List (Text × Entry)) → Shard.lookup k (Shard.put k v m) ≡ some v
unfolding Shard.put Shard.lookup
lookup-put k v [] = ground (arith, teq_iff k k)
lookup-put k v ((j, w) ∷ m) = ground (arith, lookup-put k v m, teq_iff k k)

get-insert :
    (k : Text) (v : Entry) (s : Shard Entry) → (Shard.get k (Shard.insert k v s)).1 ≡ some v
unfolding Shard.get Shard.insert
get-insert k v s = elim (Bool-cases (Shard.contains_key k s.entries)) [
  | inl old ↦ ground (arith, contains_key-put k v s.entries, lookup-put k v s.entries)
  | inr new ↦
      let room = (Shard.evict s.cap s.entries s.lru).0 in
      ground (arith, contains_key-put k v room, lookup-put k v room)
]

length-set_shard :
    (ss : List (Shard Entry)) (i : ℕ) (s : Shard Entry) → length (set_shard ss i s) ≡ length ss
length-set_shard [] i s = refl
length-set_shard (t ∷ ts) zero s = refl
length-set_shard (t ∷ ts) (suc i) s = ap suc (length-set_shard ts i s)

get_elem?-set_shard :
    (ss : List (Shard Entry)) (i : ℕ) (s t : Shard Entry)
    → get_elem? ss i ≡ some t
    → get_elem? (set_shard ss i s) i ≡ some s
get_elem?-set_shard [] i s t h = absurd (ground arith)
get_elem?-set_shard (u ∷ us) zero s t h = refl
get_elem?-set_shard (u ∷ us) (suc i) s t h = get_elem?-set_shard us i s t (ground arith)

get_elem?-lt :
    (ss : List (Shard Entry)) (i : ℕ)
    → i < length ss
    → (s : Shard Entry) × (get_elem? ss i ≡ some s)
get_elem?-lt [] i h = absurd (omega arith)
get_elem?-lt (s ∷ ss) zero h = (s, refl)
get_elem?-lt (s ∷ ss) (suc i) h = get_elem?-lt ss i (ground arith)

shard_index-lt :
    (key : Text) (c : Cache) → 0 < length c.shards → shard_index key c < length c.shards
unfolding shard_index
shard_index-lt key c h = omega arith

insert_entry-at :
    (key : Text) (e : Entry) (c : Cache) (s : Shard Entry)
    → get_elem? c.shards (shard_index key c) ≡ some s
    → insert_entry key e c
      ≡ record c { shards = set_shard c.shards (shard_index key c) (Shard.insert key e s) }
unfolding insert_entry
insert_entry-at key e c s h = ground arith

lookup-at :
    (key : Text) (later : ℕ) (c : Cache) (s : Shard Entry) (e : Entry)
    → get_elem? c.shards (shard_index key c) ≡ some s
    → (Shard.get key s).1 ≡ some e
    → (lookup key later c).1 ≡ fresh c later e
unfolding lookup
lookup-at key later c s e h k = ground arith

lookup-insert_entry :
    (key : Text) (e : Entry) (later : ℕ) (c : Cache)
    → 0 < length c.shards
    → (lookup key later (insert_entry key e c)).1 ≡ fresh c later e
unfolding shard_index fresh
lookup-insert_entry key e later c h =
    let (s, found) = get_elem?-lt c.shards (shard_index key c) (shard_index-lt key c h) in
    let s' = Shard.insert key e s in
    let d : Cache = record c { shards = set_shard c.shards (shard_index key c) s' } in
    let same : shard_index key c ≡ shard_index key d =
      ap (λ n. hash_from 0 (utf8 key) % n)
        (sym (length-set_shard c.shards (shard_index key c) s')) in
    let at : get_elem? d.shards (shard_index key d) ≡ some s' =
      ap (get_elem? d.shards) (sym same)
      ∙ get_elem?-set_shard c.shards (shard_index key c) s' s found in
    ap (λ v. (lookup key later v).1) (insert_entry-at key e c s found)
    ∙ lookup-at key later d s' e at (get-insert key e s)

-- A storable response: it has no error, is not cut off, has no EDNS option but a client subnet, has a
-- positive least TTL, and can be written as the bytes.
abbrev pub IsStorable : Hickory → Message → List ℕ → Type 0
IsStorable H resp wire =
    (resp.response_code ≡ Rcode.no_error)
    × (resp.truncated ≡ false)
    × (cacheable_edns resp ≡ true)
    × (encode H resp ≡ ok wire)
    × (0 < min_ttl resp)

store-insert_entry :
    (H : Hickory) (key : Text) (resp : Message) (wire : List ℕ) (now : ℕ) (c : Cache)
    → IsStorable H resp wire
    → store H key resp now c ≡ insert_entry key (make_entry c now (min_ttl resp) wire) c
unfolding store
store-insert_entry H key resp wire now c (a, b, d, e, f) = ground arith

-- What a cache with a shard at least gives later under the key of a storable response, whatever it held
-- before: until the later of the TTL and of the lazy TTL has passed, the bytes, whether the TTL has
-- passed, and the time of storing; after that nothing.
pub lookup-store :
    (H : Hickory) (key : Text) (resp : Message) (wire : List ℕ) (now later : ℕ) (c : Cache)
    → 0 < length c.shards
    → IsStorable H resp wire
    → (lookup key later (store H key resp now c)).1 ≡ (
        if leb (now + max (min_ttl resp * second) c.settings.lazy_ttl) later
        then none
        else some (wire, leb (now + min_ttl resp * second) later, now))
unfolding fresh make_entry
lookup-store H key resp wire now later c h storable =
    ap (λ v. (lookup key later v).1) (store-insert_entry H key resp wire now c storable)
    ∙ lookup-insert_entry key (make_entry c now (min_ttl resp) wire) later c h
    ∙ ground arith
