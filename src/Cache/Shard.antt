-- ===== src/Cache/Shard.antt =====
-- plugin/cache.rs: `Shard`, a bounded map with its keys from the least to the most recently used.
-- The hash map is a list of entries with distinct keys.
pub mod Valid
pub mod Run
pub mod Recency
use ferrumdns.Base.{
  ℕ, max, Bool, true, false, Option, none, some, List, [], ◌∷◌, ◌++◌, map, Text, teq, leb, length,
  if◌then◌else◌,
}
use ferrumdns.Cache.Keys.{mem, erase}

module _ {ℓ} {V : Type ℓ} where
  abbrev pub keys : List (Text × V) → List Text
  keys = map (λ e. e.0)

  abbrev pub contains_key : Text → List (Text × V) → Bool
  contains_key k m = mem k (keys m)

  unfoldable pub lookup : Text → List (Text × V) → Option V
  lookup k [] = none
  lookup k ((j, v) ∷ m) = if teq j k then some v else lookup k m

  -- `HashMap::insert`.
  unfoldable pub put : Text → V → List (Text × V) → List (Text × V)
  put k v [] = (k, v) ∷ []
  put k v ((j, w) ∷ m) = let rest = put k v m in if teq j k then (k, v) ∷ m else (j, w) ∷ rest

  -- `HashMap::remove`.
  unfoldable pub remove : Text → List (Text × V) → List (Text × V)
  remove k [] = []
  remove k ((j, w) ∷ m) = let rest = remove k m in if teq j k then m else (j, w) ∷ rest

pub record Shard {ℓ} (V : Type ℓ) : Type ℓ where
  pub entries : List (Text × V)
  pub lru : List Text
  pub cap : ℕ

-- `position`, `remove`, `push_back`: a key that is queued moves to the back.
unfoldable pub promote : Text → List Text → List Text
promote k lru = if mem k lru then erase k lru ++ k ∷ [] else lru

module _ {ℓ} {V : Type ℓ} where
  abbrev pub new_shard : ℕ → Shard V
  new_shard cap = record { entries = []; lru = []; cap = max cap 1 }

  unfoldable pub get : Text → Shard V → Shard V × Option V
  unfolding promote lookup
  get k s =
      if contains_key k s.entries
      then (record s { lru = promote k s.lru }, lookup k s.entries)
      else (s, none)

  -- The loop of `insert` that makes room.
  unfoldable pub evict : ℕ → List (Text × V) → List Text → List (Text × V) × List Text
  unfolding remove
  evict cap entries [] = (entries, [])
  evict cap entries (old ∷ lru) =
      let next = evict cap (remove old entries) lru in
      if leb cap (length entries) then next else (entries, old ∷ lru)

  unfoldable pub insert : Text → V → Shard V → Shard V
  unfolding evict put
  insert k v s =
      if contains_key k s.entries
      then record s { entries = put k v s.entries; lru = erase k s.lru ++ k ∷ [] }
      else (let (entries, lru) = evict s.cap s.entries s.lru in
          record s { entries = put k v entries; lru = lru ++ k ∷ [] })

  abbrev pub flush : Shard V → Shard V
  flush s = record s { entries = []; lru = [] }

  abbrev pub size : Shard V → ℕ
  size s = length s.entries
