-- ===== src/Cache/Shard/Run.antt =====
-- plugin/cache.rs: runs of a shard's operations, and the invariant of a shard.
use ferrumdns.Base.{
  ℕ, ◌<◌, ◌≡◌, ◌∙◌, refl, false, List, [], ◌∷◌, Text, leb, length, arith, Bool-cases, inl, inr,
}
use ferrumdns.Cache.Shard.{
  contains_key, remove, Shard, new_shard, promote, get, evict, insert, flush,
}
use ferrumdns.Cache.Shard.Valid.{
  Agree, IsValid, Agree-requeue, Agree-put_old, Agree-put_new, Agree-drop_front, length-put_old,
  length-put_new, contains_key-remove,
}

-- What the cache does with a shard.
pub data Op {ℓ} (V : Type ℓ) : Type ℓ where
  read : Text → Op V
  write : Text → V → Op V
  clear : Op V

module _ {ℓ} {V : Type ℓ} where
  abbrev pub step : Shard V → Op V → Shard V
  step s (read k) = (get k s).0
  step s (write k v) = insert k v s
  step s clear = flush s

  abbrev pub run : Shard V → List (Op V) → Shard V
  run s [] = s
  run s (op ∷ ops) = run (step s op) ops

  Agree-nil : Agree {V = V} [] []
  Agree-nil = record { queued = tt; unique = tt; same = λ k. refl; level = refl }

  -- The loop ends below the capacity, and takes from the map what it takes from the queue.
  pub evict-Agree :
      (cap : ℕ) (m : List (Text × V)) (lru : List Text)
      → 0 < cap
      → Agree m lru
      → Agree (evict cap m lru).0 (evict cap m lru).1 × (length (evict cap m lru).0 < cap)
  unfolding evict
  evict-Agree cap m [] room a = (a, omega (arith, a.level))
  evict-Agree cap m (old ∷ lru) room a = elim (Bool-cases (leb cap (length m))) [
    | inl full ↦ rw full (evict-Agree cap (remove old m) lru room (Agree-drop_front old a))
    | inr free ↦ rw free (a, ground arith)
  ]

  evict-absent :
      (cap : ℕ) (k : Text) (m : List (Text × V)) (lru : List Text)
      → Agree m lru
      → contains_key k m ≡ false
      → contains_key k (evict cap m lru).0 ≡ false
  unfolding evict
  evict-absent cap k m [] a h = h
  evict-absent cap k m (old ∷ lru) a h = elim (Bool-cases (leb cap (length m))) [
    | inl full ↦ rw full (
        evict-absent cap k (remove old m) lru (Agree-drop_front old a)
          (ground (arith, contains_key-remove old k m a.unique)))
    | inr free ↦ rw free h
  ]

  pub insert-IsValid : (k : Text) (v : V) {s : Shard V} → IsValid s → IsValid (insert k v s)
  unfolding insert
  insert-IsValid k v {s} h = elim (Bool-cases (contains_key k s.entries)) [
    | inl old ↦
        rw (old, insert)
          (record {
            agree = Agree-put_old k v (Agree-requeue k h.agree old) old;
            room = h.room;
            bounded = omega (arith, length-put_old k v s.entries old, h.bounded);
          })
    | inr new ↦
        let (agree, below) = evict-Agree s.cap s.entries s.lru h.room h.agree in
        let absent = evict-absent s.cap k s.entries s.lru h.agree new in
        rw (new, insert)
          (record {
            agree = Agree-put_new k v agree absent;
            room = h.room;
            bounded =
                omega (arith, length-put_new k v (evict s.cap s.entries s.lru).0 absent, below);
          })
  ]

  pub get-IsValid : (k : Text) {s : Shard V} → IsValid s → IsValid (get k s).0
  unfolding get promote
  get-IsValid k {s} h = elim (Bool-cases (contains_key k s.entries)) [
    | inl old ↦
        rw (old, h.agree.same k ∙ old)
          (record { agree = Agree-requeue k h.agree old; room = h.room; bounded = h.bounded })
    | inr new ↦ rw new h
  ]

  pub new_shard-IsValid : (cap : ℕ) → IsValid {V = V} (new_shard cap)
  new_shard-IsValid cap = record { agree = Agree-nil; room = omega arith; bounded = omega arith }

  step-IsValid : {s : Shard V} (op : Op V) → IsValid s → IsValid (step s op)
  step-IsValid (read k) h = get-IsValid k h
  step-IsValid (write k v) h = insert-IsValid k v h
  step-IsValid clear h = record { agree = Agree-nil; room = h.room; bounded = omega arith }

  run-IsValid_from : (ops : List (Op V)) {s : Shard V} → IsValid s → IsValid (run s ops)
  run-IsValid_from [] h = h
  run-IsValid_from (op ∷ ops) h = run-IsValid_from ops (step-IsValid op h)

  -- After any reads, writes and flushes of a new shard, the queue and the map hold the same keys,
  -- each once, and the map holds no more entries than the capacity.
  pub run-new_shard-IsValid : (cap : ℕ) (ops : List (Op V)) → IsValid (run (new_shard cap) ops)
  run-new_shard-IsValid cap ops = run-IsValid_from ops (new_shard-IsValid cap)
