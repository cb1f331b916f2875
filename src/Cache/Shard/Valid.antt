-- ===== src/Cache/Shard/Valid.antt =====
-- plugin/cache.rs: the invariant of a shard, and the operations.
use ferrumdns.Base.{
  suc, ◌≤◌, ◌<◌, ◌≡◌, ◌∙◌, ap, refl, sym, true, false, not, ◌&&◌, List, [], ◌∷◌, ◌++◌, Text, teq,
  teq_iff, teq_refl, length, length-append, arith,
}
use ferrumdns.Cache.Keys.{
  mem, erase, Distinct, mem-append, mem-erase, length-erase, erase-Distinct, append-Distinct,
}
use ferrumdns.Cache.Shard.{keys, contains_key, put, remove, Shard, size}

module _ {ℓ} {V : Type ℓ} where
  -- The queue and the map have the same keys, each once, and the map is within the capacity.
  pub record Agree (entries : List (Text × V)) (lru : List Text) : Type ℓ where
    pub queued : Distinct lru
    pub unique : Distinct (keys entries)
    pub same : (k : Text) → mem k lru ≡ contains_key k entries
    pub level : length lru ≡ length entries

  pub record IsValid (s : Shard V) : Type ℓ where
    pub agree : Agree s.entries s.lru
    pub room : 0 < s.cap
    pub bounded : size s ≤ s.cap

  keys-remove : (k : Text) (m : List (Text × V)) → keys (remove k m) ≡ erase k (keys m)
  unfolding remove erase
  keys-remove k [] = refl
  keys-remove k ((j, w) ∷ m) = ground (arith, keys-remove k m)

  pub keys-put_new :
      (k : Text) (v : V) (m : List (Text × V))
      → contains_key k m ≡ false
      → keys (put k v m) ≡ keys m ++ k ∷ []
  unfolding put
  keys-put_new k v [] h = refl
  keys-put_new k v ((j, w) ∷ m) h = ground (arith, keys-put_new k v m)

  pub keys-put_old :
      (k : Text) (v : V) (m : List (Text × V)) → contains_key k m ≡ true → keys (put k v m) ≡ keys m
  unfolding put
  keys-put_old k v [] h = cc
  keys-put_old k v ((j, w) ∷ m) h = ground (arith, keys-put_old k v m, teq_iff j k)

  length-remove :
      (k : Text) (m : List (Text × V))
      → contains_key k m ≡ true
      → suc (length (remove k m)) ≡ length m
  unfolding remove
  length-remove k [] h = cc
  length-remove k ((j, w) ∷ m) h = ground (arith, length-remove k m)

  pub length-put_old :
      (k : Text) (v : V) (m : List (Text × V))
      → contains_key k m ≡ true
      → length (put k v m) ≡ length m
  unfolding put
  length-put_old k v [] h = cc
  length-put_old k v ((j, w) ∷ m) h = ground (arith, length-put_old k v m)

  pub length-put_new :
      (k : Text) (v : V) (m : List (Text × V))
      → contains_key k m ≡ false
      → length (put k v m) ≡ suc (length m)
  unfolding put
  length-put_new k v [] h = refl
  length-put_new k v ((j, w) ∷ m) h = ground (arith, length-put_new k v m)

  -- Moving a key to the back changes the order alone.
  pub Agree-requeue :
      (k : Text) {m : List (Text × V)} {lru : List Text}
      → Agree m lru
      → contains_key k m ≡ true
      → Agree m (erase k lru ++ k ∷ [])
  Agree-requeue k {m} {lru} a h = record {
    queued =
        append-Distinct k (erase k lru) (erase-Distinct k lru a.queued)
          (ground (arith, mem-erase k k lru a.queued, teq_refl k));
    unique = a.unique;
    same = λ j. ground (
      arith,
      mem-append j (erase k lru) (k ∷ []),
      mem-erase j k lru a.queued,
      a.same j,
      teq_iff k j,
    );
    level =
        omega
          (arith, length-append (erase k lru) (k ∷ []), length-erase k lru (a.same k ∙ h), a.level);
  }

  pub Agree-put_old :
      (k : Text) (v : V) {m : List (Text × V)} {lru : List Text}
      → Agree m lru
      → contains_key k m ≡ true
      → Agree (put k v m) lru
  Agree-put_old k v {m} {lru} a h = record {
    queued = a.queued;
    unique = rw (keys-put_old k v m h) a.unique;
    same = λ j. a.same j ∙ ap (mem j) (sym (keys-put_old k v m h));
    level = omega (arith, length-put_old k v m h, a.level);
  }

  pub Agree-put_new :
      (k : Text) (v : V) {m : List (Text × V)} {lru : List Text}
      → Agree m lru
      → contains_key k m ≡ false
      → Agree (put k v m) (lru ++ k ∷ [])
  Agree-put_new k v {m} {lru} a h = record {
    queued = append-Distinct k lru a.queued (a.same k ∙ h);
    unique = rw (keys-put_new k v m h) (append-Distinct k (keys m) a.unique h);
    same = λ j.
        rw (keys-put_new k v m h)
          (ground (arith, mem-append j lru (k ∷ []), mem-append j (keys m) (k ∷ []), a.same j));
    level = omega (arith, length-put_new k v m h, length-append lru (k ∷ []), a.level);
  }

  pub Agree-drop_front :
      (old : Text) {m : List (Text × V)} {lru : List Text}
      → Agree m (old ∷ lru)
      → Agree (remove old m) lru
  Agree-drop_front old {m} {lru} a =
      let held : contains_key old m ≡ true = ground (arith, a.same old, teq_refl old) in
      record {
        queued = a.queued.1;
        unique = rw (keys-remove old m) (erase-Distinct old (keys m) a.unique);
        same = λ j. rw (keys-remove old m) (
            ground (arith, mem-erase j old (keys m) a.unique, a.same j, a.queued.0, teq_iff old j));
        level = omega (arith, length-remove old m held, a.level);
      }

  pub contains_key-remove :
      (old k : Text) (m : List (Text × V))
      → Distinct (keys m)
      → contains_key k (remove old m) ≡ not (teq old k) && contains_key k m
  contains_key-remove old k m h = rw (keys-remove old m) (mem-erase k old (keys m) h)
