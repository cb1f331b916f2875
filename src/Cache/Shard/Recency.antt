-- ===== src/Cache/Shard/Recency.antt =====
-- plugin/cache.rs: a shard as the list of its entries in the order of their last use.
use ferrumdns.Base.{
  ℕ, suc, ◌≤◌, ◌<◌, ◌-◌, ◌≡◌, ◌∙◌, ap, sym, refl, false, not, Option, none, some, List, [], ◌∷◌,
  ◌++◌, map, drop, filter, Text, teq, teq_iff, teq_refl, leb, length, length-map, arith, Bool-cases,
  inl, inr, if◌then◌else◌,
}
use mathlib.Core.List.{map-append}
use ferrumdns.Cache.Keys.{mem, erase, Distinct, mem-erase, length-erase}
use ferrumdns.Cache.Shard.{contains_key, lookup, put, remove, Shard, promote, get, evict, insert}
use ferrumdns.Cache.Shard.Valid.{Agree, IsValid, Agree-drop_front}

drop_of_fits {ℓ} : {A : Type ℓ} (n limit : ℕ) (l : List A) → n ≤ limit → drop (n - limit) l ≡ l
drop_of_fits n limit l h = let e : n - limit ≡ 0 = omega arith in rw e

module _ {ℓ} {V : Type ℓ} where
  -- The entries in the order of the queue.
  abbrev pub in_order : List (Text × V) → List Text → List (Text × Option V)
  in_order m lru = map (λ k. (k, lookup k m)) lru

  abbrev pub view : Shard V → List (Text × Option V)
  view s = in_order s.entries s.lru

  length-in_order : (m : List (Text × V)) (lru : List Text) → length (in_order m lru) ≡ length lru
  length-in_order m lru = length-map _ lru

  -- The list that a cache of recently used entries keeps.
  abbrev pub without : Text → List (Text × Option V) → List (Text × Option V)
  without k = filter (λ e. not (teq e.0 k))

  abbrev pub write_recent : ℕ → Text → V → List (Text × Option V) → List (Text × Option V)
  write_recent limit k v l =
      drop (suc (length (without k l)) - limit) (without k l) ++ (k, some v) ∷ []

  lookup-put :
      (k j : Text) (v : V) (m : List (Text × V))
      → lookup j (put k v m) ≡ (if teq k j then some v else lookup j m)
  unfolding lookup put
  lookup-put k j v [] = refl
  lookup-put k j v ((i, w) ∷ m) =
      ground (arith, teq_iff i k, teq_iff i j, teq_iff k j, lookup-put k j v m)

  lookup-remove_ne :
      (k j : Text) (m : List (Text × V)) → teq k j ≡ false → lookup j (remove k m) ≡ lookup j m
  unfolding lookup remove
  lookup-remove_ne k j [] h = refl
  lookup-remove_ne k j ((i, w) ∷ m) h =
      ground (arith, teq_iff i k, teq_iff i j, teq_iff k j, lookup-remove_ne k j m h)

  lookup_absent : (k : Text) (m : List (Text × V)) → contains_key k m ≡ false → lookup k m ≡ none
  unfolding lookup
  lookup_absent k [] h = refl
  lookup_absent k ((i, w) ∷ m) h = ground (arith, lookup_absent k m)

  in_order-put :
      (k : Text) (v : V) (m : List (Text × V)) (lru : List Text)
      → mem k lru ≡ false
      → in_order (put k v m) lru ≡ in_order m lru
  in_order-put k v m [] h = refl
  in_order-put k v m (j ∷ lru) h =
      ground (arith, teq_iff j k, teq_iff k j, lookup-put k j v m, in_order-put k v m lru)

  in_order-remove :
      (k : Text) (m : List (Text × V)) (lru : List Text)
      → mem k lru ≡ false
      → in_order (remove k m) lru ≡ in_order m lru
  in_order-remove k m [] h = refl
  in_order-remove k m (j ∷ lru) h =
      ground (arith, teq_iff j k, teq_iff k j, lookup-remove_ne k j m, in_order-remove k m lru)

  without_absent :
      (k : Text) (m : List (Text × V)) (lru : List Text)
      → mem k lru ≡ false
      → without k (in_order m lru) ≡ in_order m lru
  without_absent k m [] h = refl
  without_absent k m (j ∷ lru) h = ground (arith, without_absent k m lru)

  without-in_order :
      (k : Text) (m : List (Text × V)) (lru : List Text)
      → Distinct lru
      → without k (in_order m lru) ≡ in_order m (erase k lru)
  unfolding erase
  without-in_order k m [] h = refl
  without-in_order k m (j ∷ lru) (new, h) =
      ground (arith, teq_iff j k, without-in_order k m lru h, without_absent k m lru)

  evict_of_room :
      (limit : ℕ) (m : List (Text × V)) (lru : List Text)
      → length m < limit
      → evict limit m lru ≡ (m, lru)
  unfolding evict
  evict_of_room limit m [] h = refl
  evict_of_room limit m (old ∷ lru) h = ground arith

  evict_full :
      (limit : ℕ) (m : List (Text × V)) (old : Text) (lru : List Text)
      → Agree m (old ∷ lru)
      → length m ≡ limit
      → evict limit m (old ∷ lru) ≡ (remove old m, lru)
  unfolding evict
  evict_full limit m old lru a h = ground (
    arith,
    evict_of_room limit (remove old m) lru
        (omega (arith, (Agree-drop_front old a).level, a.level, h)),
  )

  in_order-append_key :
      (k : Text) (v : V) (m : List (Text × V)) (lru : List Text)
      → mem k lru ≡ false
      → in_order (put k v m) (lru ++ k ∷ []) ≡ in_order m lru ++ (k, some v) ∷ []
  in_order-append_key k v m lru h =
      rw (map-append, in_order-put k v m lru h, lookup-put k k v m, teq_refl k)

  -- The part of a write after the map and the queue have room.
  view_new :
      (k : Text) (v : V) (limit : ℕ) (m : List (Text × V)) (lru : List Text)
      → Agree m lru
      → contains_key k m ≡ false
      → length m ≤ limit
      → 0 < limit
      → in_order (put k v (evict limit m lru).0) ((evict limit m lru).1 ++ k ∷ [])
        ≡ drop (suc (length (in_order m lru)) - limit) (in_order m lru) ++ (k, some v) ∷ []
  view_new k v limit m [] a new fits room =
      rw (evict_of_room limit m [] (omega (arith, a.level)), in_order-append_key k v m [] refl)
        (ap (λ l. l ++ (k, some v) ∷ []) (sym (drop_of_fits 1 limit [] room)))
  view_new k v limit m (old ∷ lru) a new fits room = elim (Bool-cases (leb limit (length m))) [
    | inl full ↦
        rw
          (
            evict_full limit m old lru a (ground arith),
            in_order-append_key k v (remove old m) lru (ground (arith, a.same k)),
            in_order-remove old m lru a.queued.0,
          )
          (let e : suc (length (in_order m (old ∷ lru))) - limit ≡ 1 =
              ground (arith, length-in_order m lru, a.level) in
            rw e)
    | inr free ↦
        rw
          (
            evict_of_room limit m (old ∷ lru) (ground arith),
            in_order-append_key k v m (old ∷ lru) (a.same k ∙ new),
          )
          (ap (λ l. l ++ (k, some v) ∷ [])
            (sym (
              drop_of_fits _ limit (in_order m (old ∷ lru))
                (ground (arith, length-in_order m lru, a.level)))))
  ]

  -- A shard whose invariant holds is a list of entries in the order of their last use: a write moves
  -- its entry to the end, and a new key in a full shard costs the least recently used entry, and no
  -- other.
  pub view-insert :
      (k : Text) (v : V) {s : Shard V}
      → IsValid s
      → view (insert k v s) ≡ write_recent s.cap k v (view s)
  unfolding insert
  view-insert k v {s} h = elim (Bool-cases (contains_key k s.entries)) [
    | inl old ↦
        rw (old, without-in_order k s.entries s.lru h.agree.queued)
          (in_order-append_key k v s.entries (erase k s.lru)
              (ground (arith, mem-erase k k s.lru h.agree.queued, teq_refl k))
            ∙ ap (λ l. l ++ (k, some v) ∷ [])
                (sym (
                  drop_of_fits _ s.cap (in_order s.entries (erase k s.lru)) (
                    omega (
                      arith,
                      length-in_order s.entries (erase k s.lru),
                      length-erase k s.lru (h.agree.same k ∙ old),
                      h.agree.level,
                      h.bounded,
                    )))))
    | inr new ↦
        rw (new, without_absent k s.entries s.lru (h.agree.same k ∙ new))
          (view_new k v s.cap s.entries s.lru h.agree new h.bounded h.room)
  ]

  -- A read of a shard whose invariant holds returns what the map holds, moves an entry that is there to
  -- the end of the order of use, and changes nothing if there is none.
  pub view-get :
      (k : Text) {s : Shard V}
      → IsValid s
      → ((get k s).1 ≡ lookup k s.entries)
        × (view (get k s).0 ≡ (
            if contains_key k s.entries
            then without k (view s) ++ (k, lookup k s.entries) ∷ []
            else view s))
  unfolding get promote
  view-get k {s} h = elim (Bool-cases (contains_key k s.entries)) [
    | inl old ↦ (
      rw old,
      rw (old, h.agree.same k ∙ old, without-in_order k s.entries s.lru h.agree.queued)
          (map-append (λ j. (j, lookup j s.entries)) (erase k s.lru) (k ∷ [])),
    )
    | inr new ↦ (rw (new, lookup_absent k s.entries new), rw new)
  ]
