-- ===== src/Cache/Refreshing.antt =====
-- plugin/cache.rs: the background refreshes, and the queries that they run.
use ferrumdns.Base.{
  ℕ, ◌+◌, ◌≡◌, ◌∙◌, subst, ◌<◌, refl, arith, inl, inr, true, false, List, [], ◌∷◌, ◌++◌, Text, teq,
  teq_iff, map, Bool-cases, Option-cases, All, All-append, if◌then◌else◌,
}
use ferrumdns.Cache.Keys.{mem, Distinct, erase, erase-Distinct, mem-erase}
use ferrumdns.Cache.Serve.{kick_refresh, end_refresh}
use ferrumdns.Cache.Store.{Cache, Refresh}
use ferrumdns.Context.{QueryContext, clone_for_lazy}

abbrev pub count : Text → List Text → ℕ
count k [] = 0
count k (j ∷ l) = (if teq j k then 1 else 0) + count k l

-- How many refreshes of a key have been started.
abbrev pub started : Text → Cache → ℕ
started k c = count k (map (λ (r : Refresh). r.key) c.spawned)

-- The refreshes that have ended, by their keys, account for all that were started but those of the
-- keys in flight, one for each; and no refresh reads the cache.
pub record IsRefreshing (c : Cache) (ended : List Text) : Type 0 where
  pub distinct : Distinct c.inflight
  pub skips : All (λ (r : Refresh). r.context.skip_cache ≡ true) c.spawned
  pub counted : (k : Text) → started k c ≡ count k ended + (if mem k c.inflight then 1 else 0)

clone_for_lazy-skip_cache : (ctx : QueryContext) → (clone_for_lazy ctx).skip_cache ≡ true
unfolding clone_for_lazy
clone_for_lazy-skip_cache ctx = ground arith

count-snoc :
    (k : Text) (rs : List Refresh) (r : Refresh)
    → count k (map (λ (r : Refresh). r.key) (rs ++ r ∷ []))
      ≡ count k (map (λ (r : Refresh). r.key) rs) + (if teq r.key k then 1 else 0)
count-snoc k [] r = ground arith
count-snoc k (q ∷ rs) r = ground (arith, count-snoc k rs r)

abbrev one_if_mem : Text → List Text → ℕ
one_if_mem k l = if mem k l then 1 else 0

counted_start :
    (key k : Text) (inflight : List Text) (n e : ℕ)
    → mem key inflight ≡ false
    → n ≡ e + one_if_mem k inflight
    → n + (if teq key k then 1 else 0) ≡ e + one_if_mem k (key ∷ inflight)
counted_start key k inflight n e free h = elim (Bool-cases (teq key k)) [
  | inl same ↦
      let absent : mem k inflight ≡ false =
        subst (λ j. mem j inflight ≡ false) ((teq_iff key k).0 same) free in
      ground arith
  | inr other ↦ ground arith
]

in_flight :
    (key : Text) (inflight : List Text) (n e : ℕ)
    → e < n
    → n ≡ e + one_if_mem key inflight
    → mem key inflight ≡ true
in_flight key inflight n e lt h = ground arith

counted_end :
    (key k : Text) (inflight : List Text) (n e : ℕ)
    → Distinct inflight
    → mem key inflight ≡ true
    → n ≡ e + one_if_mem k inflight
    → n ≡ (if teq key k then 1 else 0) + e + one_if_mem k (erase key inflight)
counted_end key k inflight n e distinct there h = elim (Bool-cases (teq key k)) [
  | inl same ↦
      let present : mem k inflight ≡ true =
        subst (λ j. mem j inflight ≡ true) ((teq_iff key k).0 same) there in
      ground (arith, mem-erase k key inflight distinct)
  | inr other ↦ ground (arith, mem-erase k key inflight distinct)
]

-- What a query and the end of a refresh do with the refreshes.
pub data Event : Type 0 where
  kick : QueryContext → Text → Event
  end : Text → Event

abbrev pub step : Cache → Event → Cache
step c (kick ctx key) = kick_refresh ctx key c
step c (end key) = end_refresh key c

abbrev pub run : Cache → List Event → Cache
run c [] = c
run c (e ∷ es) = run (step c e) es

-- The keys of the refreshes that end, the last first, after those that have ended.
abbrev pub ended_by : List Text → List Event → List Text
ended_by ended [] = ended
ended_by ended (kick ctx key ∷ es) = ended_by ended es
ended_by ended (end key ∷ es) = ended_by (key ∷ ended) es

-- Only a refresh that was started, and has not ended, ends.
unfoldable pub CanHappen : Cache → List Text → List Event → Type 0
CanHappen c ended [] = Unit {0}
CanHappen c ended (kick ctx key ∷ es) = CanHappen (kick_refresh ctx key c) ended es
CanHappen c ended (end key ∷ es) =
    (count key ended < started key c) × CanHappen (end_refresh key c) (key ∷ ended) es

kick_refresh-IsRefreshing :
    (ctx : QueryContext) (key : Text) (c : Cache) (ended : List Text)
    → IsRefreshing c ended
    → IsRefreshing (kick_refresh ctx key c) ended
unfolding kick_refresh
kick_refresh-IsRefreshing ctx key c ended h = elim (Bool-cases ctx.skip_cache) [
  | inl skip ↦ rw skip h
  | inr read ↦ elim (Option-cases c.settings.refresh) [
    | inl unbound ↦ rw (read, unbound) h
    | inr (entry, bound) ↦ elim (Bool-cases (mem key c.inflight)) [
      | inl busy ↦ rw (read, bound, busy) h
      | inr free ↦
          rw (read, bound, free)
            (record {
              distinct = (free, h.distinct);
              skips =
                  All-append (λ (r : Refresh). r.context.skip_cache ≡ true) c.spawned _ h.skips
                    (clone_for_lazy-skip_cache ctx, tt);
              counted = λ k.
                  count-snoc k c.spawned _
                  ∙ counted_start key k c.inflight (started k c) (count k ended) free (h.counted k);
            })
    ]
  ]
]

end_refresh-IsRefreshing :
    (key : Text) (c : Cache) (ended : List Text)
    → count key ended < started key c
    → IsRefreshing c ended
    → IsRefreshing (end_refresh key c) (key ∷ ended)
unfolding end_refresh
end_refresh-IsRefreshing key c ended runs h = record {
  distinct = erase-Distinct key c.inflight h.distinct;
  skips = h.skips;
  counted = λ k.
      counted_end key k c.inflight (started k c) (count k ended) h.distinct
        (in_flight key c.inflight (started key c) (count key ended) runs (h.counted key))
        (h.counted k);
}

run-IsRefreshing_from :
    (c : Cache) (ended : List Text) (es : List Event)
    → IsRefreshing c ended
    → CanHappen c ended es
    → IsRefreshing (run c es) (ended_by ended es)
unfolding CanHappen
run-IsRefreshing_from c ended [] h can = h
run-IsRefreshing_from c ended (kick ctx key ∷ es) h can =
    run-IsRefreshing_from (kick_refresh ctx key c) ended es
      (kick_refresh-IsRefreshing ctx key c ended h) can
run-IsRefreshing_from c ended (end key ∷ es) h (runs, can) =
    run-IsRefreshing_from (end_refresh key c) (key ∷ ended) es
      (end_refresh-IsRefreshing key c ended runs h) can

-- From a cache without refreshes, in whatever order queries ask for refreshes and the refreshes that
-- run end: those that have been started are those that have ended and one for each key in flight, so
-- that no key is refreshed twice at a time, and none that is started reads the cache.
pub run-IsRefreshing :
    (c : Cache) (es : List Event)
    → c.inflight ≡ []
    → c.spawned ≡ []
    → CanHappen c [] es
    → IsRefreshing (run c es) (ended_by [] es)
run-IsRefreshing c es free none_started can =
    run-IsRefreshing_from c [] es
      (record {
        distinct = rw free tt;
        skips = rw none_started tt;
        counted = λ k. rw (free, none_started) refl;
      })
      can
