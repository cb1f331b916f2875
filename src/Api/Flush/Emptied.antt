-- ===== src/Api/Flush/Emptied.antt =====
-- api.rs: what a flush leaves in the caches.
use ferrumdns.Api.Flush.{
  insert_tag, sort_tags, content_type, is_json, has_cache, flush_tag, flush_all, Flushed,
  flush_caches, flush_request,
}
use ferrumdns.Api.Origin.{Headers, get_all}
use ferrumdns.Base.{
  ℕ, ◌≡◌, ◌⊎◌, refl, sym, ap, ◌∙◌, arith, inl, inr, Bool-cases, subst, Bool, true, false, ◌||◌,
  Option, none, some, List, [], ◌∷◌, Text, codes, teq, teq_iff, teq_refl, map, is_empty, All,
  All-weaken,
}
use ferrumdns.Cache.Keys.{mem}
use ferrumdns.Cache.Serve.{flush, len, total}
use ferrumdns.Cache.Shard.{Shard}
use ferrumdns.Cache.Shard
use ferrumdns.Cache.Store.{Cache, Entry}

total-flush : (ss : List (Shard Entry)) → total (map Shard.flush ss) ≡ 0
total-flush [] = refl
total-flush (s ∷ ss) = ground (arith, total-flush ss)

len-flush : (c : Cache) → len (flush c) ≡ 0
unfolding len flush
len-flush c = total-flush c.shards

mem-insert_tag : (k t : Text) (tags : List Text) → mem k (insert_tag t tags) ≡ mem k (t ∷ tags)
unfolding insert_tag
mem-insert_tag k t [] = refl
mem-insert_tag k t (u ∷ tags) = ground (arith, mem-insert_tag k t tags)

mem-sort_tags : (k : Text) (tags : List Text) → mem k (sort_tags tags) ≡ mem k tags
unfolding sort_tags
mem-sort_tags k [] = refl
mem-sort_tags k (t ∷ tags) =
    mem-insert_tag k t (sort_tags tags) ∙ ap (λ b. teq t k || b) (mem-sort_tags k tags)

true_not_false : true ≡ false → ⊥
true_not_false h = ground arith

teq_sym : (s t : Text) → teq s t ≡ teq t s
teq_sym s t = elim (Bool-cases (teq s t)) [
  | inl same ↦ same ∙ sym (ap (λ u. teq t u) ((teq_iff s t).0 same) ∙ teq_refl t)
  | inr differ ↦ elim (Bool-cases (teq t s)) [
    | inl same ↦
        absurd
          (true_not_false (sym (ap (λ u. teq s u) ((teq_iff t s).0 same) ∙ teq_refl s) ∙ differ))
    | inr other ↦ differ ∙ sym other
  ]
]

-- A cache is empty if its tag is one of these, and as before if not.
abbrev pub EmptiedAs : List Text → Text × Cache → Text × Cache → Type 0
EmptiedAs tags before after =
    (after.0 ≡ before.0)
    × (((mem before.0 tags ≡ true) × (len after.1 ≡ 0))
        ⊎ ((mem before.0 tags ≡ false) × (after.1 ≡ before.1)))

pub Emptied : List Text → List (Text × Cache) → List (Text × Cache) → Type 0
Emptied tags [] [] = Unit {0}
Emptied tags (c ∷ before) (c' ∷ after) = EmptiedAs tags c c' × Emptied tags before after
Emptied tags [] (c ∷ after) = ⊥
Emptied tags (c ∷ before) [] = ⊥

-- Every cache has one of these tags.
abbrev pub AllTags : List Text → List (Text × Cache) → Type 0
AllTags tags caches = All (λ (c : Text × Cache). mem c.0 tags ≡ true) caches

flush_all-Emptied :
    (tags : List Text) (caches : List (Text × Cache))
    → AllTags tags caches
    → Emptied tags caches (flush_all caches)
unfolding Emptied
flush_all-Emptied tags [] h = tt
flush_all-Emptied tags (c ∷ caches) (h, hs) =
    ((refl, inl (h, len-flush c.1)), flush_all-Emptied tags caches hs)

flush_tag-Emptied :
    (tag : Text) (caches : List (Text × Cache)) → Emptied (tag ∷ []) caches (flush_tag tag caches)
unfolding Emptied
flush_tag-Emptied tag [] = tt
flush_tag-Emptied tag (c ∷ caches) = elim (Bool-cases (teq c.0 tag)) [
  | inl same ↦
      rw same
        ((refl, inl (rw (teq_sym tag c.0, same) refl, len-flush c.1)), flush_tag-Emptied tag caches)
  | inr other ↦
      rw other ((refl, inr (rw (teq_sym tag c.0, other) refl, refl)), flush_tag-Emptied tag caches)
]

own_tags : (caches : List (Text × Cache)) → AllTags (map (λ (c : Text × Cache). c.0) caches) caches
own_tags [] = tt
own_tags (c ∷ caches) =
    (ground (arith, teq_refl c.0), All-weaken caches (λ d h. ground arith) (own_tags caches))

sorted_tags :
    (caches : List (Text × Cache))
    → AllTags (sort_tags (map (λ (c : Text × Cache). c.0) caches)) caches
sorted_tags caches =
    All-weaken caches (λ (c : Text × Cache) h. mem-sort_tags c.0 _ ∙ h) (own_tags caches)

-- What a request asks for: all caches if it has no body, or what its JSON body reads as, which is
-- all caches too or those of a tag.
abbrev pub IsAsked : (List ℕ → Option (Option Text)) → Headers → List ℕ → Option Text → Type 0
IsAsked parse headers body target =
    ((body ≡ []) × (target ≡ none))
    ⊎ ((is_empty body ≡ false)
        × (is_json (content_type (get_all (codes "content-type") headers)) ≡ true)
        × (parse body ≡ some target))

abbrev pub tags_of : List (Text × Cache) → List Text
tags_of caches = map (λ (c : Text × Cache). c.0) caches

-- A flush that succeeds, with the tags that it reports.
abbrev pub Succeeds : Option Text → List (Text × Cache) → Flushed → Type 0
Succeeds none caches (status, tags, after) =
    (status ≡ 200) × ((k : Text) → mem k tags ≡ mem k (tags_of caches)) × Emptied tags caches after
Succeeds (some tag) caches (status, tags, after) =
    (status ≡ 200) × (tags ≡ tag ∷ []) × Emptied (tag ∷ []) caches after

-- What it leaves that is refused with a status.
abbrev pub Refused : ℕ → List (Text × Cache) → Flushed → Type 0
Refused code caches (status, tags, after) = (status ≡ code) × (tags ≡ []) × (after ≡ caches)

-- How the flush of a tag ends, by whether there is a cache of that tag.
abbrev pub AnswersTag : Bool → Text → List (Text × Cache) → Flushed → Type 0
AnswersTag true tag caches r = Succeeds (some tag) caches r
AnswersTag false tag caches r = Refused 404 caches r

-- How a flush of this target ends.
abbrev pub Answers : Option Text → List (Text × Cache) → Flushed → Type 0
Answers none caches r = Succeeds none caches r
Answers (some tag) caches r = AnswersTag (has_cache tag caches) tag caches r

flush_caches-Answers :
    (target : Option Text) (caches : List (Text × Cache))
    → Answers target caches (flush_caches target caches)
unfolding sort_tags
flush_caches-Answers none caches =
    (refl, (λ k. mem-sort_tags k (tags_of caches)), flush_all-Emptied _ caches (sorted_tags caches))
flush_caches-Answers (some tag) caches = elim (Bool-cases (has_cache tag caches)) [
  | inl there ↦ rw there (refl, refl, flush_tag-Emptied tag caches)
  | inr absent ↦ rw absent (refl, refl, refl)
]

module _ (parse : List ℕ → Option (Option Text)) (headers : Headers) (body : List ℕ) where
  abbrev json : Bool
  json = is_json (content_type (get_all (codes "content-type") headers))

  module _ (caches : List (Text × Cache)) where
    abbrev flushed : Flushed
    flushed = flush_request parse headers body caches

    asked-flushed :
        (target : Option Text)
        → IsAsked parse headers body target
        → flushed ≡ flush_caches target caches
    unfolding flush_request
    asked-flushed target (inl (no_body, all)) = rw (no_body, all) refl
    asked-flushed target (inr (full, is, good)) = rw (full, is, good) refl

    -- A request without a body, and one whose JSON body reads as no tag, empties every cache, and
    -- reports their tags; one that reads as the tag of a cache empties that cache and no other, and
    -- reports its tag; one that reads as another tag is refused with 404. A body that is not declared
    -- as JSON is refused with 415, and one that is, but cannot be read, with 400. What is refused
    -- leaves every cache as it was.
    pub flush_request-Answers :
        ((target : Option Text) → IsAsked parse headers body target → Answers target caches flushed)
        × (is_empty body ≡ false → json ≡ false → Refused 415 caches flushed)
        × (is_empty body ≡ false → json ≡ true → parse body ≡ none → Refused 400 caches flushed)
    unfolding flush_request
    flush_request-Answers = (
      λ target asked.
          subst (Answers target caches) (sym (asked-flushed target asked))
            (flush_caches-Answers target caches),
      λ full other. rw (full, other) (refl, refl, refl),
      λ full is bad. rw (full, is, bad) (refl, refl, refl),
    )
