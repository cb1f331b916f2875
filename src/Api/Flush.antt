-- ===== src/Api/Flush.antt =====
-- api.rs: flushing caches.
pub mod Emptied
use ferrumdns.Api.Origin.{Headers, get_all}
use ferrumdns.Base.{
  ℕ, Bool, true, false, Option, none, some, List, [], ◌∷◌, ◌==◌, ltb, Text, codes, teq, map, first,
  is_empty, split_on, trim, if◌then◌else◌, any,
}
use ferrumdns.Cache.Serve.{flush}
use ferrumdns.Cache.Store.{Cache}

-- The order of strings, whose octets are in the order of their code points.
unfoldable pub text_le : Text → Text → Bool
text_le [] t = true
text_le (c ∷ s) [] = false
text_le (c ∷ s) (d ∷ t) =
    let rest = text_le s t in if ltb c d then true else if c == d then rest else false

unfoldable pub insert_tag : Text → List Text → List Text
unfolding text_le
insert_tag t [] = t ∷ []
insert_tag t (u ∷ tags) =
    let rest = insert_tag t tags in if text_le t u then t ∷ u ∷ tags else u ∷ rest

-- `sort_unstable`.
unfoldable pub sort_tags : List Text → List Text
unfolding insert_tag
sort_tags [] = []
sort_tags (t ∷ tags) = insert_tag t (sort_tags tags)

-- What comes in front of a semicolon in the first header `Content-Type`.
abbrev pub content_type : List (Option Text) → Option Text
content_type [] = none
content_type (none ∷ values) = none
content_type (some v ∷ values) = elim (first (split_on b';' v)) [
  | none ↦ none
  | some t ↦ some (trim t)
]

abbrev pub is_json : Option Text → Bool
is_json none = false
is_json (some t) = teq t (codes "application/json")

abbrev pub has_cache : Text → List (Text × Cache) → Bool
has_cache tag caches = any (λ (c : Text × Cache). teq c.0 tag) caches

-- The cache of one tag is emptied.
abbrev pub flush_tag : Text → List (Text × Cache) → List (Text × Cache)
flush_tag tag caches =
    map (λ (c : Text × Cache). if teq c.0 tag then (c.0, flush c.1) else c) caches

abbrev pub flush_all : List (Text × Cache) → List (Text × Cache)
flush_all caches = map (λ (c : Text × Cache). (c.0, flush c.1)) caches

-- A status, the tags that were flushed, and the caches.
abbrev pub Flushed : Type 0
Flushed = ℕ × List Text × List (Text × Cache)

abbrev pub flush_caches : Option Text → List (Text × Cache) → Flushed
flush_caches none caches =
    (200, sort_tags (map (λ (c : Text × Cache). c.0) caches), flush_all caches)
flush_caches (some tag) caches =
    if has_cache tag caches
    then (200, sort_tags (tag ∷ []), flush_tag tag caches)
    else (404, [], caches)

-- The handler; `parse` is the crate's reading of a body as a request with an optional tag and no
-- other field. The texts of errors are left out.
unfoldable pub flush_request :
    (List ℕ → Option (Option Text)) → Headers → List ℕ → List (Text × Cache) → Flushed
unfolding get_all teq trim split_on sort_tags flush
flush_request parse headers body caches =
    if is_empty body
    then flush_caches none caches
    else if is_json (content_type (get_all (codes "content-type") headers))
    then elim (parse body) [ none ↦ (400, [], caches) | some tag ↦ flush_caches tag caches ]
    else (415, [], caches)
