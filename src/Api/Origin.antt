-- ===== src/Api/Origin.antt =====
-- api.rs: the guard on requests that browsers send from other origins, and the headers of responses.
pub mod Guard
pub mod Protected
use ferrumdns.Base.{
  ℕ, Bool, true, false, not, ◌&&◌, ◌||◌, Option, none, some, List, [], ◌∷◌, ◌++◌, Text, codes, teq,
  ◌==◌, filter, is_empty, any, starts_with, if◌then◌else◌,
}

-- What the crate reqwest reads in a URL.
pub record Url : Type 0 where
  pub scheme : Text
  pub host_str : Option Text
  pub port : Option ℕ
  pub username : Text
  pub password : Option Text
  pub path : Text
  pub query : Option Text
  pub fragment : Option Text

-- The crates: URLs, whether two have the same origin, and whether a text is an authority.
pub record Urls : Type 0 where
  pub parse : Text → Option Url
  pub same_origin : Url → Url → Bool
  pub is_authority : Text → Bool

-- The headers of a request, with names in lower case; `none` is a value that is no text.
abbrev pub Headers : Type 0
Headers = List (Text × Option Text)

unfoldable pub get_all : Text → Headers → List (Option Text)
unfolding teq
get_all name [] = []
get_all name ((n, v) ∷ headers) =
    let rest = get_all name headers in if teq n name then v ∷ rest else rest

abbrev pub site_value : Option Text → Bool
site_value none = false
site_value (some site) = teq site (codes "same-origin") || teq site (codes "none")

abbrev pub site_trusted : List (Option Text) → Bool
site_trusted [] = true
site_trusted (site ∷ []) = site_value site
site_trusted (site ∷ other ∷ sites) = false

abbrev pub is_absent : Option Text → Bool
is_absent none = true
is_absent (some t) = false

-- The guard on the URL in the header `Origin`.
abbrev pub is_origin : Url → Bool
is_origin url =
    (teq url.scheme (codes "http") || teq url.scheme (codes "https"))
    && not (is_absent url.host_str)
    && is_empty url.username
    && is_absent url.password
    && teq url.path (codes "/")
    && is_absent url.query
    && is_absent url.fragment

module _ (U : Urls) where
  open U use {parse, same_origin, is_authority}

  -- The comparison with the header `Host`, by the scheme of the origin.
  abbrev pub host_url : Url → Text → Bool
  host_url origin host = elim (parse (origin.scheme ++ codes "://" ++ host)) [
    | none ↦ false
    | some target ↦ same_origin target origin
  ]

  abbrev pub host_trusted : Url → List (Option Text) → Bool
  host_trusted origin (some host ∷ []) =
      not (any (λ c. c == b'@') host) && is_authority host && host_url origin host
  host_trusted origin _ = false

  abbrev pub url_trusted : Option Url → List (Option Text) → Bool
  url_trusted none hosts = false
  url_trusted (some origin) hosts = is_origin origin && host_trusted origin hosts

  abbrev pub origin_trusted : List (Option Text) → List (Option Text) → Bool
  origin_trusted [] hosts = true
  origin_trusted (some value ∷ []) hosts = url_trusted (parse value) hosts
  origin_trusted _ hosts = false

  unfoldable pub trusted_browser_source : Headers → Bool
  unfolding get_all teq
  trusted_browser_source headers =
      site_trusted (get_all (codes "sec-fetch-site") headers)
      && origin_trusted (get_all (codes "origin") headers) (get_all (codes "host") headers)

-- `safe` tells whether the method is one of those that change nothing.
pub record Request : Type 0 where
  pub path : Text
  pub safe : Bool
  pub headers : Headers
  pub body : List ℕ

pub record Response : Type 0 where
  pub status : ℕ
  pub headers : List (Text × Text)

-- `HeaderMap::insert`: a value takes the place of all that its name had.
abbrev pub insert : Text → Text → List (Text × Text) → List (Text × Text)
insert name value headers =
    filter (λ (h : Text × Text). not (teq h.0 name)) headers ++ (name, value) ∷ []

abbrev pub policy : Text
policy =
    codes
      "default-src 'none'; script-src 'self'; style-src 'self'; img-src 'self'; font-src 'self'; connect-src 'self'; base-uri 'none'; frame-ancestors 'none'; form-action 'self'"

abbrev pub with_headers : Response → Response
with_headers response = record response {
  headers = insert (codes "referrer-policy") (codes "no-referrer") (
      insert (codes "x-content-type-options") (codes "nosniff") (
        insert (codes "content-security-policy") policy
          (insert (codes "cache-control") (codes "no-store") response.headers)));
}

-- The text in its body is left out.
abbrev pub refusal : Response
refusal = record {
  status = 403;
  headers = (codes "content-type", codes "text/plain; charset=utf-8") ∷ [];
}

-- The requests that the guard refuses.
abbrev pub is_refused : Urls → Request → Bool
is_refused U request =
    starts_with (codes "/api/") request.path
    && not request.safe
    && not (trusted_browser_source U request.headers)

-- The layer around the handlers, which `next` stands for, on the state that they change.
unfoldable pub response_headers :
    Urls → {S : Type 0} → (Request → S → Response × S) → Request → S → Response × S
unfolding trusted_browser_source starts_with teq
response_headers U next request s =
    if is_refused U request
    then (with_headers (refusal), s)
    else (with_headers (next request s).0, (next request s).1)
