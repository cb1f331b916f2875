-- ===== src/Api/Origin/Guard.antt =====
-- api.rs: which requests reach a handler.
use ferrumdns.Api.Origin.{
  Url, Urls, get_all, site_trusted, is_origin, is_absent, host_trusted, url_trusted, origin_trusted,
  trusted_browser_source, Request, Response, refusal, with_headers, is_refused, response_headers,
}
use ferrumdns.Api.Origin.Protected.{IsProtected, with_headers-IsProtected}
use ferrumdns.Base.{
  ◌≡◌, ◌⊎◌, refl, ap, sym, subst, arith, inl, inr, Bool-cases, Bool, true, false, not, ◌&&◌, Option,
  none, some, List, [], ◌∷◌, ◌++◌, Text, codes, teq, teq_iff, ◌==◌, is_empty-eq, any, starts_with,
  if◌then◌else◌,
}

and_true : (a b : Bool) → (a && b) ≡ true → (a ≡ true) × (b ≡ true)
and_true a b h = (ground arith, ground arith)

is_absent-eq : (o : Option Text) → is_absent o ≡ true → o ≡ none
is_absent-eq none h = refl
is_absent-eq (some t) h = absurd (ground arith)

no_credentials : (url : Url) → is_origin url ≡ true → (url.username ≡ []) × (url.password ≡ none)
no_credentials url h =
    (is_empty-eq url.username (ground arith), is_absent-eq url.password (ground arith))

abbrev pub OwnSite : List (Option Text) → Type 0
OwnSite sites =
    (sites ≡ []) ⊎ (sites ≡ some (codes "same-origin") ∷ []) ⊎ (sites ≡ some (codes "none") ∷ [])

site_trusted-OwnSite : (sites : List (Option Text)) → site_trusted sites ≡ true → OwnSite sites
site_trusted-OwnSite [] h = inl refl
site_trusted-OwnSite (none ∷ []) h = absurd (ground arith)
site_trusted-OwnSite (some site ∷ []) h = elim (Bool-cases (teq site (codes "same-origin"))) [
  | inl same ↦ inr (inl (ap (λ t. some t ∷ []) ((teq_iff site _).0 same)))
  | inr other ↦ inr (inr (ap (λ t. some t ∷ []) ((teq_iff site _).0 (rw other at h))))
]
site_trusted-OwnSite (site ∷ other ∷ sites) h = absurd (ground arith)

module _ (U : Urls) where
  open U use {parse, same_origin, is_authority}

  -- The one origin and the one host that a request names are the same, by the scheme of the origin.
  pub record OwnOrigin (origins hosts : List (Option Text)) : Type 0 where
    pub value : Text
    pub host : Text
    pub origin : Url
    pub target : Url
    pub origin_is : origins ≡ some value ∷ []
    pub host_is : hosts ≡ some host ∷ []
    pub parsed : parse value ≡ some origin
    pub host_parsed : parse (origin.scheme ++ codes "://" ++ host) ≡ some target
    pub same : same_origin target origin ≡ true
    pub no_user : origin.username ≡ []
    pub no_password : origin.password ≡ none

  found_target :
      (origin : Url) (parsed : Option Url)
      → elim parsed [ none ↦ false | some target ↦ same_origin target origin ] ≡ true
      → (target : Url) × (parsed ≡ some target) × (same_origin target origin ≡ true)
  found_target origin none h = absurd (ground arith)
  found_target origin (some target) h = (target, refl, h)

  host_trusted-host :
      (origin : Url) (hosts : List (Option Text))
      → host_trusted U origin hosts ≡ true
      → (host : Text) × (target : Url) × (hosts ≡ some host ∷ [])
        × (parse (origin.scheme ++ codes "://" ++ host) ≡ some target)
        × (same_origin target origin ≡ true)
  host_trusted-host origin [] h = absurd (ground arith)
  host_trusted-host origin (none ∷ hosts) h = absurd (ground arith)
  host_trusted-host origin (some host ∷ other ∷ hosts) h = absurd (ground arith)
  host_trusted-host origin (some host ∷ []) h =
      let (_, compared) = and_true (not (any (λ c. c == b'@') host) && is_authority host) _ h in
      let (target, parsed, same) = found_target origin _ compared in
      (host, target, refl, parsed, same)

  from_origin :
      (value : Text) (hosts : List (Option Text)) (parsed : Option Url)
      → parse value ≡ parsed
      → url_trusted U parsed hosts ≡ true
      → OwnOrigin (some value ∷ []) hosts
  from_origin value hosts none e h = absurd (ground arith)
  from_origin value hosts (some origin) e h =
      let (guarded, compared) = and_true (is_origin origin) _ h in
      let (host, target, host_is, host_parsed, same) = host_trusted-host origin hosts compared in
      record {
        value = value;
        host = host;
        origin = origin;
        target = target;
        origin_is = refl;
        host_is = host_is;
        parsed = e;
        host_parsed = host_parsed;
        same = same;
        no_user = (no_credentials origin guarded).0;
        no_password = (no_credentials origin guarded).1;
      }

  origin_trusted-OwnOrigin :
      (origins hosts : List (Option Text))
      → origin_trusted U origins hosts ≡ true
      → (origins ≡ []) ⊎ OwnOrigin origins hosts
  origin_trusted-OwnOrigin [] hosts h = inl refl
  origin_trusted-OwnOrigin (none ∷ origins) hosts h = absurd (ground arith)
  origin_trusted-OwnOrigin (some value ∷ other ∷ origins) hosts h = absurd (ground arith)
  origin_trusted-OwnOrigin (some value ∷ []) hosts h =
      inr (from_origin value hosts (parse value) refl h)

module _ (U : Urls) {S : Type 0} (next : Request → S → Response × S) (request : Request)
    (s : S) where
  abbrev chosen : Bool → Response × S
  chosen refused =
      if refused
      then (with_headers refusal, s)
      else (with_headers (next request s).0, (next request s).1)

  -- A request from a page of the API's own origin, or from no page.
  abbrev pub OwnPage : Type 0
  OwnPage =
      OwnSite (get_all (codes "sec-fetch-site") request.headers)
      × ((get_all (codes "origin") request.headers ≡ [])
          ⊎ OwnOrigin U (get_all (codes "origin") request.headers)
              (get_all (codes "host") request.headers))

  abbrev IsGuarded : Response × S → Type 0
  IsGuarded r = IsProtected r.0 × (OwnPage ⊎ ((r.0.status ≡ 403) × (r.1 ≡ s)))

  chosen-IsGuarded :
      (trusted : Bool)
      → trusted_browser_source U request.headers ≡ trusted
      → IsGuarded (chosen (not trusted))
  unfolding trusted_browser_source
  chosen-IsGuarded true h =
      let (site, origin) =
        and_true (site_trusted (get_all (codes "sec-fetch-site") request.headers)) _ h in
      (
        with_headers-IsProtected (next request s).0,
        inl (site_trusted-OwnSite _ site, origin_trusted-OwnOrigin U _ _ origin),
      )
  chosen-IsGuarded false h = (with_headers-IsProtected refusal, inr (refl, refl))

  is_refused-untrusted :
      starts_with (codes "/api/") request.path ≡ true
      → request.safe ≡ false
      → is_refused U request ≡ not (trusted_browser_source U request.headers)
  is_refused-untrusted path unsafe = ground arith

  -- A request to the API that may change something gets to its handler only from a page of the API's
  -- own origin, or from no page: then what its headers say of the site is `same-origin` or `none`, and
  -- it names no origin, or one that has no credentials and is the origin of its one host. Any other is
  -- refused with the status 403, and changes nothing. Whatever the handler gives, the response has each
  -- of the four protecting headers, once and with its fixed value.
  pub response_headers-IsGuarded :
      starts_with (codes "/api/") request.path ≡ true
      → request.safe ≡ false
      → IsProtected (response_headers U next request s).0
        × (OwnPage
            ⊎ (((response_headers U next request s).0.status ≡ 403)
                × ((response_headers U next request s).1 ≡ s)))
  unfolding response_headers
  response_headers-IsGuarded path unsafe =
      subst (λ refused. IsGuarded (chosen refused)) (sym (is_refused-untrusted path unsafe))
        (chosen-IsGuarded (trusted_browser_source U request.headers) refl)
