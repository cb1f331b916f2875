-- ===== src/Api/Origin/Protected.antt =====
-- api.rs: the headers of every response.
use ferrumdns.Api.Origin.{Response, insert, policy, with_headers}
use ferrumdns.Base.{
  ◌≡◌, refl, ap, sym, subst, ◌∙◌, inl, inr, Bool-cases, false, List, [], ◌∷◌, Text, codes, teq,
  teq_iff, teq_refl, filter,
}

abbrev pub values : Text → List (Text × Text) → List (Text × Text)
values name headers = filter (λ (h : Text × Text). teq h.0 name) headers

-- Every response has the four headers, each once.
abbrev pub IsProtected : Response → Type 0
IsProtected r =
    (values (codes "cache-control") r.headers ≡ (codes "cache-control", codes "no-store") ∷ [])
    × (values (codes "content-security-policy") r.headers
        ≡ (codes "content-security-policy", policy) ∷ [])
    × (values (codes "x-content-type-options") r.headers
        ≡ (codes "x-content-type-options", codes "nosniff") ∷ [])
    × (values (codes "referrer-policy") r.headers
        ≡ (codes "referrer-policy", codes "no-referrer") ∷ [])

values-insert :
    (name value : Text) (headers : List (Text × Text))
    → values name (insert name value headers) ≡ (name, value) ∷ []
values-insert name value [] = rw (teq_refl name) refl
values-insert name value (h ∷ headers) = elim (Bool-cases (teq h.0 name)) [
  | inl same ↦ rw same (values-insert name value headers)
  | inr other ↦ rw (other, other) (values-insert name value headers)
]

values-insert_other :
    (name other value : Text) (headers : List (Text × Text))
    → teq other name ≡ false
    → values name (insert other value headers) ≡ values name headers
values-insert_other name other value [] e = rw e refl
values-insert_other name other value (h ∷ headers) e = elim (Bool-cases (teq h.0 other)) [
  | inl same ↦
      let differ : teq h.0 name ≡ false =
        subst (λ n. teq n name ≡ false) (sym ((teq_iff h.0 other).0 same)) e in
      rw (same, differ) (values-insert_other name other value headers e)
  | inr differ ↦ elim (Bool-cases (teq h.0 name)) [
    | inl same ↦
        rw (differ, same) (ap (λ l. h ∷ l) (values-insert_other name other value headers e))
    | inr absent ↦ rw (differ, absent) (values-insert_other name other value headers e)
  ]
]

module _ (r : Response) where
  abbrev with_cache : List (Text × Text)
  with_cache = insert (codes "cache-control") (codes "no-store") r.headers

  abbrev with_policy : List (Text × Text)
  with_policy = insert (codes "content-security-policy") policy with_cache

  abbrev with_type : List (Text × Text)
  with_type = insert (codes "x-content-type-options") (codes "nosniff") with_policy

  pub with_headers-IsProtected : IsProtected (with_headers r)
  unfolding teq
  with_headers-IsProtected = (
    values-insert_other _ _ _ with_type refl
        ∙ values-insert_other _ _ _ with_policy refl
        ∙ values-insert_other _ _ _ with_cache refl
        ∙ values-insert _ _ r.headers,
    values-insert_other _ _ _ with_type refl
        ∙ values-insert_other _ _ _ with_policy refl
        ∙ values-insert _ _ with_cache,
    values-insert_other _ _ _ with_type refl ∙ values-insert _ _ with_policy,
    values-insert _ _ with_type,
  )
