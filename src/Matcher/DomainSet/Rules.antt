-- ===== src/Matcher/DomainSet/Rules.antt =====
-- matcher.rs: the rules of a domain set, and what it matches.
use ferrumdns.Base.{
  ◌≡◌, refl, Bool, true, false, ◌||◌, none, some, List, [], ◌∷◌, ◌++◌, Text, codes, teq, trim,
  teq_iff, to_ascii_lowercase, strip_prefix, contains_text, ok, >>=-eq-ok, arith, any, Bool-cases,
  Option-cases, inl, inr, if◌then◌else◌,
}
use ferrumdns.Matcher.DomainSet.{
  DomainSet, new_set, Regexes, normalize_domain, is_comment, insert_full, add_rule, add_rules,
  contains,
}
use ferrumdns.Matcher.Suffix.{labels_of, insert_suffix, suffix_match, empty_node, match_labels}
use ferrumdns.Matcher.Suffix.Cover.{covers, match_labels-insert_labels}

module _ (R : Regexes) where
  -- The domains that one rule covers, by the kind that its prefix names.
  unfoldable pub rule_covers : Text → Text → Bool
  unfolding covers
  rule_covers raw' domain =
      let raw = trim raw' in
      let d = normalize_domain domain in
      if is_comment raw then false else elim (strip_prefix (codes "full:") raw) [
        | some rest ↦ teq (normalize_domain rest) d
        | none ↦ elim (strip_prefix (codes "keyword:") raw) [
          | some rest ↦ contains_text (to_ascii_lowercase rest) d
          | none ↦ elim (strip_prefix (codes "regexp:") raw) [
            | some rest ↦ R.is_match rest d
            | none ↦ elim (strip_prefix (codes "domain:") raw) [
              | some rest ↦ covers (labels_of (normalize_domain rest)) (labels_of d)
              | none ↦ covers (labels_of (normalize_domain raw)) (labels_of d)
            ]
          ]
        ]
      ]

any-append_one {ℓ} :
    {A : Type ℓ} (p : A → Bool) (xs : List A) (x : A) → any p (xs ++ x ∷ []) ≡ p x || any p xs
any-append_one p [] x = refl
any-append_one p (y ∷ xs) x = ground (arith, any-append_one p xs x)

any_of_any-teq :
    (e d : Text) (full : List Text)
    → any (λ f. teq f e) full ≡ true
    → teq e d ≡ true
    → any (λ f. teq f d) full ≡ true
any_of_any-teq e d [] h same = cc
any_of_any-teq e d (f ∷ full) h same = ground (arith, teq_iff e d, any_of_any-teq e d full)

any-insert_full :
    (e d : Text) (full : List Text)
    → any (λ f. teq f d) (insert_full e full) ≡ teq e d || any (λ f. teq f d) full
any-insert_full e d full = ground (arith, any_of_any-teq e d full)

module _ (R : Regexes) where
  -- The four tests of `contains`, as one disjunction.
  contains-or :
      (domain : Text) (set : DomainSet)
      → contains R domain set
        ≡ any (λ f. teq f (normalize_domain domain)) set.full
          || suffix_match (normalize_domain domain) set.suffix
          || any (λ kw. contains_text kw (normalize_domain domain)) set.keywords
          || any (λ re. R.is_match re (normalize_domain domain)) set.regexes
  unfolding contains
  contains-or domain set = ground arith

suffix_match-insert_suffix :
    (rule d : Text) (set : DomainSet)
    → suffix_match d (insert_suffix rule set.suffix)
      ≡ covers (labels_of rule) (labels_of d) || suffix_match d set.suffix
unfolding suffix_match insert_suffix
suffix_match-insert_suffix rule d set =
    match_labels-insert_labels (labels_of rule) (labels_of d) set.suffix

match_labels-empty : (labels : List Text) → match_labels labels empty_node ≡ false
unfolding match_labels
match_labels-empty [] = refl
match_labels-empty (lab ∷ labels) = refl

suffix_match-empty : (d : Text) → suffix_match d empty_node ≡ false
unfolding suffix_match
suffix_match-empty d = match_labels-empty (labels_of d)

module _ (R : Regexes) (domain : Text) (set : DomainSet) where
  abbrev d : Text
  d = normalize_domain domain

  contains-add_full :
      (rule : Text)
      → contains R domain (record set { full = insert_full rule set.full })
        ≡ teq rule d || contains R domain set
  contains-add_full rule = ground (
    arith,
    contains-or R domain set,
    contains-or R domain (record set { full = insert_full rule set.full }),
    any-insert_full rule d set.full,
  )

  contains-add_keyword :
      (kw : Text)
      → contains R domain (record set { keywords = set.keywords ++ kw ∷ [] })
        ≡ contains_text kw d || contains R domain set
  contains-add_keyword kw = ground (
    arith,
    contains-or R domain set,
    contains-or R domain (record set { keywords = set.keywords ++ kw ∷ [] }),
    any-append_one (λ (w : Text). contains_text w d) set.keywords kw,
  )

  contains-add_regex :
      (re : Text)
      → contains R domain (record set { regexes = set.regexes ++ re ∷ [] })
        ≡ R.is_match re d || contains R domain set
  contains-add_regex re = ground (
    arith,
    contains-or R domain set,
    contains-or R domain (record set { regexes = set.regexes ++ re ∷ [] }),
    any-append_one (λ (r : Text). R.is_match r d) set.regexes re,
  )

  contains-add_suffix :
      (rule : Text)
      → contains R domain (record set { suffix = insert_suffix rule set.suffix })
        ≡ covers (labels_of rule) (labels_of d) || contains R domain set
  contains-add_suffix rule = ground (
    arith,
    contains-or R domain set,
    contains-or R domain (record set { suffix = insert_suffix rule set.suffix }),
    suffix_match-insert_suffix rule d set,
  )

  pub contains-add_rule :
      (raw : Text) {set' : DomainSet}
      → add_rule R raw set ≡ ok set'
      → contains R domain set' ≡ rule_covers R raw domain || contains R domain set
  unfolding add_rule rule_covers
  contains-add_rule raw h = elim (Bool-cases (is_comment (trim raw))) [
    | inl e ↦ ground arith
    | inr e ↦ elim (Option-cases (strip_prefix (codes "full:") (trim raw))) [
      | inr (rest, f) ↦ ground (arith, contains-add_full (normalize_domain rest))
      | inl f ↦ elim (Option-cases (strip_prefix (codes "keyword:") (trim raw))) [
        | inr (rest, k) ↦ ground (arith, contains-add_keyword (to_ascii_lowercase rest))
        | inl k ↦ elim (Option-cases (strip_prefix (codes "regexp:") (trim raw))) [
          | inr (rest, r) ↦ ground (arith, contains-add_regex rest)
          | inl r ↦ elim (Option-cases (strip_prefix (codes "domain:") (trim raw))) [
            | inr (rest, m) ↦ ground (arith, contains-add_suffix (normalize_domain rest))
            | inl m ↦ ground (arith, contains-add_suffix (normalize_domain (trim raw)))
          ]
        ]
      ]
    ]
  ]

module _ (R : Regexes) (domain : Text) where
  contains-add_rules_from :
      (raws : List Text) (set : DomainSet) {set' : DomainSet}
      → add_rules R raws set ≡ ok set'
      → contains R domain set' ≡ any (λ raw. rule_covers R raw domain) raws || contains R domain set
  unfolding add_rules
  contains-add_rules_from [] set h = ground arith
  contains-add_rules_from (raw ∷ raws) set h =
      let (mid, first_ok, rest_ok) = >>=-eq-ok (add_rule R raw set) (add_rules R raws) h in
      ground (
        arith,
        contains-add_rule R domain set raw first_ok,
        contains-add_rules_from raws mid rest_ok,
      )

  contains-new_set : contains R domain new_set ≡ false
  contains-new_set =
      ground (arith, contains-or R domain new_set, suffix_match-empty (normalize_domain domain))

  -- A set that is loaded from a list of rules matches a domain exactly when one of the rules
  -- covers it, whatever their order and kinds.
  pub contains-add_rules :
      (raws : List Text) {set : DomainSet}
      → add_rules R raws new_set ≡ ok set
      → contains R domain set ≡ any (λ raw. rule_covers R raw domain) raws
  contains-add_rules raws h =
      ground (arith, contains-add_rules_from raws new_set h, contains-new_set)
