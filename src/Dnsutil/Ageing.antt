-- ===== src/Dnsutil/Ageing.antt =====
-- dnsutil.rs: TTLs that grow old.
use ferrumdns.Base.{
  ℕ, ◌+◌, ◌≤◌, ◌≡◌, refl, arith, none, some, List, [], ◌∷◌, ◌++◌, map, inl, inr, Option-cases, All,
  subst, sym, true, false, any, ◌==◌, is_empty, Bool-cases, leb,
}
use ferrumdns.Dns.{Record, Message}
use ferrumdns.Dnsutil.{decay, subtract_ttl, least_ttl, min_ttl}

decay-decay : (a b : ℕ) (r : Record) → decay b (decay a r) ≡ decay (a + b) r
unfolding decay
decay-decay a b r = ground arith

map-decay : (a b : ℕ) (rs : List Record) → map (decay b) (map (decay a) rs) ≡ map (decay (a + b)) rs
map-decay a b [] = refl
map-decay a b (r ∷ rs) = ground (arith, map-decay a b rs, decay-decay a b r)

-- Ageing a message by two times in turn is ageing it by their sum, in all three sections.
pub subtract_ttl_add :
    (msg : Message) (a b : ℕ) → subtract_ttl (subtract_ttl msg a) b ≡ subtract_ttl msg (a + b)
unfolding subtract_ttl
subtract_ttl_add msg a b = ground (
  arith,
  map-decay a b msg.answers,
  map-decay a b msg.name_servers,
  map-decay a b msg.additionals,
)

All-le : (t u : ℕ) (rs : List Record) → u ≤ t → All (λ r. t ≤ r.ttl) rs → All (λ r. u ≤ r.ttl) rs
All-le t u [] le h = tt
All-le t u (r ∷ rs) le (p, h) = (omega arith, All-le t u rs le h)

least_ttl_nil : (rs : List Record) → least_ttl rs ≡ none → rs ≡ []
unfolding least_ttl
least_ttl_nil [] h = refl
least_ttl_nil (r ∷ rs) h = elim (Option-cases (least_ttl rs)) [
  | inl absent ↦ absurd (ground arith)
  | inr (u, present) ↦ absurd (ground arith)
]

least_ttl-le : (rs : List Record) (t : ℕ) → least_ttl rs ≡ some t → All (λ r. t ≤ r.ttl) rs
unfolding least_ttl
least_ttl-le [] t h = tt
least_ttl-le (r ∷ rs) t h = elim (Option-cases (least_ttl rs)) [
  | inl absent ↦ (ground arith, subst (All (λ q. t ≤ q.ttl)) (sym (least_ttl_nil rs absent)) tt)
  | inr (u, present) ↦
      let le : (t ≤ r.ttl) × (t ≤ u) = ground arith in
      (le.0, All-le u t rs le.1 (least_ttl-le rs u present))
]

nil_full : (rs : List Record) → rs ≡ [] → is_empty rs ≡ false → ⊥
nil_full [] e h = absurd (ground arith)
nil_full (r ∷ rs) e h = absurd (ground arith)

least_ttl-reached :
    (rs : List Record) (t : ℕ) → least_ttl rs ≡ some t → any (λ r. r.ttl == t) rs ≡ true
unfolding least_ttl
least_ttl-reached [] t h = absurd (ground arith)
least_ttl-reached (r ∷ rs) t h = elim (Option-cases (least_ttl rs)) [
  | inl absent ↦ ground arith
  | inr (u, present) ↦ elim (Bool-cases (leb r.ttl u)) [
    | inl small ↦ ground arith
    | inr large ↦
        let same : u ≡ t = ground arith in
        let later =
          subst (λ v. any (λ q. q.ttl == v) rs ≡ true) same (least_ttl-reached rs u present) in
        ground arith
  ]
]

-- The least TTL of a message is a lower bound of the TTLs of its answer and authority sections, and if
-- these hold a record, one of them has it.
pub min_ttl-le :
    (msg : Message)
    → All (λ r. min_ttl msg ≤ r.ttl) (msg.answers ++ msg.name_servers)
      × (is_empty (msg.answers ++ msg.name_servers) ≡ false
          → any (λ r. r.ttl == min_ttl msg) (msg.answers ++ msg.name_servers) ≡ true)
unfolding min_ttl
min_ttl-le msg =
    let rs = msg.answers ++ msg.name_servers in
    elim (Option-cases (least_ttl rs)) [
      | inl absent ↦
          let none_left = least_ttl_nil rs absent in
          (
            subst (All (λ q. min_ttl msg ≤ q.ttl)) (sym none_left) tt,
            λ h. absurd (nil_full rs none_left h),
          )
      | inr (t, present) ↦
          let at : t ≡ min_ttl msg = ground arith in
          (
            All-le t (min_ttl msg) rs (ground arith) (least_ttl-le rs t present),
            λ h. subst (λ v. any (λ r. r.ttl == v) rs ≡ true) at (least_ttl-reached rs t present),
          )
    ]
