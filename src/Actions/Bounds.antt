-- ===== src/Actions/Bounds.antt =====
-- plugin/actions.rs: the bounds of the builtin `ttl`.
use ferrumdns.Base.{
  ℕ, ◌≤◌, ◌≡◌, arith, subst, inl, inr, some, List, [], ◌∷◌, map, Text, ltb, Option-cases, trim,
  split_once, config, ◌>>=◌, Result, ok, err, All, if◌then◌else◌, >>=-eq-ok,
}
use ferrumdns.Actions.{ttl, parse_ttl_range, parse_u32, apply}
use ferrumdns.Context.Answers.{apply_ttl_clamp, clamp_ttl}
use ferrumdns.Context.{QueryContext}
use ferrumdns.Dns.{Record, Message}
use ferrumdns.Plugin.{Action}

abbrev same_bounds : ℕ → Result (ℕ × ℕ)
same_bounds v = ok (v, v)

abbrev range : ℕ → ℕ → Result (ℕ × ℕ)
range lo hi = if ltb hi lo then err (config "ttl minimum must not exceed maximum") else ok (lo, hi)

same_bounds-le : (v lo hi : ℕ) → same_bounds v ≡ ok (lo, hi) → lo ≤ hi
same_bounds-le v lo hi h = ground arith

range-le : (l u lo hi : ℕ) → range l u ≡ ok (lo, hi) → lo ≤ hi
range-le l u lo hi h = ground arith

parse_ttl_range-le : (spec : Text) (lo hi : ℕ) → parse_ttl_range spec ≡ ok (lo, hi) → lo ≤ hi
unfolding parse_ttl_range
parse_ttl_range-le spec lo hi h = elim (Option-cases (split_once b'-' spec)) [
  | inl whole ↦
      let (v, _, last) = >>=-eq-ok (parse_u32 spec "bad ttl") same_bounds (ground arith) in
      same_bounds-le v lo hi last
  | inr ((a, b), pair) ↦
      let (l, _, rest) =
        >>=-eq-ok (parse_u32 (trim a) "bad ttl minimum")
          (λ l. parse_u32 (trim b) "bad ttl maximum" >>= range l) (ground arith) in
      let (u, _, last) = >>=-eq-ok (parse_u32 (trim b) "bad ttl maximum") (range l) rest in
      range-le l u lo hi last
]

clamp-bounds :
    (lo hi : ℕ) (rs : List Record)
    → lo ≤ hi
    → All (λ r. (lo ≤ r.ttl) × (r.ttl ≤ hi)) (map (clamp_ttl lo hi) rs)
clamp-bounds lo hi [] h = tt
clamp-bounds lo hi (r ∷ rs) h = ((ground arith, ground arith), clamp-bounds lo hi rs h)

-- A TTL range that is read from text can always be applied, and all records of the answer and the
-- authority sections of the response then have TTLs in the range.
pub apply-parse_ttl_range :
    (spec : Text) (lo hi : ℕ) (ctx : QueryContext) (resp : Message)
    → parse_ttl_range spec ≡ ok (lo, hi)
    → (apply (ttl lo hi) ctx).1.response ≡ some resp
    → ((apply (ttl lo hi) ctx).0 ≡ ok Action.continue)
      × All (λ r. (lo ≤ r.ttl) × (r.ttl ≤ hi)) resp.answers
      × All (λ r. (lo ≤ r.ttl) × (r.ttl ≤ hi)) resp.name_servers
unfolding apply apply_ttl_clamp
apply-parse_ttl_range spec lo hi ctx resp parsed h =
    let le = parse_ttl_range-le spec lo hi parsed in
    elim (Option-cases ctx.response) [
      | inl absent ↦ absurd (ground arith)
      | inr (old, present) ↦
          let answers : map (clamp_ttl lo hi) old.answers ≡ resp.answers = ground arith in
          let name_servers : map (clamp_ttl lo hi) old.name_servers ≡ resp.name_servers =
            ground arith in
          (
            ground arith,
            subst (All _) answers (clamp-bounds lo hi old.answers le),
            subst (All _) name_servers (clamp-bounds lo hi old.name_servers le),
          )
    ]
