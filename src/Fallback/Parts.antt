-- ===== src/Fallback/Parts.antt =====
-- plugin/fallback.rs: two tasks that see separate parts of the shared state.
use ferrumdns.Base.{
  ℕ, ◌-◌, ◌≡◌, refl, sym, arith, inl, inr, Bool-cases, Option, leb, ◌&&◌, true, false,
}
use ferrumdns.Fallback.{Task, done, await, Outcome, wait_of, run, within, Raced, race}

module _ {A B : Type 0} where
  -- A task that sees only one part of the state.
  unfoldable pub on_left : Task A → Task (A × B)
  on_left (done result ctx) = done result ctx
  on_left (await ms change next) = await ms (λ s. (change s.0, s.1)) (λ s. on_left (next s.0))

  unfoldable pub on_right : Task B → Task (A × B)
  on_right (done result ctx) = done result ctx
  on_right (await ms change next) = await ms (λ s. (s.0, change s.1)) (λ s. on_right (next s.1))

pub wait_of-on_left :
    {A : Type 0} (B : Type 0) (x : Task A) → wait_of (on_left {A = A} {B = B} x) ≡ wait_of x
unfolding on_left
wait_of-on_left B (done result ctx) = refl
wait_of-on_left B (await ms change next) = refl

pub wait_of-on_right :
    {B : Type 0} (A : Type 0) (y : Task B) → wait_of (on_right {A = A} {B = B} y) ≡ wait_of y
unfolding on_right
wait_of-on_right A (done result ctx) = refl
wait_of-on_right A (await ms change next) = refl

not_soon : (t p q : ℕ) → (leb p t && leb p q) ≡ false → leb t q ≡ true → leb p t ≡ false
not_soon t p q h h' = ground arith

-- The waiting that two tasks have done, taken from both sides.
within-earlier :
    {A : Type 0} (t p q : ℕ) (ms : ℕ) (change : A → A) (next : A → Task A) (a : A)
    → (leb p t && leb p q) ≡ false
    → leb t q ≡ false
    → within (t - q) (p - q) (await ms change next) a ≡ within t p (await ms change next) a
unfolding within
within-earlier t p q ms change next a h h' = elim (Bool-cases (leb p t)) [
  | inl soon ↦
      let soon' : leb (p - q) (t - q) ≡ true = ground arith in
      let same : (t - q) - (p - q) ≡ t - p = ground arith in rw (within, soon, soon', same) refl
  | inr late ↦
      let late' : leb (p - q) (t - q) ≡ false = ground arith in rw (within, late, late') refl
]

module _ {A B : Type 0} where
  pub run-on_right :
      (y : Task B) (a : A) (b : B) → run (on_right y) (a, b) ≡ ((run y b).0, (a, (run y b).1))
  unfolding run on_right
  run-on_right (done result ctx) a b = refl
  run-on_right (await ms change next) a b = run-on_right (next b) a (change b)

  pub within-on_left :
      (t p : ℕ) (x : Task A) (a : A) (b : B)
      → within t p (on_left x) (a, b) ≡ ((within t p x a).0, ((within t p x a).1, b))
  unfolding within on_left
  within-on_left t p (done result ctx) a b = refl
  within-on_left t p (await ms change next) a b = elim (Bool-cases (leb p t)) [
    | inl soon ↦
        rw (within, on_left, soon, wait_of-on_left B (next a))
          (within-on_left (t - p) (wait_of (next a)) (next a) (change a) b)
    | inr late ↦ rw (within, on_left, late) refl
  ]

  -- How a race of two tasks on separate parts ends: as the primary alone, and with a rest of the
  -- other task that comes to the same end.
  pub record IsSplit (alone : Option Outcome × A) (whole : Outcome × B) (r : Raced (A × B))
      : Type 0 where
    pub outcome_is : r.outcome ≡ alone.0
    pub left_is : r.state.0 ≡ alone.1
    pub remaining : Task B
    pub rest_is : r.rest ≡ on_right remaining
    pub goes_on : run remaining r.state.1 ≡ whole

  pub race-IsSplit :
      (t p q : ℕ) (x : Task A) (y : Task B) (a : A) (b : B)
      → IsSplit (within t p x a) (run y b) (race t p (on_left x) q (on_right y) (a, b))
  unfolding race within run on_left on_right
  race-IsSplit t p q (done result ctx) y a b = record {
    outcome_is = refl;
    left_is = refl;
    remaining = y;
    rest_is = refl;
    goes_on = refl;
  }
  race-IsSplit t p q (await ms change next) (done result ctx) a b = elim (Bool-cases (leb p t)) [
    | inl soon ↦
        rw (race, within, on_left, on_right, soon, wait_of-on_left B (next a))
          (race-IsSplit (t - p) (wait_of (next a)) q (next a) (done result ctx) (change a) b)
    | inr late ↦
        rw (race, within, on_left, on_right, late)
          (record {
            outcome_is = refl;
            left_is = refl;
            remaining = done result ctx;
            rest_is = refl;
            goes_on = refl;
          })
  ]
  race-IsSplit t p q (await ms change next) (await ms' change' next') a b =
      elim (Bool-cases (leb p t && leb p q)) [
        | inl first' ↦
            let soon : leb p t ≡ true = ground arith in
            rw (race, within, on_left, first', soon, wait_of-on_left B (next a))
              (race-IsSplit (t - p) (wait_of (next a)) (q - p) (next a) (await ms' change' next')
                (change a) b)
        | inr h ↦ elim (Bool-cases (leb t q)) [
          | inl over ↦
              rw (race, within, on_left, on_right, h, over, not_soon t p q h over)
                (record {
                  outcome_is = refl;
                  left_is = refl;
                  remaining = await ms' change' next';
                  rest_is = refl;
                  goes_on = refl;
                })
          | inr before ↦
              rw
                (
                  race,
                  on_right,
                  h,
                  before,
                  wait_of-on_right A (next' b),
                  sym (within-earlier t p q ms change next a h before),
                )
                (race-IsSplit (t - q) (p - q) (wait_of (next' b)) (await ms change next) (next' b) a
                  (change' b))
        ]
      ]
