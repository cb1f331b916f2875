-- ===== src/Upstream/Pool/Fresh.antt =====
-- upstream.rs: which connection a pool hands out, and how many it keeps.
use ferrumdns.Base.{
  ℕ, ◌-◌, ◌≤◌, ◌<◌, ◌≡◌, refl, ap, arith, Option, none, some, List, [], ◌∷◌, ◌++◌, ltb, length, All,
  Bool-cases, inl, inr, max,
}
use ferrumdns.Upstream.Pool.{StreamPool, new_pool, take_from, take, put}

module _ {S : Type 0} where
  abbrev pub IsStale : ℕ → ℕ → S × ℕ → Type 0
  IsStale idle now (s, t) = idle ≤ now - t

  -- What a taking leaves: it threw away stale connections alone, from the newest one on, and found a
  -- fresh one behind them or emptied the pool.
  abbrev pub IsTaken : ℕ → ℕ → List (S × ℕ) → List (S × ℕ) × Option S → Type 0
  IsTaken idle now slots (left, none) = (left ≡ []) × All (IsStale idle now) slots
  IsTaken idle now slots (left, some s) =
      (stale : List (S × ℕ)) × (t : ℕ) × (slots ≡ stale ++ (s, t) ∷ left)
      × All (IsStale idle now) stale
      × (now - t < idle)

  IsTaken-cons :
      (idle now : ℕ) (s : S) (t : ℕ) (slots : List (S × ℕ)) (r : List (S × ℕ) × Option S)
      → idle ≤ now - t
      → IsTaken idle now slots r
      → IsTaken idle now ((s, t) ∷ slots) r
  IsTaken-cons idle now s t slots (left, none) old (e, h) = (e, (old, h))
  IsTaken-cons idle now s t slots (left, some u) old (stale, v, e, h, fresh) =
      ((s, t) ∷ stale, v, ap (λ l. (s, t) ∷ l) e, (old, h), fresh)

  take_from-IsTaken :
      (idle now : ℕ) (slots : List (S × ℕ)) → IsTaken idle now slots (take_from idle now slots)
  unfolding take_from
  take_from-IsTaken idle now [] = (refl, tt)
  take_from-IsTaken idle now ((s, t) ∷ slots) = elim (Bool-cases (ltb (now - t) idle)) [
    | inl fresh ↦ rw (take_from, fresh) ([], t, refl, tt, ground arith)
    | inr old ↦
        rw (take_from, old)
          (IsTaken-cons idle now s t slots (take_from idle now slots) (ground arith)
            (take_from-IsTaken idle now slots))
  ]

  -- A pool hands out its most recently kept connection that has not been idle for too long; only the
  -- stale ones that were kept after it are thrown away, and it hands out none when all are stale.
  pub take-IsTaken :
      (now : ℕ) (p : StreamPool S)
      → IsTaken p.idle now p.slots ((take now p).0.slots, (take now p).1)
  unfolding take
  take-IsTaken now p = take_from-IsTaken p.idle now p.slots

-- The uses of a pool.
pub data Use (S : Type 0) : Type 0 where
  taking : ℕ → Use S
  keeping : S → ℕ → Use S

module _ {S : Type 0} where
  abbrev pub step : StreamPool S → Use S → StreamPool S
  step p (taking now) = (take now p).0
  step p (keeping s now) = put s now p

  abbrev pub run : StreamPool S → List (Use S) → StreamPool S
  run p [] = p
  run p (u ∷ us) = run (step p u) us

  abbrev IsBounded : ℕ → StreamPool S → Type 0
  IsBounded cap p = (p.cap ≡ cap) × (length p.slots ≤ cap)

  take_from-length :
      (idle now : ℕ) (slots : List (S × ℕ)) → length (take_from idle now slots).0 ≤ length slots
  unfolding take_from
  take_from-length idle now [] = omega arith
  take_from-length idle now ((s, t) ∷ slots) = ground (arith, take_from-length idle now slots)

  step-IsBounded :
      (cap : ℕ) (p : StreamPool S) (u : Use S) → IsBounded cap p → IsBounded cap (step p u)
  unfolding take put
  step-IsBounded cap p (taking now) (e, h) = (e, omega (arith, take_from-length p.idle now p.slots))
  step-IsBounded cap p (keeping s now) (e, h) = ground arith

  run-IsBounded :
      (cap : ℕ) (p : StreamPool S) (us : List (Use S)) → IsBounded cap p → IsBounded cap (run p us)
  run-IsBounded cap p [] h = h
  run-IsBounded cap p (u ∷ us) h = run-IsBounded cap (step p u) us (step-IsBounded cap p u h)

  -- Whatever is taken from a new pool and put into it, it never keeps more connections than its
  -- capacity, which is at least one.
  pub length-run-new_pool :
      (cap idle : ℕ) (us : List (Use S)) → length (run (new_pool cap idle) us).slots ≤ max cap 1
  length-run-new_pool cap idle us =
      (run-IsBounded (max cap 1) (new_pool cap idle) us (refl, omega arith)).1
