-- ===== src/Upstream/Pool.antt =====
-- upstream.rs: `StreamPool`. The last slot of the vector is the first one of the list; a time is
-- that at which the clock is read.
pub mod Fresh
use ferrumdns.Base.{
  ℕ, ◌-◌, max, Bool, true, false, Option, none, some, List, [], ◌∷◌, ltb, length, if◌then◌else◌,
}

pub record StreamPool (S : Type 0) : Type 0 where
  pub slots : List (S × ℕ)
  pub cap : ℕ
  pub idle : ℕ

module _ {S : Type 0} where
  abbrev pub new_pool : ℕ → ℕ → StreamPool S
  new_pool cap idle = record { slots = []; cap = max cap 1; idle = idle }

  -- The loop of `take`.
  unfoldable pub take_from : ℕ → ℕ → List (S × ℕ) → List (S × ℕ) × Option S
  take_from idle now [] = ([], none)
  take_from idle now ((s, t) ∷ slots) =
      let later = take_from idle now slots in if ltb (now - t) idle then (slots, some s) else later

  unfoldable pub take : ℕ → StreamPool S → StreamPool S × Option S
  unfolding take_from
  take now p =
      let (slots, found) = take_from p.idle now p.slots in (record p { slots = slots }, found)

  unfoldable pub put : S → ℕ → StreamPool S → StreamPool S
  put s now p = if ltb (length p.slots) p.cap then record p { slots = (s, now) ∷ p.slots } else p
