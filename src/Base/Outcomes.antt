-- ===== src/Base/Outcomes.antt =====
-- What a computation gives when it succeeds.
use mathlib.Core.Path.{◌≡◌, refl, subst}
use ferrumdns.Base.Fallible.{Result, ok, err, ◌>>=◌}

abbrev pub Gives {ℓ κ} : {A : Type ℓ} → (A → Type κ) → Result A → Type κ
Gives P (ok a) = P a
Gives P (err e) = Unit

module _ {ℓ κ ν} {A : Type ℓ} {B : Type κ} (P : B → Type ν) where
  -- Whatever comes first, what comes last decides.
  pub Gives-bind : (r : Result A) (f : A → Result B) → ((a : A) → Gives P (f a)) → Gives P (r >>= f)
  Gives-bind (ok a) f h = h a
  Gives-bind (err e) f h = tt

module _ {ℓ κ} {A : Type ℓ} (P : A → Type κ) where
  pub Gives-ok : (r : Result A) {a : A} → Gives P r → r ≡ ok a → P a
  Gives-ok r h e = subst (Gives P) e h

  pub Gives-of_ok : (r : Result A) → ((a : A) → r ≡ ok a → P a) → Gives P r
  Gives-of_ok (ok a) h = h a refl
  Gives-of_ok (err e) h = tt
