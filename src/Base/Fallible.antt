-- ===== src/Base/Fallible.antt =====
-- Errors as values: error.rs. An error keeps its variant and the fixed part of its message; the
-- text that formatting adds is left out, except for the tag of an unknown plugin.
use Prim.Native.String.{String}
use mathlib.Core.Path.{◌≡◌, refl, ap}
use mathlib.Core.Logic.{◌⊎◌, inl, inr}
use mathlib.Core.Option.{Option, none, some}
use mathlib.Core.List.{List, [], ◌∷◌, ◌++◌}
use ferrumdns.Base.Strings.{Text, codes}

pub data Error : Type 0 where
  config : String → Error
  plugin : Text → Text → String → Error
  unknown_tag : Text → Error
  protocol : String → Error
  upstream : Text → Text → Error
  io other : Error

pub data Result {ℓ} (A : Type ℓ) : Type ℓ where
  ok : A → Result A
  err : Error → Result A

abbrev pub ok_or {ℓ} : {A : Type ℓ} → Option A → Error → Result A
ok_or none e = err e
ok_or (some a) e = ok a

-- The operator `?`, as `do` blocks write it.
infixl 5 ◌>>=◌
abbrev pub ◌>>=◌ {ℓ₁ ℓ₂} : {X : Type ℓ₁} {Y : Type ℓ₂} → Result X → (X → Result Y) → Result Y
ok x >>= next = next x
err failure >>= next = err failure

abbrev pub map_result {ℓ κ} : {A : Type ℓ} {B : Type κ} → (A → Result B) → List A → Result (List B)
map_result f [] = ok []
map_result f (x ∷ xs) = do y ← f x; ys ← map_result f xs; ok (y ∷ ys)

-- Where two calls in turn succeed, the first one does, and then the second one.
pub >>=-eq-ok {ℓ₁ ℓ₂} :
    {X : Type ℓ₁} {Y : Type ℓ₂} {y : Y} (r : Result X) (next : X → Result Y)
    → (r >>= next) ≡ ok y
    → (x : X) × (r ≡ ok x) × (next x ≡ ok y)
>>=-eq-ok (ok x) next h = (x, refl, h)
>>=-eq-ok (err failure) next h = cc

pub ok-eq {ℓ} : {A : Type ℓ} {a b : A} → ok a ≡ ok b → a ≡ b
ok-eq h = cc

pub ok_or-eq {ℓ} : {A : Type ℓ} (o : Option A) (e : Error) {a : A} → ok_or o e ≡ ok a → o ≡ some a
ok_or-eq none e h = cc
ok_or-eq (some a) e h = ap some (ok-eq h)

pub result-cases {ℓ} :
    {A : Type ℓ} (r : Result A) → ((e : Error) × (r ≡ err e)) ⊎ ((a : A) × (r ≡ ok a))
result-cases (err e) = inl (e, refl)
result-cases (ok a) = inr (a, refl)

-- What `to_string` prints, with the fixed part of the message.
abbrev pub error_text : Error → Text
error_text (config m) = codes "config: " ++ codes m
error_text (plugin tag kind m) =
    codes "plugin `" ++ (tag ++ (codes "` (" ++ (kind ++ (codes "): " ++ codes m))))
error_text (unknown_tag tag) = codes "unknown plugin tag `" ++ (tag ++ codes "`")
error_text (protocol m) = codes "dns protocol: " ++ codes m
error_text (upstream addr m) = codes "upstream " ++ (addr ++ (codes ": " ++ m))
error_text io = codes "io: "
error_text other = []
