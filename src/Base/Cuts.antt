-- ===== src/Base/Cuts.antt =====
-- Texts that lack a character, and what cutting a text at that character gives.
use Prim.Native.Nat.{ℕ}
use mathlib.Core.Path.{◌≡◌, refl, sym, ap, ◌∙◌}
use mathlib.Core.Bool.{false}
use mathlib.Core.List.{[], ◌∷◌, ◌++◌}
use native.Mathlib.Omega.{arith}
use ferrumdns.Base.Lists.{All, append_nil, append_assoc, filter}
use ferrumdns.Base.Strings.{Text, split_from, split_on}
use ferrumdns.Base.Tests.{◌==◌}

abbrev pub Lacks : ℕ → Text → Type 0
Lacks c s = All (λ x. (x == c) ≡ false) s

split_from-Lacks : (c : ℕ) (cur s : Text) → Lacks c s → split_from c cur s ≡ (cur ++ s) ∷ []
unfolding split_from
split_from-Lacks c cur [] h = ap (λ l. l ∷ []) (sym (append_nil cur))
split_from-Lacks c cur (x ∷ s) (h, hs) =
    rw h (split_from-Lacks c (cur ++ x ∷ []) s hs ∙ ap (λ l. l ∷ []) (append_assoc cur (x ∷ []) s))

pub split_on-Lacks : (c : ℕ) (s : Text) → Lacks c s → split_on c s ≡ s ∷ []
unfolding split_on
split_on-Lacks c s h = split_from-Lacks c [] s h

split_from-found :
    (c : ℕ) (cur s rest : Text)
    → Lacks c s
    → split_from c cur (s ++ (c ∷ rest)) ≡ (cur ++ s) ∷ split_from c [] rest
unfolding split_from
split_from-found c cur [] rest h = ground (arith, append_nil cur)
split_from-found c cur (x ∷ s) rest (h, hs) = rw h (
    split_from-found c (cur ++ x ∷ []) s rest hs
    ∙ ap (λ l. l ∷ split_from c [] rest) (append_assoc cur (x ∷ []) s))

pub split_on-found :
    (c : ℕ) (s rest : Text) → Lacks c s → split_on c (s ++ (c ∷ rest)) ≡ s ∷ split_on c rest
unfolding split_on
split_on-found c s rest h = split_from-found c [] s rest h

pub filter-Lacks : (c : ℕ) (s : Text) → Lacks c s → filter (λ x. x == c) s ≡ []
filter-Lacks c [] h = refl
filter-Lacks c (x ∷ s) (h, hs) = rw h (filter-Lacks c s hs)
