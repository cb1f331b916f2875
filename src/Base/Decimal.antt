-- ===== src/Base/Decimal.antt =====
-- Decimal numbers: `{}` prints what `parse` reads back.
use Prim.Native.Nat.{ℕ, zero, suc, ◌+◌, ◌*◌, ◌/◌, ◌%◌, ◌≤◌, ◌<◌}
use mathlib.Core.Path.{◌≡◌, refl, sym, ap, ◌∙◌, subst}
use mathlib.Core.Logic.{inl, inr}
use mathlib.Core.Option.{some}
use mathlib.Core.List.{[], ◌∷◌}
use native.Mathlib.Omega.{arith}
use ferrumdns.Base.Lists.{All}
use ferrumdns.Base.Strings.{Text, decimal, decimal_from, digit_value, parse_digits, parse_unsigned}
use ferrumdns.Base.Tests.{ltb, Bool-cases}

abbrev pub IsDigit : ℕ → Type 0
IsDigit c = (b'0' ≤ c) × (c ≤ b'9')

module _ (top : ℕ) where
  parse_last :
      (q d : ℕ) (acc : Text)
      → d < 10
      → q * 10 + d ≤ top
      → parse_digits top q ((b'0' + d) ∷ acc) ≡ parse_digits top (q * 10 + d) acc
  unfolding parse_digits digit_value
  parse_last q d acc h le = ground arith

  parse_digits-decimal_from :
      (fuel n : ℕ) (acc : Text)
      → n < fuel
      → n ≤ top
      → parse_digits top 0 (decimal_from fuel n acc) ≡ parse_digits top n acc
  unfolding decimal_from
  parse_digits-decimal_from zero n acc h le = absurd (omega arith)
  parse_digits-decimal_from (suc fuel) n acc h le = elim (Bool-cases (ltb n 10)) [
    | inl small ↦ rw small (ground (arith, parse_last 0 (n % 10) acc))
    | inr large ↦ rw large (
        ground (
          arith,
          parse_digits-decimal_from fuel (n / 10) ((b'0' + n % 10) ∷ acc),
          parse_last (n / 10) (n % 10) acc,
        ))
  ]

decimal_from-digits :
    (fuel n : ℕ) (acc : Text) → All IsDigit acc → All IsDigit (decimal_from fuel n acc)
unfolding decimal_from
decimal_from-digits zero n acc h = h
decimal_from-digits (suc fuel) n acc h = elim (Bool-cases (ltb n 10)) [
  | inl small ↦ rw small ((omega arith, omega arith), h)
  | inr large ↦
      rw large
        (decimal_from-digits fuel (n / 10) ((b'0' + n % 10) ∷ acc) ((omega arith, omega arith), h))
]

pub decimal-digits : (n : ℕ) → All IsDigit (decimal n)
unfolding decimal
decimal-digits n = decimal_from-digits (suc n) n [] tt

decimal_from-cons :
    (fuel n d : ℕ) (acc : Text) → (c : ℕ) × (s : Text) × (decimal_from fuel n (d ∷ acc) ≡ c ∷ s)
unfolding decimal_from
decimal_from-cons zero n d acc = (d, acc, refl)
decimal_from-cons (suc fuel) n d acc = elim (Bool-cases (ltb n 10)) [
  | inl small ↦ rw small (b'0' + n % 10, d ∷ acc, refl)
  | inr large ↦ rw large (decimal_from-cons fuel (n / 10) (b'0' + n % 10) (d ∷ acc))
]

decimal-cons : (n : ℕ) → (c : ℕ) × (s : Text) × (decimal n ≡ c ∷ s)
unfolding decimal decimal_from
decimal-cons n = elim (Bool-cases (ltb n 10)) [
  | inl small ↦ rw small (b'0' + n % 10, [], refl)
  | inr large ↦ rw large (decimal_from-cons n (n / 10) (b'0' + n % 10) [])
]

parse_unsigned-digit :
    (top c : ℕ) (s : Text) → IsDigit c → parse_unsigned top (c ∷ s) ≡ parse_digits top 0 (c ∷ s)
unfolding parse_unsigned
parse_unsigned-digit top c s h = ground arith

pub parse_unsigned-decimal : (top n : ℕ) → n ≤ top → parse_unsigned top (decimal n) ≡ some n
unfolding parse_digits
parse_unsigned-decimal top n le =
    let (c, s, e) = decimal-cons n in
    let digits : All IsDigit (c ∷ s) = subst (All IsDigit) e (decimal-digits n) in
    let parsed : parse_digits top 0 (decimal n) ≡ some n = decimal_parsed in
    ap (parse_unsigned top) e
    ∙ parse_unsigned-digit top c s digits.0
    ∙ sym (ap (parse_digits top 0) e)
    ∙ parsed
  where
    decimal_parsed : parse_digits top 0 (decimal n) ≡ some n
    decimal_parsed = unfold decimal in parse_digits-decimal_from top (suc n) n [] (omega arith) le
