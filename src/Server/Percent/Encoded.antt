-- ===== src/Server/Percent/Encoded.antt =====
-- server.rs: percent decoding against percent encoding.
use ferrumdns.Base.{
  ℕ, ◌+◌, ◌-◌, ◌/◌, ◌%◌, ◌<◌, ◌≡◌, refl, arith, Bool, false, some, List, [], ◌∷◌, ltb, ◌==◌,
  Bool-cases, inl, inr, if◌then◌else◌, All,
}
use ferrumdns.Server.Percent.{hex_value, hex_pair, percent_decode}

-- A digit below 16, in upper case.
abbrev pub hex_digit : ℕ → ℕ
hex_digit d = if ltb d 10 then b'0' + d else b'A' + (d - 10)

-- The encoding of bytes that writes some of them as they are.
unfoldable pub percent_encode : (ℕ → Bool) → List ℕ → List ℕ
percent_encode keep [] = []
percent_encode keep (b ∷ bs) =
    let rest = percent_encode keep bs in
    if keep b then b ∷ rest else b'%' ∷ hex_digit (b / 16) ∷ hex_digit (b % 16) ∷ rest

hex_value-hex_digit : (d : ℕ) → d < 16 → hex_value (hex_digit d) ≡ some d
unfolding hex_value
hex_value-hex_digit d h = ground arith

hex_pair-hex_digit : (b : ℕ) → b < 256 → hex_pair (hex_digit (b / 16)) (hex_digit (b % 16)) ≡ some b
unfolding hex_pair
hex_pair-hex_digit b h =
    ground (
      arith,
      hex_value-hex_digit (b / 16) (omega arith),
      hex_value-hex_digit (b % 16) (omega arith),
    )

percent_decode-plain :
    (c : ℕ) (s : List ℕ) → (c == b'%') ≡ false → percent_decode (c ∷ s) ≡ c ∷ percent_decode s
unfolding percent_decode
percent_decode-plain c [] h = refl
percent_decode-plain c (a ∷ []) h = refl
percent_decode-plain c (a ∷ b ∷ s) h = ground arith

percent_decode-escape :
    (a b v : ℕ) (s : List ℕ)
    → hex_pair a b ≡ some v
    → percent_decode (b'%' ∷ a ∷ b ∷ s) ≡ v ∷ percent_decode s
unfolding percent_decode
percent_decode-escape a b v s h = ground arith

-- Percent decoding undoes the percent encoding of any bytes, whichever bytes but the percent sign the
-- encoding keeps as they are.
pub percent_decode-percent_encode :
    (keep : ℕ → Bool) (bs : List ℕ)
    → keep b'%' ≡ false
    → All (λ b. b < 256) bs
    → percent_decode (percent_encode keep bs) ≡ bs
unfolding percent_encode
percent_decode-percent_encode keep [] escaped h = unfold percent_decode in refl
percent_decode-percent_encode keep (b ∷ bs) escaped (lt, h) =
    let rest = percent_decode-percent_encode keep bs escaped h in
    elim (Bool-cases (keep b)) [
      | inl kept ↦ ground (arith, rest, percent_decode-plain b (percent_encode keep bs))
      | inr other ↦ ground (
        arith,
        rest,
        percent_decode-escape (hex_digit (b / 16)) (hex_digit (b % 16)) b (percent_encode keep bs)
            (hex_pair-hex_digit b lt),
      )
    ]
