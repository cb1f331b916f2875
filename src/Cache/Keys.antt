-- ===== src/Cache/Keys.antt =====
-- Lists of distinct keys.
use ferrumdns.Base.{
  ◌≡◌, refl, Bool, true, false, not, ◌&&◌, ◌||◌, List, [], ◌∷◌, ◌++◌, Text, teq, teq_iff, length,
  arith, if◌then◌else◌, suc,
}

abbrev pub mem : Text → List Text → Bool
mem k [] = false
mem k (j ∷ l) = teq j k || mem k l

-- Without the first occurrence.
unfoldable pub erase : Text → List Text → List Text
erase k [] = []
erase k (j ∷ l) = let rest = erase k l in if teq j k then l else j ∷ rest

abbrev pub Distinct : List Text → Type 0
Distinct [] = Unit {0}
Distinct (k ∷ l) = (mem k l ≡ false) × Distinct l

pub mem-append : (k : Text) (l m : List Text) → mem k (l ++ m) ≡ mem k l || mem k m
mem-append k [] m = refl
mem-append k (j ∷ l) m = ground (arith, mem-append k l m)

pub mem-erase :
    (k j : Text) (l : List Text) → Distinct l → mem k (erase j l) ≡ not (teq j k) && mem k l
unfolding erase
mem-erase k j [] h = ground arith
mem-erase k j (i ∷ l) (new, h) =
    ground (arith, mem-erase k j l h, teq_iff i j, teq_iff i k, teq_iff j k)

pub length-erase : (k : Text) (l : List Text) → mem k l ≡ true → suc (length (erase k l)) ≡ length l
unfolding erase
length-erase k [] h = ground arith
length-erase k (j ∷ l) h = ground (arith, length-erase k l)

pub erase-Distinct : (k : Text) (l : List Text) → Distinct l → Distinct (erase k l)
unfolding erase
erase-Distinct k [] h = tt
erase-Distinct k (j ∷ l) (new, h) = ground (arith, erase-Distinct k l h, mem-erase j k l h)

pub append-Distinct :
    (k : Text) (l : List Text) → Distinct l → mem k l ≡ false → Distinct (l ++ k ∷ [])
append-Distinct k [] h n = (refl, tt)
append-Distinct k (j ∷ l) (new, h) n =
    ground (arith, append-Distinct k l h, mem-append j l (k ∷ []), teq_iff j k, teq_iff k j)

pub erase_absent : (k : Text) (l : List Text) → mem k l ≡ false → erase k l ≡ l
unfolding erase
erase_absent k [] h = refl
erase_absent k (j ∷ l) h = ground (arith, erase_absent k l)
