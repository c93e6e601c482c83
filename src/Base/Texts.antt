-- ===== src/Base/Texts.antt =====
-- Texts as lists of UTF-16 code units, and their comparison.
use Prim.Native.Nat.{ℕ, zero, suc, ◌+◌, ◌/◌, ◌%◌}
use mathlib.Core.Path.{◌≡◌, refl}
use mathlib.Core.Bool.{Bool, true, false, not, ◌&&◌}
use mathlib.Core.List.{List, [], ◌∷◌, ◌++◌}
use native.Mathlib.Omega.{arith}
use tetr_d.Base.Tests.{◌==◌, ltb, if◌then◌else◌}
use tetr_d.Base.Lists.{any}

abbrev pub Text : Type 0
Text = List ℕ

-- `a === b`
unfoldable pub same_text : Text → Text → Bool
same_text [] [] = true
same_text [] (y ∷ ys) = false
same_text (x ∷ xs) [] = false
same_text (x ∷ xs) (y ∷ ys) = x == y && same_text xs ys

pub same_text_refl : (a : Text) → same_text a a ≡ true
unfolding same_text
same_text_refl [] = refl
same_text_refl (x ∷ xs) = ground (arith, same_text_refl xs)

pub same_text_sound : (a b : Text) → same_text a b ≡ true → a ≡ b
unfolding same_text
same_text_sound [] [] h = refl
same_text_sound [] (y ∷ ys) h = cc
same_text_sound (x ∷ xs) [] h = cc
same_text_sound (x ∷ xs) (y ∷ ys) h = ground (arith, same_text_sound xs ys)

-- `texts.includes(a)`
abbrev pub includes_text : List Text → Text → Bool
includes_text texts a = any (same_text a) texts

-- Whether a set of the texts has as many entries as the list.
unfoldable pub distinct_texts : List Text → Bool
distinct_texts [] = true
distinct_texts (t ∷ ts) = not (includes_text ts t) && distinct_texts ts

-- The decimal digits of a number in a text, which `fuel` digits are enough for.
digits_with : (fuel : ℕ) → ℕ → Text
digits_with zero n = []
digits_with (suc fuel) n =
    let upper = digits_with fuel (n / 10) in
    if ltb n 10 then (48 + n) ∷ [] else upper ++ (48 + n % 10) ∷ []

unfoldable pub decimal : ℕ → Text
unfolding digits_with
decimal n = digits_with (suc n) n
