-- ===== src/Prelude/Text/Lower.antt =====
-- Case mapping twice is case mapping once.
use Prim.Native.Nat.{ℕ}
use Prim.Native.Char.{Char, code}
use Prim.Native.String.{String, [], ◌∷◌}
use mathlib.Core.Path.{◌≡◌, refl, ap}
use mathlib.Core.Logic.{◌⊎◌, inl, inr}
use mathlib.Core.Bool.{Bool, true, false, not, ◌&&◌, ◌||◌}
use native.Mathlib.Omega.{arith}
use infra.Prelude.Tests.{◌==◌, Bool-cases}
use infra.Prelude.Text.{translate, lower_char, lower, upper_letters, lower_letters}

-- A character that the text has.
has_code : String → ℕ → Bool
has_code [] n = false
has_code (x ∷ xs) n = code x == n || has_code xs n

-- No character of the second text is one of the first.
disjoint : String → String → Bool
unfolding has_code
disjoint xs [] = true
disjoint xs (y ∷ ys) = not (has_code xs (code y)) && disjoint xs ys

translate_absent :
    (xs ys : String) (c : Char) → has_code xs (code c) ≡ false → translate xs ys c ≡ c
unfolding has_code translate
translate_absent [] ys c h = refl
translate_absent (x ∷ xs) [] c h = refl
translate_absent (x ∷ xs) (y ∷ ys) c h = ground (arith, translate_absent xs ys c)

disjoint_absent :
    (xs ys : String) (n : ℕ) → disjoint xs ys ≡ true → has_code ys n ≡ true → has_code xs n ≡ false
unfolding has_code disjoint
disjoint_absent xs [] n d h = ground arith
disjoint_absent xs (y ∷ ys) n d h = ground (arith, disjoint_absent xs ys n)

translate-cases :
    (xs ys : String) (c : Char)
    → (translate xs ys c ≡ c) ⊎ (has_code ys (code (translate xs ys c)) ≡ true)
unfolding has_code translate
translate-cases [] ys c = inl refl
translate-cases (x ∷ xs) [] c = inl refl
translate-cases (x ∷ xs) (y ∷ ys) c = elim (Bool-cases (code x == code c)) [
  | inl same ↦ inr (ground arith)
  | inr differ ↦ elim (translate-cases xs ys c) [
    | inl kept ↦ inl (rw differ kept)
    | inr found ↦ inr (ground arith)
  ]
]

translate-translate :
    (xs ys : String) (c : Char)
    → disjoint xs ys ≡ true
    → translate xs ys (translate xs ys c) ≡ translate xs ys c
translate-translate xs ys c d = elim (translate-cases xs ys c) [
  | inl kept ↦ ap (translate xs ys) kept
  | inr found ↦
      translate_absent xs ys (translate xs ys c)
        (disjoint_absent xs ys (code (translate xs ys c)) d found)
]

lower_char-lower_char : (c : Char) → lower_char (lower_char c) ≡ lower_char c
unfolding lower_char disjoint has_code
lower_char-lower_char c = translate-translate upper_letters lower_letters c refl

lower-nil : lower [] ≡ []
unfolding lower
lower-nil = refl

lower-cons : (c : Char) (s : String) → lower (c ∷ s) ≡ lower_char c ∷ lower s
unfolding lower
lower-cons c s = refl

pub lower-lower : (s : String) → lower (lower s) ≡ lower s
lower-lower [] = ap lower lower-nil
lower-lower (c ∷ s) =
    rw (lower-cons c s, lower-cons (lower_char c) (lower s), lower_char-lower_char c, lower-lower s)
      refl
