-- ===== src/Prelude/Decimal/Parse.antt =====
-- `int(text)` of a text of digits, and that it reads what `str` writes.
use Prim.Native.Nat.{ℕ, zero, suc, ◌+◌, ◌-◌, ◌*◌, ◌/◌, ◌%◌, ◌<◌}
use Prim.Native.Char.{code}
use Prim.Native.String.{String, [], ◌∷◌, ◌++◌}
use mathlib.Core.Path.{◌≡◌, refl, ap, ◌∙◌}
use mathlib.Core.Logic.{inl, inr}
use mathlib.Core.Bool.{Bool, true, false}
use mathlib.Core.Option.{Option, none, some}
use native.Mathlib.Omega.{arith}
use text.Mathlib.TextLemmas.{nil-append, cons-append}
use infra.Prelude.Tests.{ltb, ltb→lt, if◌then◌else◌, Bool-cases}
use infra.Prelude.Errors.{◌>>=◌}
use infra.Prelude.Text.{is_digit}
use infra.Prelude.Decimal.{digit, digits_of, decimal}

unfoldable pub read_digits : ℕ → String → Option ℕ
read_digits n [] = some n
read_digits n (c ∷ s) =
    let rest = read_digits (n * 10 + (code c - b'0')) s in if is_digit c then rest else none

unfoldable pub int_of : String → Option ℕ
unfolding read_digits
int_of [] = none
int_of (c ∷ s) = read_digits 0 (c ∷ s)

read-append :
    (s t : String) (n : ℕ) → read_digits n (s ++ t) ≡ (read_digits n s >>= λ m. read_digits m t)
unfolding read_digits
read-append [] t n = ap (read_digits n) (nil-append t)
read-append (c ∷ s) t n = elim (Bool-cases (is_digit c)) [
  | inl is ↦
      ap (read_digits n) (cons-append c s t) ∙ rw is (read-append s t (n * 10 + (code c - b'0')))
  | inr other ↦ ap (read_digits n) (cons-append c s t) ∙ rw other refl
]

read-digit : (d n : ℕ) → d < 10 → read_digits n (digit d) ≡ some (n * 10 + d)
unfolding read_digits digit
read-digit zero n h = refl
read-digit (suc zero) n h = refl
read-digit (suc (suc zero)) n h = refl
read-digit (suc (suc (suc zero))) n h = refl
read-digit (suc (suc (suc (suc zero)))) n h = refl
read-digit (suc (suc (suc (suc (suc zero))))) n h = refl
read-digit (suc (suc (suc (suc (suc (suc zero)))))) n h = refl
read-digit (suc (suc (suc (suc (suc (suc (suc zero))))))) n h = refl
read-digit (suc (suc (suc (suc (suc (suc (suc (suc zero)))))))) n h = refl
read-digit (suc (suc (suc (suc (suc (suc (suc (suc (suc zero))))))))) n h = refl
read-digit (suc (suc (suc (suc (suc (suc (suc (suc (suc (suc d)))))))))) n h =
    absurd (omega (arith, h))

read-digits_of : (fuel n : ℕ) → n < fuel → read_digits 0 (digits_of fuel n) ≡ some n
unfolding digits_of
read-digits_of zero n h = absurd (omega (arith, h))
read-digits_of (suc fuel) n h = elim (Bool-cases (ltb n 10)) [
  | inl small ↦ rw small (read-digit n 0 (ltb→lt n 10 small) ∙ ap some (omega arith))
  | inr large ↦ rw large (
      read-append (digits_of fuel (n / 10)) (digit (n % 10)) 0
      ∙ ap (λ o. o >>= λ m. read_digits m (digit (n % 10)))
          (read-digits_of fuel (n / 10) (ground arith))
      ∙ read-digit (n % 10) (n / 10) (omega arith)
      ∙ ap some (omega arith))
]

abbrev not_empty : String → Bool
not_empty [] = false
not_empty (c ∷ s) = true

not_empty-append : (s t : String) → not_empty t ≡ true → not_empty (s ++ t) ≡ true
not_empty-append [] t h = ap not_empty (nil-append t) ∙ h
not_empty-append (c ∷ s) t h = ap not_empty (cons-append c s t)

not_empty-digit : (d : ℕ) → d < 10 → not_empty (digit d) ≡ true
unfolding digit
not_empty-digit zero h = refl
not_empty-digit (suc zero) h = refl
not_empty-digit (suc (suc zero)) h = refl
not_empty-digit (suc (suc (suc zero))) h = refl
not_empty-digit (suc (suc (suc (suc zero)))) h = refl
not_empty-digit (suc (suc (suc (suc (suc zero))))) h = refl
not_empty-digit (suc (suc (suc (suc (suc (suc zero)))))) h = refl
not_empty-digit (suc (suc (suc (suc (suc (suc (suc zero))))))) h = refl
not_empty-digit (suc (suc (suc (suc (suc (suc (suc (suc zero)))))))) h = refl
not_empty-digit (suc (suc (suc (suc (suc (suc (suc (suc (suc zero))))))))) h = refl
not_empty-digit (suc (suc (suc (suc (suc (suc (suc (suc (suc (suc d)))))))))) h =
    absurd (omega (arith, h))

not_empty-digits_of : (fuel n : ℕ) → not_empty (digits_of (suc fuel) n) ≡ true
unfolding digits_of
not_empty-digits_of fuel n = elim (Bool-cases (ltb n 10)) [
  | inl small ↦ rw small (not_empty-digit n (ltb→lt n 10 small))
  | inr large ↦ rw large (
      not_empty-append (digits_of fuel (n / 10)) (digit (n % 10))
        (not_empty-digit (n % 10) (omega arith)))
]

int_of-read_digits : (s : String) → not_empty s ≡ true → int_of s ≡ read_digits 0 s
unfolding int_of
int_of-read_digits [] h = ground arith
int_of-read_digits (c ∷ s) h = refl

-- `int` reads back what `str` writes.
pub int_of-decimal : (n : ℕ) → int_of (decimal n) ≡ some n
unfolding decimal
int_of-decimal n =
    let one_more : n + 1 ≡ suc n = omega arith in
    int_of-read_digits (digits_of (n + 1) n)
      (ap (λ fuel. not_empty (digits_of fuel n)) one_more ∙ not_empty-digits_of n n)
    ∙ read-digits_of (n + 1) n (omega arith)
