-- ===== src/DeployEnv/Slugs.antt =====
-- What the slug of an alias looks like: the letters are lower case, and dots and slashes are dashes.
use Prim.Native.Char.{Char, code}
use Prim.Native.String.{String, [], ◌∷◌, count}
use text.Mathlib.TextLemmas.{length-cons, length-nil}
use infra.Prelude.{
  ℕ, zero, suc, ◌+◌, ◌≤◌, Bool, true, false, not, Bool-cases, inl, inr, ◌&&◌, ◌||◌, ◌≡◌, ◌∙◌, ap,
  refl, ◌==◌, leb, if◌then◌else◌, arith,
}
use infra.Prelude.Text.{
  upper_letters, lower_letters, translate, lower_char, lower, replace_char, take_chars, all_chars,
  first_then, is_digit, is_lower_letter, is_lower_alnum, is_hex, numbers, is_version,
}
use infra.DeployEnv.{is_branch_char}

-- No letter of `xs` is below 65, and none is above 90.
translate_other :
    (xs ys : String) (c : Char)
    → all_chars (λ x. leb 65 (code x) && leb (code x) 90) xs ≡ true
    → (leb 65 (code c) && leb (code c) 90) ≡ false
    → translate xs ys c ≡ c
unfolding translate all_chars
translate_other [] ys c h o = refl
translate_other (x ∷ xs) [] c h o = refl
translate_other (x ∷ xs) (y ∷ ys) c h o = ground (arith, translate_other xs ys c)

-- The codes of the text are those from `n` to 90.
is_run : ℕ → String → Bool
is_run n [] = n == 91
is_run n (x ∷ xs) = let rest = is_run (n + 1) xs in code x == n && rest

same_count : String → String → Bool
same_count [] [] = true
same_count (x ∷ xs) (y ∷ ys) = same_count xs ys
same_count _ _ = false

translate_upper :
    (n : ℕ) (xs ys : String) (c : Char)
    → is_run n xs ≡ true
    → same_count xs ys ≡ true
    → all_chars is_lower_letter ys ≡ true
    → n ≤ code c
    → code c ≤ 90
    → is_lower_letter (translate xs ys c) ≡ true
unfolding translate all_chars is_run same_count
translate_upper n [] ys c run s l low high = ground arith
translate_upper n (x ∷ xs) [] c run s l low high = ground arith
translate_upper n (x ∷ xs) (y ∷ ys) c run s l low high =
    ground (arith, translate_upper (n + 1) xs ys c)

pub lower_char_other : (c : Char) → (leb 65 (code c) && leb (code c) 90) ≡ false → lower_char c ≡ c
unfolding lower_char all_chars
lower_char_other c h = translate_other upper_letters lower_letters c refl h

pub lower_char_upper :
    (c : Char) → (leb 65 (code c) && leb (code c) 90) ≡ true → is_lower_letter (lower_char c) ≡ true
unfolding lower_char all_chars is_run same_count
lower_char_upper c h =
    translate_upper 65 upper_letters lower_letters c refl refl refl (ground arith) (ground arith)

-- Dots and slashes become dashes.
abbrev dashed : ℕ → Char → Char
dashed n c = if code c == n then "-" else c

-- A character of a slug, as `slug_of` makes it from one of a value.
abbrev pub slug_char : Char → Char
slug_char c = dashed b'/' (dashed b'.' (lower_char c))

abbrev pub is_slug_char : Char → Bool
is_slug_char c = is_lower_alnum c || code c == b'-'

code-if : (b : Bool) (x y : Char) → code (if b then x else y) ≡ (if b then code x else code y)
code-if true x y = refl
code-if false x y = refl

code-dashed :
    (c : Char)
    → code (dashed b'/' (dashed b'.' c))
      ≡ (if code c == b'.' || code c == b'/' then b'-' else code c)
code-dashed c = ground (
  arith,
  code-if (code (dashed b'.' c) == b'/') "-" (dashed b'.' c),
  code-if (code c == b'.') "-" c,
)

is_slug_code : ℕ → Bool
is_slug_code n = (leb b'a' n && leb n b'z') || (leb b'0' n && leb n b'9') || n == b'-'

-- Of the characters of a branch name, all but the underscore become characters of a slug.
slug_char-is_slug_char :
    (c : Char) → is_branch_char c ≡ true → is_slug_char (slug_char c) ≡ not (code c == b'_')
unfolding is_slug_code
slug_char-is_slug_char c h = elim (Bool-cases (leb 65 (code c) && leb (code c) 90)) [
  | inl up ↦ ap is_slug_code (code-dashed (lower_char c)) ∙ ground (arith, lower_char_upper c up)
  | inr low ↦
      ap is_slug_code (code-dashed (lower_char c))
      ∙ ground (arith, ap code (lower_char_other c low))
]

abbrev pub slug_text : String → String
slug_text s = replace_char b'/' "-" (replace_char b'.' "-" (lower s))

abbrev pub has_no_underscore : String → Bool
has_no_underscore = all_chars (λ c. not (code c == b'_'))

slug_text-nil : slug_text [] ≡ []
unfolding replace_char lower
slug_text-nil = refl

slug_text-cons : (c : Char) (s : String) → slug_text (c ∷ s) ≡ slug_char c ∷ slug_text s
unfolding replace_char lower
slug_text-cons c s = refl

all_chars-slug_text :
    (s : String)
    → all_chars is_branch_char s ≡ true
    → all_chars is_slug_char (slug_text s) ≡ has_no_underscore s
unfolding all_chars
all_chars-slug_text [] h = rw slug_text-nil refl
all_chars-slug_text (c ∷ s) h =
    rw (slug_text-cons c s) (ground (arith, slug_char-is_slug_char c, all_chars-slug_text s))

pub first_then-slug_text :
    (s : String)
    → first_then is_branch_char is_branch_char s ≡ true
    → first_then is_slug_char is_slug_char (slug_text s) ≡ has_no_underscore s
unfolding all_chars first_then
first_then-slug_text [] h = ground arith
first_then-slug_text (c ∷ s) h =
    rw (slug_text-cons c s) (ground (arith, slug_char-is_slug_char c, all_chars-slug_text s))

is_digit_code : ℕ → Bool
is_digit_code n = leb b'0' n && leb n b'9'

-- A digit stays.
slug_char-digit : (c : Char) → is_digit c ≡ true → is_digit (slug_char c) ≡ true
unfolding is_digit_code
slug_char-digit c h =
    ap is_digit_code (code-dashed (lower_char c))
    ∙ ground (arith, ap code (lower_char_other c (ground arith)))

slug_char-dot :
    (c : Char) → code c ≡ b'.' → (is_digit (slug_char c) ≡ false) × (code (slug_char c) ≡ b'-')
unfolding is_digit_code
slug_char-dot c h = (
  ap is_digit_code (code-dashed (lower_char c))
      ∙ ground (arith, ap code (lower_char_other c (ground arith))),
  code-dashed (lower_char c) ∙ ground (arith, ap code (lower_char_other c (ground arith))),
)

pub numbers-slug_text :
    (n : ℕ) (seen : Bool) (s : String)
    → numbers b'.' n seen s ≡ true
    → numbers b'-' n seen (slug_text s) ≡ true
unfolding numbers
numbers-slug_text zero seen [] h = rw slug_text-nil h
numbers-slug_text (suc n) seen [] h = rw slug_text-nil h
numbers-slug_text zero seen (c ∷ s) h =
    rw (slug_text-cons c s) (ground (arith, slug_char-digit c, numbers-slug_text zero true s))
numbers-slug_text (suc n) seen (c ∷ s) h = rw (slug_text-cons c s) (elim (Bool-cases (is_digit c)) [
  | inl d ↦ rw (slug_char-digit c d) (numbers-slug_text (suc n) true s (ground arith))
  | inr nd ↦
      rw ((slug_char-dot c (ground arith)).0, (slug_char-dot c (ground arith)).1)
        (ground (arith, numbers-slug_text n false s))
])

pub take_chars-hex :
    (n : ℕ) (s : String)
    → n ≤ count s
    → all_chars is_hex s ≡ true
    → (count (take_chars n s) ≡ n) × (all_chars is_hex (take_chars n s) ≡ true)
unfolding take_chars all_chars
take_chars-hex zero s le h = (refl, refl)
take_chars-hex (suc n) [] le h = ground (arith, length-nil)
take_chars-hex (suc n) (c ∷ s) le h =
    ground (arith, take_chars-hex n s, length-cons c s, length-cons c (take_chars n s))

slug_char-v : (c : Char) → code c ≡ b'v' → code (slug_char c) ≡ b'v'
slug_char-v c h =
    code-dashed (lower_char c) ∙ ground (arith, ap code (lower_char_other c (ground arith)))

pub is_version-slug_text :
    (s : String) → is_version b'.' s ≡ true → is_version b'-' (slug_text s) ≡ true
is_version-slug_text [] h = rw slug_text-nil h
is_version-slug_text (c ∷ s) h =
    rw (slug_text-cons c s) (ground (arith, slug_char-v c, numbers-slug_text 2 false s))
