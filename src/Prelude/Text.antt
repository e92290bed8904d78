-- ===== src/Prelude/Text.antt =====
-- Python's `str` methods that the program uses, by recursion on the characters. Case mapping and
-- white space are those of ASCII.
pub mod Split
pub mod Order
pub mod Lower
use Prim.Native.Nat.{ℕ, zero, suc}
use Prim.Native.Char.{Char, code}
use Prim.Native.String.{String, [], ◌∷◌, ◌++◌}
use mathlib.Core.Bool.{Bool, true, false, not, ◌&&◌, ◌||◌}
use mathlib.Core.Option.{Option, none, some}
use text.Mathlib.Text.{◌==◌ as str_eq, find?}
use infra.Prelude.Tests.{leb, ◌==◌, if◌then◌else◌}

abbrev pub upper_letters : String
upper_letters = "ABCDEFGHIJKLMNOPQRSTUVWXYZ"

abbrev pub lower_letters : String
lower_letters = "abcdefghijklmnopqrstuvwxyz"

-- The character that stands in the second text where `c` stands in the first.
unfoldable pub translate : String → String → Char → Char
translate (x ∷ xs) (y ∷ ys) c = if code x == code c then y else translate xs ys c
translate _ _ c = c

unfoldable pub lower_char : Char → Char
unfolding translate
lower_char c = translate upper_letters lower_letters c

-- `s.lower()`
unfoldable pub lower : String → String
unfolding lower_char
lower [] = []
lower (c ∷ s) = lower_char c ∷ lower s

unfoldable pub is_space : Char → Bool
is_space c = let n = code c in n == 32 || (leb 9 n && leb n 13) || (leb 28 n && leb n 31)

-- `s.lstrip()`
unfoldable pub lstrip : String → String
unfolding is_space
lstrip [] = []
lstrip (c ∷ s) = let rest = lstrip s in if is_space c then rest else c ∷ s

-- `s.rstrip()`
unfoldable pub rstrip : String → String
unfolding is_space
rstrip [] = []
rstrip (c ∷ s) = let rest = rstrip s in if str_eq rest "" && is_space c then "" else c ∷ rest

-- `s.strip()`
unfoldable pub strip : String → String
unfolding lstrip rstrip
strip s = rstrip (lstrip s)

-- `s.lstrip(c)` for one character, given by its code
unfoldable pub lstrip_of : ℕ → String → String
lstrip_of n [] = []
lstrip_of n (c ∷ s) = let rest = lstrip_of n s in if code c == n then rest else c ∷ s

-- `s.replace(a, b)` for single characters
unfoldable pub replace_char : ℕ → Char → String → String
replace_char n b [] = []
replace_char n b (c ∷ s) = (if code c == n then b else c) ∷ replace_char n b s

-- `s.split(c, 1)`: what stands before the first `c`, and after it if there is one
unfoldable pub split_once : ℕ → String → String × Option String
split_once n [] = ([], none)
split_once n (c ∷ s) =
    let (before, after) = split_once n s in
    if code c == n then ([], some s) else (c ∷ before, after)

-- `t in s`
unfoldable pub contains_text : String → String → Bool
contains_text t s = elim (find? s t) [ none ↦ false | some _ ↦ true ]

-- `s[:n]`
unfoldable pub take_chars : ℕ → String → String
take_chars zero s = []
take_chars (suc n) [] = []
take_chars (suc n) (c ∷ s) = c ∷ take_chars n s

-- Every character passes the test: a character class of a regular expression, starred.
unfoldable pub all_chars : (Char → Bool) → String → Bool
all_chars p [] = true
all_chars p (c ∷ s) = p c && all_chars p s

-- A character class, then the same or another class starred.
unfoldable pub first_then : (Char → Bool) → (Char → Bool) → String → Bool
unfolding all_chars
first_then p q [] = false
first_then p q (c ∷ s) = p c && all_chars q s

abbrev pub is_digit : Char → Bool
is_digit c = leb b'0' (code c) && leb (code c) b'9'

abbrev pub is_lower_letter : Char → Bool
is_lower_letter c = leb b'a' (code c) && leb (code c) b'z'

abbrev pub is_lower_alnum : Char → Bool
is_lower_alnum c = is_lower_letter c || is_digit c

abbrev pub is_hex : Char → Bool
is_hex c = is_digit c || (leb b'a' (code c) && leb (code c) b'f')

-- `s or t`
abbrev pub or_text : String → String → String
or_text s t = if str_eq s "" then t else s

-- `s.strip(c)` for one character, given by its code
rstrip_of : ℕ → String → String
rstrip_of n [] = []
rstrip_of n (c ∷ s) =
    let rest = rstrip_of n s in if str_eq rest "" && code c == n then "" else c ∷ rest

unfoldable pub strip_of : ℕ → String → String
unfolding lstrip_of rstrip_of
strip_of n s = rstrip_of n (lstrip_of n s)

-- Numbers between separators: `n` of them are still to come, and the flag says that the number at
-- hand has a digit.
unfoldable pub numbers : (sep n : ℕ) → Bool → String → Bool
numbers sep zero seen [] = seen
numbers sep (suc n) seen [] = false
numbers sep zero seen (c ∷ s) = let rest = numbers sep zero true s in is_digit c && rest
numbers sep (suc n) seen (c ∷ s) =
    let more = numbers sep (suc n) true s in
    let next = numbers sep n false s in if is_digit c then more else code c == sep && seen && next

-- A `v` and three numbers.
abbrev pub is_version : ℕ → String → Bool
is_version sep [] = false
is_version sep (c ∷ s) = code c == b'v' && numbers sep 2 false s

-- What follows the prefix, if the text has it.
unfoldable pub after_prefix : String → String → Option String
after_prefix [] s = some s
after_prefix (p ∷ ps) [] = none
after_prefix (p ∷ ps) (c ∷ s) =
    let rest = after_prefix ps s in if code p == code c then rest else none

-- `s.upper()`
unfoldable pub upper : String → String
unfolding translate
upper [] = []
upper (c ∷ s) = translate lower_letters upper_letters c ∷ upper s

-- `s.lstrip(chars)` for the characters that pass the test
unfoldable pub lstrip_if : (Char → Bool) → String → String
lstrip_if p [] = []
lstrip_if p (c ∷ s) = let rest = lstrip_if p s in if p c then rest else c ∷ s
