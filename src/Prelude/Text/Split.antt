-- ===== src/Prelude/Text/Split.antt =====
-- `s.split(c)` and `s.splitlines()`, which give lists of texts.
use Prim.Native.Nat.{ℕ}
use Prim.Native.Char.{code}
use Prim.Native.String.{String, ◌++◌ as ◌<>◌}
use mathlib.Core.Path.{◌≡◌, refl}
use mathlib.Core.Bool.{Bool, false, not, ◌&&◌, ◌||◌}
use mathlib.Core.List.{List, [], ◌∷◌}
use text.Mathlib.Text.{◌==◌ as str_eq}
use infra.Prelude.Tests.{leb, ◌==◌, if◌then◌else◌}
use infra.Prelude.Lists.{keep_if}
use infra.Prelude.Text.{is_space}

-- A character in front of the first piece.
extend : String → List String → List String
extend c [] = c ∷ []
extend c (piece ∷ rest) = (c <> piece) ∷ rest

unfoldable pub split : ℕ → String → List String
unfolding extend
split n String.[] = String.[] ∷ []
split n (String.◌∷◌ c s) =
    let rest = split n s in
    if code c == n then String.[] ∷ rest else extend (String.◌∷◌ c String.[]) rest

-- The characters that end a line for `splitlines`, but for CR LF, which ends one line.
abbrev is_break : ℕ → Bool
is_break n = (leb 10 n && leb n 13) || (leb 28 n && leb n 30) || n == 133 || n == 8232 || n == 8233

-- The flag says that the character before was a CR, so that a LF here ends no second line.
lines_after : Bool → String → List String
unfolding extend
lines_after cr String.[] = []
lines_after cr (String.◌∷◌ c s) =
    let rest = lines_after (code c == 13) s in
    if cr && code c == 10
    then rest
    else if is_break (code c)
    then String.[] ∷ rest
    else extend (String.◌∷◌ c String.[]) rest

-- `s.splitlines()`: a break at the end of the text opens no line.
unfoldable pub splitlines : String → List String
unfolding lines_after
splitlines = lines_after false

splitlines_runs : splitlines "a\n\nb\r\nc\n" ≡ "a" ∷ "" ∷ "b" ∷ "c" ∷ []
unfolding splitlines
splitlines_runs = refl

-- The words of the text, with the letters of the word at hand in front of the first one.
words_after : String → List String
unfolding extend is_space
words_after String.[] = String.[] ∷ []
words_after (String.◌∷◌ c s) =
    let rest = words_after s in
    if is_space c then String.[] ∷ rest else extend (String.◌∷◌ c String.[]) rest

-- `s.split()`
unfoldable pub words : String → List String
unfolding words_after
words s = keep_if (λ w. not (str_eq w "")) (words_after s)

words_runs : words " COPY  libs /app/libs\t" ≡ "COPY" ∷ "libs" ∷ "/app/libs" ∷ []
unfolding words
words_runs = refl
