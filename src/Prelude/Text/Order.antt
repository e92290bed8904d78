-- ===== src/Prelude/Text/Order.antt =====
-- `sorted` for texts, which are ordered by the codes of their characters.
use Prim.Native.Nat.{Ordering}
use Prim.Native.String.{String, compare}
use mathlib.Core.Path.{◌≡◌, refl, ◌∙◌, ap}
use mathlib.Core.Bool.{Bool, true, false, ◌||◌}
use mathlib.Core.List.{List, [], ◌∷◌}
use native.Mathlib.Omega.{arith}
use text.Mathlib.Text.{◌==◌ as str_eq}
use infra.Prelude.Tests.{if◌then◌else◌}
use infra.Prelude.Dict.{contains}

abbrev pub later : String → String → Bool
later s t = elim (compare s t) [ Ordering.gt ↦ true | _ ↦ false ]

insert_text : String → List String → List String
insert_text s [] = s ∷ []
insert_text s (t ∷ rest) = if later s t then t ∷ insert_text s rest else s ∷ t ∷ rest

-- `sorted(texts)`
unfoldable pub sorted : List String → List String
unfolding insert_text
sorted [] = []
sorted (s ∷ rest) = insert_text s (sorted rest)

contains-insert_text :
    (k s : String) (l : List String) → contains k (insert_text s l) ≡ (str_eq s k || contains k l)
unfolding insert_text
contains-insert_text k s [] = refl
contains-insert_text k s (t ∷ l) = ground (arith, contains-insert_text k s l)

pub contains-sorted : (k : String) (l : List String) → contains k (sorted l) ≡ contains k l
unfolding sorted
contains-sorted k [] = refl
contains-sorted k (s ∷ l) =
    contains-insert_text k s (sorted l) ∙ ap (λ b. str_eq s k || b) (contains-sorted k l)
