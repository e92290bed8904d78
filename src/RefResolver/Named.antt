-- ===== src/RefResolver/Named.antt =====
-- tools/resolve_deploy_ref.py: the commit that git names for a ref, read off the printed rows.
use infra.Prelude.{
  String, not, ◌&&◌, Option, none, some, List, [], ◌∷◌, ◌≡◌, refl, subst, ◌∙◌, ◌≢◌, ◌⊎◌, inl, inr,
  arith, All, str_eq, eq_iff, if◌then◌else◌, Bool-cases,
}
use mathlib.Core.Option.{some-injective}
use infra.Prelude.Text.{strip, split_once}
use infra.Prelude.Text.Split.{splitlines}
use infra.Prelude.Errors.{◌>>=◌}
use infra.RefResolver.{Row, named, add_row, rows_of, ls_remote_rows, found}

-- The first of the rows with this name has this sha.
abbrev pub IsFirst : (name : String) → List Row → String → Type 0
IsFirst name [] sha = ⊥
IsFirst name ((s, n) ∷ rows) sha = ((n ≡ name) × (s ≡ sha)) ⊎ ((n ≢ name) × IsFirst name rows sha)

-- No row has the name.
abbrev pub NoneNamed : (name : String) → List Row → Type 0
NoneNamed name rows = All (λ (row : Row). row.1 ≢ name) rows

-- What `named` answers of the rows.
abbrev pub Found : (name : String) → List Row → Option String → Type 0
Found name rows none = NoneNamed name rows
Found name rows (some sha) = IsFirst name rows sha

later_row :
    (name s n : String) (rows : List Row) (o : Option String)
    → n ≢ name
    → Found name rows o
    → Found name ((s, n) ∷ rows) o
later_row name s n rows none other f = (other, f)
later_row name s n rows (some sha) other f = inr (other, f)

pub named-Found : (name : String) (rows : List Row) → Found name rows (named name rows)
unfolding named
named-Found name [] = tt
named-Found name ((s, n) ∷ rows) = elim (Bool-cases (str_eq n name)) [
  | inl same ↦ rw same (inl ((eq_iff n name).0 same, refl))
  | inr other ↦ rw other (
      later_row name s n rows (named name rows) (λ is. ground (arith, other, eq_iff n name, is))
        (named-Found name rows))
]

-- The rows of a print have shas.
abbrev Solid : List Row → Type 0
Solid rows = All (λ (row : Row). row.0 ≢ "") rows

kept-Solid :
    (sha name : String) (rows : List Row)
    → Solid rows
    → Solid (if not (str_eq sha "") && not (str_eq name "") then (sha, name) ∷ rows else rows)
kept-Solid sha name rows h = elim (Bool-cases (not (str_eq sha "") && not (str_eq name ""))) [
  | inl kept ↦ rw kept ((λ blank. ground (arith, kept, eq_iff sha "", blank)), h)
  | inr dropped ↦ rw dropped h
]

add_row-Solid : (line : String) (rows : List Row) → Solid rows → Solid (add_row line rows)
unfolding add_row
add_row-Solid line rows h =
    let name : String = elim (split_once 9 line).1 [ none ↦ "" | some rest ↦ rest ] in
    kept-Solid (strip (split_once 9 line).0) (strip name) rows h

rows_of-Solid : (lines : List String) → Solid (rows_of lines)
unfolding rows_of
rows_of-Solid [] = tt
rows_of-Solid (line ∷ rest) = add_row-Solid line (rows_of rest) (rows_of-Solid rest)

IsFirst-ne-empty :
    (name : String) (rows : List Row) (sha : String) → Solid rows → IsFirst name rows sha → sha ≢ ""
IsFirst-ne-empty name [] sha h never = absurd never
IsFirst-ne-empty name ((s, n) ∷ rows) sha (solid, h) (inl (_, same)) = λ e. solid (same ∙ e)
IsFirst-ne-empty name ((s, n) ∷ rows) sha (solid, h) (inr (_, later)) =
    IsFirst-ne-empty name rows sha h later

-- What git prints is solid.
ls_remote_rows-Solid :
    (ls_remote : String → List String → Option String) (repo : String) (refs : List String)
    (rows : List Row)
    → ls_remote_rows ls_remote repo refs ≡ some rows
    → Solid rows
unfolding ls_remote_rows
ls_remote_rows-Solid ls_remote repo refs rows e = printed (ls_remote repo refs) e
  where
    printed :
        (o : Option String)
        → (o >>= λ stdout. some (rows_of (splitlines (strip stdout)))) ≡ some rows
        → Solid rows
    printed none h = ground arith
    printed (some stdout) h =
        subst Solid (some-injective (rows_of (splitlines (strip stdout))) rows h)
          (rows_of-Solid (splitlines (strip stdout)))

-- A sha of the rows passes the test for an empty one.
pub found_first :
    (ls_remote : String → List String → Option String) (repo : String) (refs : List String)
    (rows : List Row) (name sha : String)
    → ls_remote_rows ls_remote repo refs ≡ some rows
    → IsFirst name rows sha
    → found (some sha) ≡ some sha
found_first ls_remote repo refs rows name sha e first =
    let blank =
      IsFirst-ne-empty name rows sha (ls_remote_rows-Solid ls_remote repo refs rows e) first in
    ground (arith, blank, eq_iff sha "")
