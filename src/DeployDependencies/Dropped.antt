-- ===== src/DeployDependencies/Dropped.antt =====
-- The files that `explain_fanout` drops are those that redeploy nothing.
use Prim.Native.String.{String}
use infra.Prelude.{
  Bool, true, false, not, ◌&&◌, ◌||◌, Option, none, some, List, [], ◌∷◌, ◌≡◌, refl, ◌∙◌, ap, arith,
  str_eq, eq_iff, keep_if, Bool-cases, inl, inr,
}
use infra.Prelude.Dict.{Dict, contains}
use infra.DeployDependencies.{
  service_key_from_path, Manifest, matches_any, add, select_key, match_key, select_own, add_all,
  select_hit, select_declared, explain_fanout,
}
use infra.DeployDependencies.Fanout.{contains-add}

abbrev pub has_key : Option String → Bool
has_key none = false
has_key (some _) = true

abbrev pub in_manifest : Manifest → String → Bool
in_manifest [] f = false
in_manifest ((_, globs) ∷ manifest) f = matches_any globs f || in_manifest manifest f

-- The file stands in the directory of a service, or a glob of the manifest matches it.
abbrev pub fans_out : Manifest → String → Bool
fans_out manifest f = has_key (service_key_from_path f) || in_manifest manifest f

contains-kept :
    (p : String → Bool) (f : String) (l : List String)
    → contains f (keep_if p l) ≡ (contains f l && p f)
contains-kept p f [] = refl
contains-kept p f (g ∷ l) = elim (Bool-cases (str_eq g f)) [
  | inl same ↦ ground (arith, contains-kept p f l, ap p ((eq_iff g f).0 same))
  | inr differ ↦ ground (arith, contains-kept p f l)
]

contains-add_all :
    (f : String) (hits matched : List String)
    → contains f (add_all hits matched) ≡ (contains f hits || contains f matched)
contains-add_all f [] matched = refl
contains-add_all f (g ∷ hits) matched =
    contains-add_all f hits (add g matched) ∙ ground (arith, contains-add f g matched)

contains-match_key :
    (f g : String) (key : Option String) (matched : List String)
    → contains f (match_key key g matched) ≡ ((str_eq g f && has_key key) || contains f matched)
contains-match_key f g none matched = ground arith
contains-match_key f g (some key) matched = contains-add f g matched ∙ ground arith

contains-select_own :
    (f : String) (files : List String) (selected : Dict String) (matched : List String)
    → contains f (select_own files selected matched).1
      ≡ ((contains f files && has_key (service_key_from_path f)) || contains f matched)
unfolding select_own
contains-select_own f [] selected matched = refl
contains-select_own f (g ∷ files) selected matched =
    contains-select_own f files (select_key (service_key_from_path g) g selected)
      (match_key (service_key_from_path g) g matched)
    ∙ elim (Bool-cases (str_eq g f)) [
      | inl same ↦ ground (
        arith,
        contains-match_key f g (service_key_from_path g) matched,
        ap (λ x. has_key (service_key_from_path x)) ((eq_iff g f).0 same),
      )
      | inr differ ↦ ground (arith, contains-match_key f g (service_key_from_path g) matched)
    ]

contains-select_declared :
    (f : String) (files : List String) (manifest : Manifest) (selected : Dict String)
    (matched : List String)
    → contains f (select_declared files manifest selected matched).1
      ≡ ((contains f files && in_manifest manifest f) || contains f matched)
unfolding select_declared
contains-select_declared f files [] selected matched = ground arith
contains-select_declared f files ((service_key, globs) ∷ manifest) selected matched =
    contains-select_declared f files manifest
      (select_hit (keep_if (matches_any globs) files) service_key selected)
      (add_all (keep_if (matches_any globs) files) matched)
    ∙ ground (
      arith,
      contains-add_all f (keep_if (matches_any globs) files) matched,
      contains-kept (matches_any globs) f files,
    )

-- A file is dropped exactly if it was changed and neither stands in the directory of a service nor
-- matches a glob of the manifest.
pub explain_fanout-dropped :
    (changed_files : List String) (manifest : Manifest) (f : String)
    → contains f (explain_fanout changed_files manifest).dropped
      ≡ (contains f changed_files && not (fans_out manifest f))
unfolding explain_fanout
explain_fanout-dropped files manifest f =
    contains-kept _ f files
    ∙ ground (
      arith,
      contains-select_declared f files manifest (select_own files [] []).0
          (select_own files [] []).1,
      contains-select_own f files [] [],
    )
