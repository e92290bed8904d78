-- ===== src/DeployDependencies/Reasons.antt =====
-- What `explain_fanout` records: the reason of each service, and the files that fan out to nothing.
use Prim.Native.String.{String}
use infra.Prelude.{
  ◌<>◌, Bool, true, false, ◌&&◌, ◌||◌, Option, none, some, List, [], ◌∷◌, ◌≡◌, refl, sym, ◌∙◌, ap,
  arith, str_eq, eq_iff, if◌then◌else◌, keep_if, Bool-cases, inl, inr, Option-cases,
}
use infra.Prelude.Dict.{
  Dict, lookup, keys, contains, lookup-insert, lookup_absent, lookup_present, lookup-nil,
}
use infra.DeployDependencies.{
  service_key_from_path, Manifest, matches_any, any_file, set_default, select_key, match_key,
  select_own, add_all, select_hit, select_declared, explain_fanout, match_changed_services,
}
use infra.DeployDependencies.Fanout.{
  is_key, is_own, is_declared, any_file-or, any_file-and, any_file-false,
  match_changed_services-affects,
}

abbrev pub or_else : Option String → Option String → Option String
or_else none y = y
or_else (some x) y = some x

abbrev pub first_file : (String → Bool) → List String → Option String
first_file p [] = none
first_file p (f ∷ files) = if p f then some f else first_file p files

abbrev pub own_dir : Option String → Option String
own_dir none = none
own_dir (some f) = some ("own-dir (" <> f <> ")")

abbrev pub declared_dep : Option String → Option String
declared_dep none = none
declared_dep (some f) = some ("declared dep (" <> f <> ")")

-- The first file that an entry of the manifest for `k` matches.
abbrev pub declared_reason : Manifest → List String → String → Option String
declared_reason [] files k = none
declared_reason ((service_key, globs) ∷ manifest) files k =
    or_else
      (if str_eq service_key k then declared_dep (first_file (matches_any globs) files) else none)
      (declared_reason manifest files k)

-- The own directory first, and then the manifest in its order.
abbrev pub reason_for : Manifest → List String → String → Option String
reason_for manifest files k =
    or_else (own_dir (first_file (is_own k) files)) (declared_reason manifest files k)

lookup-set_default :
    (j k reason : String) (selected : Dict String)
    → lookup j (set_default k reason selected)
      ≡ or_else (lookup j selected) (if str_eq k j then some reason else none)
lookup-set_default j k reason selected = elim (Bool-cases (contains k (keys selected))) [
  | inl there ↦
      let (r, found) = lookup_present k selected there in
      ground (arith, eq_iff k j, found, Option-cases (lookup j selected))
  | inr missing ↦ ground (
    arith,
    eq_iff k j,
    lookup_absent k selected missing,
    lookup-insert j k reason selected,
    Option-cases (lookup j selected),
  )
]

lookup-select_key :
    (k f : String) (key : Option String) (selected : Dict String)
    → lookup k (select_key key f selected)
      ≡ or_else (lookup k selected) (if is_key k key then some ("own-dir (" <> f <> ")") else none)
lookup-select_key k f none selected = ground (arith, Option-cases (lookup k selected))
lookup-select_key k f (some key) selected =
    lookup-set_default k key ("own-dir (" <> f <> ")") selected

or_else_assoc : (x y z : Option String) → or_else (or_else x y) z ≡ or_else x (or_else y z)
or_else_assoc none y z = refl
or_else_assoc (some x) y z = refl

own_dir-if :
    (b : Bool) (f : String) (o : Option String)
    → or_else (if b then some ("own-dir (" <> f <> ")") else none) (own_dir o)
      ≡ own_dir (if b then some f else o)
own_dir-if true f o = refl
own_dir-if false f o = refl

lookup-select_own :
    (k : String) (files : List String) (selected : Dict String) (matched : List String)
    → lookup k (select_own files selected matched).0
      ≡ or_else (lookup k selected) (own_dir (first_file (is_own k) files))
unfolding select_own
lookup-select_own k [] selected matched = ground (arith, Option-cases (lookup k selected))
lookup-select_own k (f ∷ files) selected matched =
    lookup-select_own k files (select_key (service_key_from_path f) f selected)
      (match_key (service_key_from_path f) f matched)
    ∙ ap (λ o. or_else o (own_dir (first_file (is_own k) files)))
        (lookup-select_key k f (service_key_from_path f) selected)
    ∙ or_else_assoc (lookup k selected) _ _
    ∙ ap (or_else (lookup k selected)) (own_dir-if (is_own k f) f (first_file (is_own k) files))

lookup-select_hit :
    (k service_key : String) (p : String → Bool) (files : List String) (selected : Dict String)
    → lookup k (select_hit (keep_if p files) service_key selected)
      ≡ or_else
          (lookup k selected)
          (if str_eq service_key k then declared_dep (first_file p files) else none)
lookup-select_hit k service_key p [] selected = ground (arith, Option-cases (lookup k selected))
lookup-select_hit k service_key p (f ∷ files) selected = elim (Bool-cases (p f)) [
  | inl hit ↦ rw hit (lookup-set_default k service_key ("declared dep (" <> f <> ")") selected)
  | inr miss ↦ rw miss (lookup-select_hit k service_key p files selected)
]

lookup-select_declared :
    (k : String) (files : List String) (manifest : Manifest) (selected : Dict String)
    (matched : List String)
    → lookup k (select_declared files manifest selected matched).0
      ≡ or_else (lookup k selected) (declared_reason manifest files k)
unfolding select_declared
lookup-select_declared k files [] selected matched =
    ground (arith, Option-cases (lookup k selected))
lookup-select_declared k files ((service_key, globs) ∷ manifest) selected matched =
    lookup-select_declared k files manifest
      (select_hit (keep_if (matches_any globs) files) service_key selected)
      (add_all (keep_if (matches_any globs) files) matched)
    ∙ ap (λ o. or_else o (declared_reason manifest files k))
        (lookup-select_hit k service_key (matches_any globs) files selected)
    ∙ or_else_assoc (lookup k selected) _ _

-- The reason that `explain_fanout` records for a service, if any, is the first changed file in its
-- own directory, or else the first one that the first matching entry of the manifest declares.
pub explain_fanout-reason_for :
    (changed_files : List String) (manifest : Manifest) (k : String)
    → lookup k (explain_fanout changed_files manifest).selected
      ≡ reason_for manifest changed_files k
unfolding explain_fanout
explain_fanout-reason_for files manifest k =
    lookup-select_declared k files manifest (select_own files [] []).0 (select_own files [] []).1
    ∙ ap (λ o. or_else o (declared_reason manifest files k))
        (lookup-select_own k files [] []
          ∙ ap (λ o. or_else o (own_dir (first_file (is_own k) files))) (lookup-nil k))

abbrev pub is_some : Option String → Bool
is_some none = false
is_some (some _) = true

is_some-or_else : (x y : Option String) → is_some (or_else x y) ≡ (is_some x || is_some y)
is_some-or_else none y = refl
is_some-or_else (some x) y = refl

is_some-first_file :
    (p : String → Bool) (files : List String) → is_some (first_file p files) ≡ any_file p files
is_some-first_file p [] = refl
is_some-first_file p (f ∷ files) = ground (arith, is_some-first_file p files)

is_some-own_dir : (o : Option String) → is_some (own_dir o) ≡ is_some o
is_some-own_dir none = refl
is_some-own_dir (some f) = refl

is_some-declared_dep :
    (b : Bool) (o : Option String) → is_some (if b then declared_dep o else none) ≡ (b && is_some o)
is_some-declared_dep true none = refl
is_some-declared_dep true (some f) = refl
is_some-declared_dep false o = refl

is_some-declared_reason :
    (manifest : Manifest) (files : List String) (k : String)
    → is_some (declared_reason manifest files k) ≡ any_file (is_declared manifest k) files
is_some-declared_reason [] files k = sym (any_file-false files)
is_some-declared_reason ((service_key, globs) ∷ manifest) files k =
    is_some-or_else
      (if str_eq service_key k then declared_dep (first_file (matches_any globs) files) else none)
      (declared_reason manifest files k)
    ∙ ground (
      arith,
      is_some-declared_dep (str_eq service_key k) (first_file (matches_any globs) files),
      is_some-first_file (matches_any globs) files,
      is_some-declared_reason manifest files k,
      any_file-or (λ f. str_eq service_key k && matches_any globs f) (is_declared manifest k) files,
      any_file-and (str_eq service_key k) (matches_any globs) files,
    )

-- `explain_fanout` has a reason for exactly the services that `match_changed_services` affects.
pub explain_fanout-match_changed_services :
    (changed_files : List String) (manifest : Manifest) (k : String)
    → is_some (lookup k (explain_fanout changed_files manifest).selected)
      ≡ contains k (match_changed_services changed_files manifest)
explain_fanout-match_changed_services files manifest k =
    ap is_some (explain_fanout-reason_for files manifest k)
    ∙ is_some-or_else (own_dir (first_file (is_own k) files)) (declared_reason manifest files k)
    ∙ ground (
      arith,
      is_some-own_dir (first_file (is_own k) files),
      is_some-first_file (is_own k) files,
      is_some-declared_reason manifest files k,
      any_file-or (is_own k) (is_declared manifest k) files,
      match_changed_services-affects files manifest k,
    )
