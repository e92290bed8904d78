-- ===== src/DeployDependencies/Fanout.antt =====
-- The two walks over the changed files agree, with each other and with what one file selects.
use Prim.Native.String.{String}
use infra.Prelude.{
  Bool, false, ◌&&◌, ◌||◌, Option, none, some, List, [], ◌∷◌, ◌++◌, ◌≡◌, refl, ◌∙◌, arith, str_eq,
  eq_iff, if◌then◌else◌,
}
use infra.Prelude.Dict.{contains}
use infra.DeployDependencies.{
  service_key_from_path, Manifest, matches_any, any_file, add, add_key, add_own, add_declared,
  match_changed_services,
}

abbrev pub is_key : String → Option String → Bool
is_key k none = false
is_key k (some key) = str_eq key k

-- The file stands in the directory of the service `k`.
abbrev pub is_own : String → String → Bool
is_own k f = is_key k (service_key_from_path f)

-- The manifest has an entry for `k` with a glob that matches the file.
abbrev pub is_declared : Manifest → String → String → Bool
is_declared [] k f = false
is_declared ((service_key, globs) ∷ manifest) k f =
    (str_eq service_key k && matches_any globs f) || is_declared manifest k f

-- The service is affected by this one file.
abbrev pub affects : Manifest → String → String → Bool
affects manifest k f = is_own k f || is_declared manifest k f

pub any_file-or :
    (p q : String → Bool) (files : List String)
    → any_file (λ f. p f || q f) files ≡ (any_file p files || any_file q files)
any_file-or p q [] = refl
any_file-or p q (f ∷ files) = ground (arith, any_file-or p q files)

pub any_file-and :
    (b : Bool) (p : String → Bool) (files : List String)
    → any_file (λ f. b && p f) files ≡ (b && any_file p files)
any_file-and b p [] = ground arith
any_file-and b p (f ∷ files) = ground (arith, any_file-and b p files)

pub any_file-false : (files : List String) → any_file (λ _. false) files ≡ false
any_file-false [] = refl
any_file-false (f ∷ files) = any_file-false files

contains-append :
    (k : String) (l m : List String) → contains k (l ++ m) ≡ (contains k l || contains k m)
contains-append k [] m = refl
contains-append k (j ∷ l) m = ground (arith, contains-append k l m)

pub contains-add :
    (j k : String) (l : List String) → contains j (add k l) ≡ (str_eq k j || contains j l)
unfolding add
contains-add j k l = ground (arith, contains-append j l (k ∷ []), eq_iff k j)

contains-add_key :
    (k : String) (key : Option String) (l : List String)
    → contains k (add_key key l) ≡ (is_key k key || contains k l)
contains-add_key k none l = refl
contains-add_key k (some key) l = contains-add k key l

contains-add_own :
    (k : String) (files affected : List String)
    → contains k (add_own files affected) ≡ (any_file (is_own k) files || contains k affected)
unfolding add_own
contains-add_own k [] affected = refl
contains-add_own k (f ∷ files) affected =
    contains-add_own k files (add_key (service_key_from_path f) affected)
    ∙ ground (arith, contains-add_key k (service_key_from_path f) affected)

contains-add_declared :
    (k : String) (files : List String) (manifest : Manifest) (affected : List String)
    → contains k (add_declared files manifest affected)
      ≡ (any_file (is_declared manifest k) files || contains k affected)
unfolding add_declared
contains-add_declared k files [] affected = ground (arith, any_file-false files)
contains-add_declared k files ((service_key, globs) ∷ manifest) affected =
    contains-add_declared k files manifest
      (if any_file (matches_any globs) files then add service_key affected else affected)
    ∙ ground (
      arith,
      contains-add k service_key affected,
      any_file-or (λ f. str_eq service_key k && matches_any globs f) (is_declared manifest k) files,
      any_file-and (str_eq service_key k) (matches_any globs) files,
    )

-- A service is affected by a set of changed files exactly if it is affected by one of them: the
-- file stands in its directory, or matches a glob that the manifest declares for it.
pub match_changed_services-affects :
    (changed_files : List String) (manifest : Manifest) (k : String)
    → contains k (match_changed_services changed_files manifest)
      ≡ any_file (affects manifest k) changed_files
unfolding match_changed_services
match_changed_services-affects files manifest k =
    contains-add_declared k files manifest (add_own files [])
    ∙ ground
        (arith, contains-add_own k files [], any_file-or (is_own k) (is_declared manifest k) files)
