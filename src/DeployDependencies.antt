-- ===== src/DeployDependencies.antt =====
-- libs/deploy_dependencies.py: which services a set of changed files redeploys, and why. A set is a
-- list in the order of its insertions; the manifest is the dict that the YAML file gives.
pub mod Fanout
pub mod Reasons
pub mod Dropped
pub mod Dockerfiles
pub mod Coverage
pub mod Examples
use Prim.Native.Char.{code}
use Prim.Native.String.{String, [], ◌∷◌}
use infra.Prelude.{
  ℕ, ◌<>◌, Bool, true, false, not, ◌&&◌, ◌||◌, Option, none, some, List, ◌++◌, ◌==◌, str_eq,
  starts_with, if◌then◌else◌, keep_if,
}
use infra.Prelude.Dict.{Dict, lookup, insert, keys, contains}
use infra.Prelude.Text.{replace_char, split_once, contains_text}
use infra.Prelude.Text.Split.{split}

-- The patterns of the manifest, which have no `[`: `*` is any text, `?` any
-- character, and the slash is like the others.
some_suffix : (String → Bool) → String → Bool
some_suffix p [] = p []
some_suffix p (c ∷ s) = let later = some_suffix p s in p (c ∷ s) || later

unfoldable pub glob_matches : String → String → Bool
unfolding some_suffix
glob_matches [] [] = true
glob_matches [] (c ∷ s) = false
glob_matches (g ∷ glob) [] = let rest = glob_matches glob [] in code g == b'*' && rest
glob_matches (g ∷ glob) (c ∷ s) =
    let anywhere = some_suffix (glob_matches glob) (c ∷ s) in
    let next = glob_matches glob s in
    if code g == b'*' then anywhere else (code g == b'?' || code g == code c) && next

-- `fnmatch.fnmatch(name, pat)`
abbrev pub fnmatch : String → String → Bool
fnmatch name pat = glob_matches pat name

-- `parts[i].split('.', 1)[1]`, if the part has a dot.
abbrev pub after_dot : String → Option String
after_dot part = (split_once b'.' part).1

abbrev pub keyed : String → Option String → Option String
keyed namespace name = elim name [ none ↦ none | some n ↦ some (namespace <> n) ]

abbrev pub dashed_name : Option String → Option String
dashed_name name = elim name [ none ↦ none | some n ↦ some (replace_char b'_' "-" n) ]

-- `service_key_from_path`, from the parts of the path.
unfoldable pub key_of_parts : List String → Option String
key_of_parts List.[] = none
key_of_parts (List.◌∷◌ root List.[]) = none
key_of_parts (List.◌∷◌ root (List.◌∷◌ second List.[])) =
    if str_eq root "platform"
    then keyed "platform/" (after_dot second)
    else if str_eq root "bootstrap"
    then keyed "bootstrap/" (dashed_name (after_dot second))
    else none
key_of_parts (List.◌∷◌ root (List.◌∷◌ second (List.◌∷◌ third _))) =
    if str_eq root "platform"
    then keyed "platform/" (after_dot second)
    else if str_eq root "finance_report"
    then keyed "finance_report/" (after_dot third)
    else if str_eq root "truealpha"
    then keyed "truealpha/" (after_dot third)
    else if str_eq root "bootstrap"
    then keyed "bootstrap/" (dashed_name (after_dot second))
    else none

unfoldable pub service_key_from_path : String → Option String
unfolding key_of_parts
service_key_from_path file_path = key_of_parts (split b'/' file_path)

abbrev pub Manifest : Type 0
Manifest = Dict (List String)

abbrev pub matches_any : List String → String → Bool
matches_any List.[] f = false
matches_any (List.◌∷◌ g globs) f = fnmatch f g || matches_any globs f

-- `any(... for f in files)`
abbrev pub any_file : (String → Bool) → List String → Bool
any_file p List.[] = false
any_file p (List.◌∷◌ f files) = p f || any_file p files

-- `affected.add(k)`
unfoldable pub add : String → List String → List String
add k affected = if contains k affected then affected else affected ++ (List.◌∷◌ k List.[])

abbrev pub add_key : Option String → List String → List String
add_key none affected = affected
add_key (some key) affected = add key affected

unfoldable pub add_own : List String → List String → List String
unfolding add
add_own List.[] affected = affected
add_own (List.◌∷◌ f files) affected = add_own files (add_key (service_key_from_path f) affected)

unfoldable pub add_declared : List String → Manifest → List String → List String
unfolding add
add_declared files List.[] affected = affected
add_declared files (List.◌∷◌ (service_key, globs) manifest) affected =
    add_declared files manifest
      (if any_file (matches_any globs) files then add service_key affected else affected)

unfoldable pub match_changed_services : List String → Manifest → List String
unfolding add_own add_declared
match_changed_services changed_files manifest =
    add_declared changed_files manifest (add_own changed_files List.[])

pub record FanoutDecision : Type 0 where
  pub selected : Dict String
  pub dropped : List String

-- `selected.setdefault(k, reason)`
abbrev pub set_default : String → String → Dict String → Dict String
set_default k reason selected =
    if contains k (keys selected) then selected else insert k reason selected

abbrev pub select_key : Option String → String → Dict String → Dict String
select_key none f selected = selected
select_key (some key) f selected = set_default key ("own-dir (" <> f <> ")") selected

abbrev pub match_key : Option String → String → List String → List String
match_key none f matched = matched
match_key (some key) f matched = add f matched

-- The first loop of `explain_fanout`: `selected` and `matched`.
unfoldable pub select_own : List String → Dict String → List String → Dict String × List String
unfolding insert add
select_own List.[] selected matched = (selected, matched)
select_own (List.◌∷◌ f files) selected matched =
    let key = service_key_from_path f in
    select_own files (select_key key f selected) (match_key key f matched)

-- `matched.update(hits)`
abbrev pub add_all : List String → List String → List String
add_all List.[] matched = matched
add_all (List.◌∷◌ f hits) matched = add_all hits (add f matched)

-- `if hits:`
abbrev pub select_hit : List String → String → Dict String → Dict String
select_hit List.[] service_key selected = selected
select_hit (List.◌∷◌ hit hits) service_key selected =
    set_default service_key ("declared dep (" <> hit <> ")") selected

-- The second loop.
unfoldable pub select_declared :
    List String → Manifest → Dict String → List String → Dict String × List String
unfolding insert add
select_declared files List.[] selected matched = (selected, matched)
select_declared files (List.◌∷◌ (service_key, globs) manifest) selected matched =
    let hits = keep_if (matches_any globs) files in
    select_declared files manifest (select_hit hits service_key selected) (add_all hits matched)

unfoldable pub explain_fanout : List String → Manifest → FanoutDecision
unfolding select_own select_declared
explain_fanout changed_files manifest =
    let (own, owned) = select_own changed_files List.[] List.[] in
    let (selected, matched) = select_declared changed_files manifest own owned in
    record { selected = selected; dropped = keep_if (λ f. not (contains f matched)) changed_files }
