-- ===== src/DeployDependencies/Dockerfiles.antt =====
-- libs/deploy_dependencies.py: which shared trees a Dockerfile bakes in, the services that do so
-- without declaring it, and the composes that deploy themselves.
use Prim.Native.Char.{code}
use Prim.Native.String.{String}
use mathlib.Core.Option
use infra.Prelude.{
  ◌<>◌, Bool, false, not, ◌&&◌, ◌||◌, Option, none, some, List, [], ◌∷◌, ◌++◌, ◌==◌, str_eq,
  starts_with, if◌then◌else◌, keep_if,
}
use infra.Prelude.Dict.{Dict, lookup, contains}
use infra.Prelude.Text.{strip, upper, lstrip_if, split_once}
use infra.Prelude.Text.Split.{splitlines, words}
use infra.Prelude.Text.Order.{sorted}
use infra.DeployDependencies.{Manifest, matches_any, add}

abbrev pub shared_trees : List String
shared_trees = "libs" ∷ "tools" ∷ "common" ∷ []

abbrev pub any_text : (String → Bool) → List String → Bool
any_text p [] = false
any_text p (s ∷ l) = p s || any_text p l

-- `positional[:-1] if len(positional) >= 2 else positional`
abbrev pub sources_of : List String → List String
sources_of [] = []
sources_of (s ∷ []) = s ∷ []
sources_of (s ∷ t ∷ []) = s ∷ []
sources_of (s ∷ t ∷ u ∷ l) = s ∷ sources_of (t ∷ u ∷ l)

-- The first directory of a source.
abbrev pub top_of : String → String
top_of src = (split_once b'/' (lstrip_if (λ c. code c == b'.' || code c == b'/') src)).0

abbrev pub add_trees : List String → List String → List String
add_trees [] trees = trees
add_trees (src ∷ sources) trees =
    add_trees sources (if contains (top_of src) shared_trees then add (top_of src) trees else trees)

-- The operands of a COPY or ADD, none of which names another build stage.
abbrev pub add_operands : List String → List String → List String
add_operands operands trees =
    if any_text (λ p. starts_with p "--from") operands
    then trees
    else add_trees (sources_of (keep_if (λ p. not (starts_with p "--")) operands)) trees

abbrev pub add_words : List String → List String → List String
add_words [] trees = trees
add_words (instr ∷ operands) trees =
    if contains (upper instr) ("COPY" ∷ "ADD" ∷ []) then add_operands operands trees else trees

-- One line. A comment's first word begins with `#`, and so is no instruction.
unfoldable pub add_line : String → List String → List String
unfolding add
add_line raw trees =
    let line = strip raw in
    if str_eq line "" || starts_with line "#" then trees else add_words (words line) trees

unfoldable pub add_lines : List String → List String → List String
unfolding add_line
add_lines [] trees = trees
add_lines (raw ∷ rest) trees = add_lines rest (add_line raw trees)

unfoldable pub dockerfile_baked_shared_trees : String → List String
unfolding add_lines
dockerfile_baked_shared_trees dockerfile_text = add_lines (splitlines dockerfile_text) []

abbrev pub probe_of : String → String
probe_of tree = tree <> "/__changed_probe__"

-- The trees of one service that no glob of it matches.
unfoldable pub undeclared : String → List String → List String → List String
undeclared service_key globs [] = []
undeclared service_key globs (tree ∷ trees) =
    let rest = undeclared service_key globs trees in
    if matches_any globs (probe_of tree) then rest else (service_key <> ": " <> tree) ∷ rest

unfoldable pub all_undeclared : Dict String → Manifest → List String
unfolding undeclared lookup
all_undeclared [] manifest = []
all_undeclared ((service_key, text) ∷ rest) manifest =
    undeclared service_key (Option.get_or (lookup service_key manifest) [])
      (dockerfile_baked_shared_trees text)
    ++ all_undeclared rest manifest

unfoldable pub fanout_coverage_violations : Dict String → Manifest → List String
unfolding all_undeclared
fanout_coverage_violations service_dockerfiles manifest =
    sorted (all_undeclared service_dockerfiles manifest)

-- What `autodeploy_violations` reads of a compose. `name` may be missing.
pub record AutoDeploy : Type 0 where
  pub name : Option String
  pub auto_deploy : Bool

abbrev pub is_allowed : List String → Option String → Bool
is_allowed allowlist none = false
is_allowed allowlist (some n) = contains n allowlist

unfoldable pub unlisted : List AutoDeploy → List String → List String
unlisted [] allowlist = []
unlisted (c ∷ composes) allowlist =
    let rest = unlisted composes allowlist in
    if c.auto_deploy && not (is_allowed allowlist c.name)
    then Option.get_or c.name "<unknown>" ∷ rest
    else rest

unfoldable pub autodeploy_violations : List AutoDeploy → List String → List String
unfolding unlisted
autodeploy_violations composes allowlist = sorted (unlisted composes allowlist)
