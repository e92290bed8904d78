-- ===== src/RefResolver.antt =====
-- tools/resolve_deploy_ref.py: from what an operator names (main, a tag, a sha or a number of a pull
-- request) to a commit and the image to pull. `none` is a `ValueError`. `git ls-remote` is the
-- parameter `ls_remote`: what it prints for a repository and some refs, or `none` if it fails.
pub mod Named
pub mod Commits
mod Examples
use Prim.Native.Char.{Char, code}
use Prim.Native.String.{count}
use infra.Prelude.{
  String, ◌<>◌, Bool, true, false, not, ◌&&◌, ◌||◌, Option, none, some, List, [], ◌∷◌, ◌==◌, leb,
  str_eq, if◌then◌else◌,
}
use infra.Prelude.Text.{
  strip, lower, split_once, take_chars, all_chars, first_then, is_digit, numbers, is_version,
  or_text,
}
use infra.Prelude.Text.Split.{splitlines}
use infra.Prelude.Errors.{◌>>=◌, ◌>>◌, require}
use infra.DeployEnv.{AliasValue, text_of}

abbrev pub finance_report_repo : String
finance_report_repo = "https://github.com/wangzitian0/finance_report.git"

abbrev is_hex_digit : Char → Bool
is_hex_digit c =
    is_digit c
    || (leb b'a' (code c) && leb (code c) b'f')
    || (leb b'A' (code c) && leb (code c) b'F')

-- `_SHA_RE`: a short sha passes too, in either case.
abbrev pub is_commit : String → Bool
is_commit s = leb 7 (count s) && leb (count s) 40 && all_chars is_hex_digit s

-- `_TAG_RE`
abbrev pub is_tag : String → Bool
is_tag s = is_version b'.' s

-- `classify_ref`
unfoldable pub classify_ref : String → Option String
unfolding strip numbers all_chars
classify_ref ref =
    let cleaned = strip ref in
    if str_eq cleaned ""
    then none
    else if is_tag cleaned
    then some "tag"
    else if str_eq cleaned "main"
    then some "branch"
    else if is_commit cleaned
    then some "sha"
    else none

-- `_remote_ref_for`: a `KeyError` for another kind, which no caller passes.
unfoldable pub remote_ref_for : (kind cleaned : String) → Option String
remote_ref_for kind cleaned =
    if str_eq kind "branch"
    then some "refs/heads/main"
    else if str_eq kind "tag"
    then some ("refs/tags/" <> cleaned)
    else none

abbrev pub Row : Type 0
Row = String × String

-- One printed line in front of the rows of the others.
unfoldable pub add_row : String → List Row → List Row
unfolding strip split_once
add_row line rows =
    let (before, after) = split_once 9 line in
    let sha = strip before in
    let name = strip (elim after [ none ↦ "" | some rest ↦ rest ]) in
    if not (str_eq sha "") && not (str_eq name "") then (sha, name) ∷ rows else rows

unfoldable pub rows_of : List String → List Row
unfolding add_row
rows_of [] = []
rows_of (line ∷ rest) = add_row line (rows_of rest)

-- The sha of the first row with this name.
unfoldable pub named : String → List Row → Option String
named name [] = none
named name ((sha, n) ∷ rest) =
    let later = named name rest in if str_eq n name then some sha else later

-- `if not sha: raise ValueError`; what a row holds is never empty.
abbrev pub found : Option String → Option String
found none = none
found (some sha) = if str_eq sha "" then none else some sha

pub record ResolvedRef : Type 0 where
  pub sha : String
  pub image_ref : String
  pub form : String

-- The ref of the commit that a tag stands for.
abbrev pub peeled_ref : String → String
peeled_ref remote_ref = remote_ref <> "^{}"

abbrev pub first_some : Option String → Option String → Option String
first_some (some sha) other = some sha
first_some none other = other

-- `n.isdigit() and int(n) > 0`
abbrev pub is_positive : String → Bool
is_positive n = first_then is_digit is_digit n && not (all_chars (λ c. code c == b'0') n)

abbrev pub image_of : (form sha : String) → ResolvedRef
image_of form sha = record { sha = sha; image_ref = take_chars 7 sha; form = form }

abbrev pub tagged : (form tag sha : String) → ResolvedRef
tagged form tag sha = record { sha = sha; image_ref = tag; form = form }

module _ (ls_remote : String → List String → Option String) where
  -- `_ls_remote_rows`
  unfoldable pub ls_remote_rows : (repo : String) (refs : List String) → Option (List Row)
  unfolding rows_of strip splitlines
  ls_remote_rows repo refs =
      ls_remote repo refs >>= λ stdout. some (rows_of (splitlines (strip stdout)))

  -- `_resolve_remote_sha`: a tag is asked for with its peel, which is preferred. The inner `none` is
  -- Python's.
  unfoldable pub resolve_remote_sha : (repo kind cleaned : String) → Option (Option String)
  unfolding ls_remote_rows remote_ref_for named
  resolve_remote_sha repo kind cleaned = remote_ref_for kind cleaned >>= λ remote_ref.
      if str_eq kind "tag"
      then (ls_remote_rows repo (remote_ref ∷ peeled_ref remote_ref ∷ []) >>= λ rows.
          some (first_some (named (peeled_ref remote_ref) rows) (named remote_ref rows)))
      else ls_remote_rows repo (remote_ref ∷ []) >>= λ rows. some (named remote_ref rows)

  unfoldable pub resolve_to_sha : (repo ref : String) → Option String
  unfolding classify_ref resolve_remote_sha lower strip
  resolve_to_sha repo ref = classify_ref ref >>= λ kind.
      let cleaned = strip ref in
      if str_eq kind "sha"
      then some (lower cleaned)
      else resolve_remote_sha repo kind cleaned >>= found

  unfoldable pub resolve_image_ref : (repo ref : String) → Option ResolvedRef
  unfolding classify_ref resolve_remote_sha strip take_chars
  resolve_image_ref repo ref = classify_ref ref >>= λ form.
      let cleaned = strip ref in
      if str_eq form "tag"
      then (resolve_remote_sha repo "tag" cleaned >>= found >>= λ sha.
          some (tagged form cleaned sha))
      else resolve_to_sha repo ref >>= λ sha. some (image_of form sha)

  -- `resolve_pr`: the head of a pull request, whose number is given as a text or as a number.
  unfoldable pub resolve_pr : (repo : String) → AliasValue → Option ResolvedRef
  unfolding strip all_chars first_then ls_remote_rows named take_chars
  resolve_pr repo pr_number =
      let n = strip (text_of pr_number) in
      let ref = "refs/pull/" <> n <> "/head" in
      require (is_positive n)
      >> (ls_remote_rows repo (ref ∷ []) >>= named ref >>= λ sha. some (image_of "pr" sha))
