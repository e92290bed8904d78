-- ===== src/DeployFront/Refs.antt =====
-- tools/deploy_v2.py, `_resolve_for_type`: how the deploy type reads the version ref. `none` is a
-- `ValueError`.
use infra.Prelude.{String, Bool, false, Option, none, some, List, str_eq, if◌then◌else◌}
use infra.Prelude.Text.{strip}
use infra.Prelude.Errors.{◌>>=◌, ◌>>◌, require}
use infra.DeployEnv.{AliasValue, absent, number, text, text_of}
use infra.DeployContract.{is_sha}
use infra.DeployContract.DeployTypes.{DeployTypeSpec, validate_ref_form}
use infra.RefResolver.{ResolvedRef, classify_ref, resolve_image_ref, resolve_pr}
use infra.DeployFront.{default_main, canary_pr}

abbrev pub is_kind : Option String → String → Bool
is_kind none kind = false
is_kind (some k) kind = str_eq k kind

-- The `dict` of slots, by the alias kind: a `KeyError` for a kind that no type has.
abbrev pub slot_of : Option String → (ref sha : String) → Option AliasValue
slot_of none ref sha = some absent
slot_of (some kind) ref sha =
    if str_eq kind "branch"
    then some (text ref)
    else if str_eq kind "commit"
    then some (text sha)
    else if str_eq kind "tag"
    then some (text ref)
    else none

module _ (ls_remote : String → List String → Option String) (spec : DeployTypeSpec) where
  -- The ref of a type that takes a git ref.
  abbrev pub ref_of : AliasValue → String
  ref_of version_ref =
      if is_kind spec.alias_kind "branch"
      then default_main version_ref
      else strip (text_of version_ref)

  abbrev pub checked_form : String → Option (Unit {0})
  checked_form ref = classify_ref ref >>= validate_ref_form spec.key

  -- A bare short sha is refused here.
  abbrev pub slotted : (ref : String) → ResolvedRef → Option (ResolvedRef × AliasValue)
  slotted ref resolved =
      require (is_sha resolved.sha)
      >> (slot_of spec.alias_kind ref resolved.sha >>= λ slot. some (resolved, slot))

  abbrev pub resolve_git_ref : (ref repo : String) → Option (ResolvedRef × AliasValue)
  resolve_git_ref ref repo =
      checked_form ref >> (resolve_image_ref ls_remote repo ref >>= slotted ref)

  abbrev resolve_canary : (ref repo : String) → Option (ResolvedRef × AliasValue)
  resolve_canary ref repo =
      checked_form ref
      >> (resolve_image_ref ls_remote repo ref >>= λ resolved. some (resolved, number canary_pr))

  abbrev resolve_pull : AliasValue → String → Option (ResolvedRef × AliasValue)
  resolve_pull version_ref repo =
      resolve_pr ls_remote repo version_ref >>= λ resolved. some (resolved, version_ref)

  unfoldable pub resolve_for_type :
      (version_ref : AliasValue) (repo : String) → Option (ResolvedRef × AliasValue)
  unfolding resolve_image_ref resolve_pr validate_ref_form classify_ref default_main strip
  resolve_for_type version_ref repo =
      if str_eq spec.key "canary"
      then resolve_canary (default_main version_ref) repo
      else if is_kind spec.alias_kind "pr"
      then resolve_pull version_ref repo
      else resolve_git_ref (ref_of version_ref) repo
