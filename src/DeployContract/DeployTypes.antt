-- ===== src/DeployContract/DeployTypes.antt =====
-- libs/deploy_contract.py: the deploy types, the forms of refs that they take, and `make_target`.
use infra.Prelude.{String, Bool, true, false, not, ◌&&◌, Option, none, some, List, [], ◌∷◌, str_eq}
use infra.Prelude.Dict.{Dict, lookup, contains}
use infra.Prelude.Errors.{◌>>=◌, ◌>>◌, require}
use infra.DeployEnv.{AliasValue, absent}
use infra.DeployContract.{ServiceMeta, DeployTarget, make_deploy_target}

pub record DeployTypeSpec : Type 0 where
  pub key : String
  pub env : String
  pub alias_kind : Option String
  pub accepted_forms : List String

abbrev pub release_forms : List String
release_forms = "tag" ∷ []

abbrev pub all_ref_forms : List String
all_ref_forms = "branch" ∷ "sha" ∷ release_forms

abbrev pub preview_type : String → String → List String → String × DeployTypeSpec
preview_type key kind forms =
    (key, record { key = key; env = "preview"; alias_kind = some kind; accepted_forms = forms })

abbrev pub fixed_type : String → String × DeployTypeSpec
fixed_type env =
    (env, record { key = env; env = env; alias_kind = none; accepted_forms = release_forms })

-- `DEPLOY_TYPES`
abbrev pub deploy_types : Dict DeployTypeSpec
deploy_types =
    fixed_type "staging"
    ∷ fixed_type "prod"
    ∷ preview_type "preview/branch" "branch" ("branch" ∷ [])
    ∷ preview_type "preview/pr" "pr" ("pr" ∷ [])
    ∷ preview_type "preview/commit" "commit" ("sha" ∷ [])
    ∷ preview_type "preview/tag" "tag" ("tag" ∷ [])
    ∷ preview_type "canary" "pr" all_ref_forms
    ∷ []

unfoldable pub deploy_type_spec : String → Option DeployTypeSpec
unfolding lookup
deploy_type_spec deploy_type = lookup deploy_type deploy_types

unfoldable pub validate_ref_form : String → String → Option (Unit {0})
unfolding deploy_type_spec
validate_ref_form deploy_type form =
    deploy_type_spec deploy_type >>= λ spec. require (contains form spec.accepted_forms)

-- `_TAG_ONLY_IAC_ENVS`
abbrev pub is_tag_only_env : String → Bool
is_tag_only_env env = contains env ("staging" ∷ "prod" ∷ [])

unfoldable pub validate_iac_ref_form : String → String → Option (Unit {0})
unfolding deploy_type_spec
validate_iac_ref_form deploy_type iac_form = deploy_type_spec deploy_type >>= λ spec.
    require (not (is_tag_only_env spec.env && not (str_eq iac_form "tag")))

unfoldable pub is_tag_only_iac_env : String → Option Bool
unfolding deploy_type_spec
is_tag_only_iac_env deploy_type =
    deploy_type_spec deploy_type >>= λ spec. some (is_tag_only_env spec.env)

abbrev pub is_given : AliasValue → Bool
is_given absent = false
is_given _ = true

unfoldable pub make_target :
    Dict ServiceMeta
    → (deploy_type service version iac_ref : String) (alias_value : AliasValue)
    → Option DeployTarget
unfolding deploy_type_spec make_deploy_target
make_target attrs deploy_type service version iac_ref alias_value =
    deploy_type_spec deploy_type >>= λ spec.
    require (not (is_given alias_value && elim spec.alias_kind [ none ↦ true | some _ ↦ false ]))
    >> make_deploy_target attrs service spec.env version iac_ref spec.alias_kind alias_value
