-- ===== src/DeployRequest.antt =====
-- libs/app_deploy_request.py: what another repository may ask to be deployed. `none` is a
-- `ValueError`. The types and the ref resolution of infra2_sdk are parameters, as is GitHub.
pub mod Urls
pub mod Json
pub mod Verify
pub mod Plan
pub mod Authorized
pub mod Arguments
pub mod Examples
use infra.Prelude.{
  ℕ, String, ◌<>◌, Bool, true, false, not, ◌&&◌, ◌||◌, Option, none, some, List, [], ◌∷◌, str_eq,
  if◌then◌else◌,
}
use infra.Prelude.Dict.{Dict}

-- The members of the SDK's `DeployType` that the code names, and the others by their value.
pub data DeployType : Type 0 where
  staging : DeployType
  production : DeployType
  preview_pr : DeployType
  other_type : String → DeployType

pub record Evidence : Type 0 where
  pub source_run_id : String
  pub source_run_url : String
  pub staging_run_url : String
  pub reviewed_change_url : String

-- The SDK's `DeployRequest`, as far as it is read.
pub record DeployRequest : Type 0 where
  pub service : String
  pub source_repository : String
  pub source_sha : String
  pub deploy_type : DeployType
  pub version_ref : String
  pub is_remove : Bool
  pub evidence : Evidence

-- What an app's contract expects of a workflow run.
pub record RunExpectation : Type 0 where
  pub require_head_sha : Bool
  pub event : String
  pub workflow_path : String
  pub expected_display_title : String → String

-- The SDK's `ProductionEvidencePolicy`
pub record Policy : Type 0 where
  pub service : String
  pub source : RunExpectation
  pub staging : RunExpectation
  pub review_base_ref : String

-- `APP_SOURCES`
abbrev pub app_sources : Dict String
app_sources =
    ("finance_report/app", "wangzitian0/finance_report")
    ∷ ("truealpha/app", "wangzitian0/truealpha")
    ∷ []

abbrev pub allowed_senders : List String
allowed_senders = "wangzitian0" ∷ []

abbrev pub is_production : DeployType → Bool
is_production production = true
is_production _ = false

-- `deploy_type in FIXED_DEPLOY_TYPES`
abbrev pub is_fixed_type : DeployType → Bool
is_fixed_type staging = true
is_fixed_type production = true
is_fixed_type _ = false

-- `_git_url`
abbrev pub git_url : String → String
git_url repository = "https://github.com/" <> repository <> ".git"
