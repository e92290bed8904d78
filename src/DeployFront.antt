-- ===== src/DeployFront.antt =====
-- tools/deploy_v2.py, the front door of every deploy: one coordinate (service, type, version ref, IaC
-- ref) is resolved, validated and sent to a backend. What the outside answers is a parameter.
pub mod Refs
pub mod Images
pub mod Calls
pub mod AppTarget
pub mod Dispatch
pub mod Platform
pub mod Apps
pub mod Chain
pub mod Production
pub mod Delivered
pub mod Batch
pub mod Cli
pub mod Examples
use infra.Prelude.{
  ℕ, String, ◌<>◌, Bool, true, false, not, ◌&&◌, ◌||◌, Option, none, some, List, [], ◌∷◌, str_eq,
  if◌then◌else◌,
}
use infra.Prelude.Dict.{Dict, lookup}
use infra.Prelude.Text.{lower, strip, or_text}
use infra.Prelude.Effects.{Failure, value_error, Outcome, ok, raised}
use infra.DeployEnv.{AliasValue, absent, text_of, env_config}
use infra.DeployContract.{ServiceMeta, DeployTarget, is_sha}
use infra.DeployContract.DeployTypes.{is_tag_only_iac_env}
use infra.IacRunnerClient.{Trigger, StatusQuery, Answer}

abbrev pub app_service : String
app_service = "finance_report/app"

abbrev app_repo : String
app_repo = "https://github.com/wangzitian0/finance_report.git"

-- `_SERVICE_REPOS`
abbrev service_repos : Dict String
service_repos =
    (app_service, app_repo) ∷ ("truealpha/app", "https://github.com/wangzitian0/truealpha.git") ∷ []

abbrev pub infra2_repo : String
infra2_repo = "https://github.com/wangzitian0/infra2"

abbrev pub infra2_default_branch : String
infra2_default_branch = "main"

abbrev pub canary_pr : ℕ
canary_pr = 999

-- `_default_main`
unfoldable pub default_main : AliasValue → String
unfolding strip
default_main absent = "main"
default_main version_ref = or_text (strip (text_of version_ref)) "main"

-- `_repo_for_service`
unfoldable pub repo_for_service : String → String
unfolding lookup
repo_for_service service = elim (lookup service service_repos) [
  | none ↦ app_repo
  | some repo ↦ repo
]

-- `_normalize_expected_sha`: the outer `none` is a `ValueError`.
unfoldable pub normalize_expected_sha : Option String → Option (Option String)
unfolding lower strip
normalize_expected_sha none = some none
normalize_expected_sha (some expected_sha) =
    let cleaned = lower (strip expected_sha) in
    if str_eq cleaned "" then some none else if is_sha cleaned then some (some cleaned) else none

-- What GitHub's compare API says of a ref against main: a failure, or the status, if it has one.
abbrev pub Compare : Type 0
Compare = String → Outcome (Option String)

-- A ref that is reachable from main.
abbrev pub is_on_main : Option String → Bool
is_on_main none = false
is_on_main (some status) = str_eq status "behind" || str_eq status "identical"

abbrev pub judge : Outcome (Option String) → Outcome (Unit {0})
judge (raised failure) = raised failure
judge (ok status) = if is_on_main status then ok tt else raised value_error

abbrev pub guarded : Option Bool → Outcome (Unit {0}) → Outcome (Unit {0})
guarded none o = raised value_error
guarded (some false) o = ok tt
guarded (some true) o = o

-- `assert_iac_ref_on_main`, for the infra2 repository.
unfoldable pub assert_iac_ref_on_main :
    Compare → (iac_ref deploy_type : String) → Outcome (Unit {0})
unfolding strip is_tag_only_iac_env
assert_iac_ref_on_main compare iac_ref deploy_type =
    guarded (is_tag_only_iac_env deploy_type) (judge (compare (strip iac_ref)))
