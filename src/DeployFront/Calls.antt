-- ===== src/DeployFront/Calls.antt =====
-- tools/deploy_v2.py: the arguments and the result of a deploy, the calls of the backends, what
-- answers them, and the red lines of the data lane.
use infra.Prelude.{
  ℕ, String, Bool, true, false, not, ◌&&◌, Option, none, some, List, str_eq, if◌then◌else◌,
}
use infra.Prelude.Dict.{Dict}
use infra.Prelude.Effects.{Outcome}
use infra.DeployEnv.{AliasValue, EnvConfig, env_config}
use infra.DeployContract.{ServiceMeta, DeployTarget}
use infra.IacRunnerClient.{Trigger, StatusQuery, Reply, Answer}
use infra.DeployFront.{Compare}
use infra.DeployFront.Images.{Artifacts, Floats, Seconds}

-- `enforce_data_lane_red_lines`: only a signal that is `True` opens prod data.
abbrev pub is_reviewed : Option Bool → Bool
is_reviewed (some true) = true
is_reviewed _ = false

abbrev pub lane_of : DeployTarget → Option Bool → EnvConfig → Option String
lane_of target code_reviewed cfg =
    let data_lane = cfg.data_default in
    if str_eq target.env "prod" && not (str_eq data_lane "prod")
    then none
    else if str_eq data_lane "prod" && not (is_reviewed code_reviewed)
    then none
    else some data_lane

unfoldable pub enforce_data_lane_red_lines : DeployTarget → Option Bool → Option String
unfolding env_config
enforce_data_lane_red_lines target code_reviewed = elim (env_config target.env) [
  | none ↦ none
  | some cfg ↦ lane_of target code_reviewed cfg
]

-- What `preview.up` is called with.
pub record PreviewRequest : Type 0 where
  pub alias_kind : Option String
  pub alias_value : AliasValue
  pub code : String
  pub service : String
  pub image_ref : String
  pub iac_ref : String
  pub domain : String
  pub branch : String
  pub wait : Bool
  pub health_timeout : ℕ

-- What `promote.deploy` is called with.
pub record FixedRequest : Type 0 where
  pub env : String
  pub sha : String
  pub domain : String
  pub service : String
  pub image_ref : String
  pub iac_ref : String
  pub branch : String
  pub wait : Bool
  pub timeout : ℕ
  pub staging_validated : Bool
  pub break_glass : Bool
  pub verify_vault : Bool
  pub verify_config : Bool
  pub verify_ingestion : Bool

-- What `preview.down` is called with.
pub record DownRequest : Type 0 where
  pub alias_kind : Option String
  pub alias_value : AliasValue
  pub domain : String
  pub service : String

-- A call of a backend.
pub data Event : Type 0 where
  triggered : Trigger → Event
  previewed : PreviewRequest → Event
  deployed : FixedRequest → Event
  removed : DownRequest → Event

pub record DownResult : Type 0 where
  pub action : String
  pub alias : String
  pub compose_id : Option String
  pub url : String

pub record PreviewResult : Type 0 where
  pub alias : String
  pub compose_id : String
  pub sha : String
  pub url : String
  pub healthy : Bool

pub record FixedPlan : Type 0 where
  pub env : String
  pub sha : String
  pub compose_id : String
  pub data_lane : String

-- Everything that answers the front door, and what the registry knows.
pub record World : Type 0 where
  pub ls_remote : String → List String → Option String
  pub compare : Compare
  pub attrs : Dict ServiceMeta
  pub domain_for_service : String → Option String
  pub artifacts : (image_ref : String) → Artifacts
  pub runner : Trigger → Answer
  pub runner_status : StatusQuery → ℕ → Answer
  pub preview_up : PreviewRequest → Outcome PreviewResult
  pub preview_down : DownRequest → Outcome DownResult
  pub deploy_fixed : FixedRequest → Outcome FixedPlan
  pub runner_url : String
  pub webhook_secret : String
  pub floats : Floats
  pub env_wait : String
  pub env_poll : String

-- The arguments of `deploy_v2`; `none` is `None`.
pub record Coordinate : Type 0 where
  pub service : String
  pub deploy_type : String
  pub version_ref : AliasValue
  pub iac_ref : String
  pub domain : String
  pub wait : Bool
  pub staging_validated : Bool
  pub break_glass : Bool
  pub code_reviewed : Option Bool
  pub verify_vault : Bool
  pub verify_config : Bool
  pub verify_ingestion : Bool
  pub timeout : ℕ
  pub expected_sha : Option String
  pub repo : Option String
  pub iac_runner_url : Option String
  pub iac_webhook_secret : Option String
  pub triggered_by : String
  pub image_wait_seconds : Option Seconds
  pub image_poll_seconds : Option Seconds

-- What `detail` holds, by the backend.
pub data Detail : Type 0 where
  runner_detail : (env ref : String) → List String → Reply → Option Reply → Detail
  preview_detail : PreviewResult → (image_ref : String) → Detail
  fixed_detail : FixedPlan → (image_ref iac_ref : String) → Detail

pub record DeployV2Result : Type 0 where
  pub target : DeployTarget
  pub data_lane : String
  pub backend : String
  pub detail : Detail
