-- ===== src/DeployQueue.antt =====
-- libs/deploy_queue.py: which composes have a deployment that runs for too long. Times are in
-- milliseconds. `now - start` is truncated at 0; a start in the future then has age 0, which is not
-- above any ceiling, as a negative age is not.
pub mod Oldest
pub mod Examples
use Prim.Native.Char.{code}
use Prim.Native.String
use mathlib.Core.Option
use infra.Prelude.{
  ℕ, ◌+◌, ◌-◌, ◌*◌, ◌/◌, String, ◌<>◌, Bool, true, false, ◌&&◌, Option, none, some, List, [], ◌∷◌,
  ◌++◌, ltb, leb, str_eq, if◌then◌else◌, length,
}
use infra.Prelude.Dict.{Dict}
use infra.Prelude.Decimal.{decimal}
use infra.Prelude.Text.{lower, strip, all_chars, is_digit, or_text}
use infra.ServiceIdentity.{build, alert_labels}
use infra.Prelude.Errors.{◌>>=◌}
use infra.ContainerBreakdown.{Alert, Payload, last_part}

-- The values that Dokploy gives for a timestamp. JSON's other values are not timestamps either.
pub data Value : Type 0 where
  null : Value
  boolean : Bool → Value
  number : ℕ → Value
  text : String → Value

pub record Deployment : Type 0 where
  pub deployment_id : String
  pub status : String
  pub started_at : Value
  pub created_at : Value
  pub updated_at : Value

pub record ComposeDeployments : Type 0 where
  pub compose_id : String
  pub compose_name : String
  pub service_id : String
  pub environment : String
  pub deployments : List Deployment

pub record StuckDeploy : Type 0 where
  pub compose_id : String
  pub compose_name : String
  pub deployment_id : String
  pub age : ℕ
  pub service_id : String
  pub environment : String

-- `int(s)` of a text of digits.
digits_value : ℕ → String → ℕ
digits_value n String.[] = n
digits_value n (String.◌∷◌ c s) = digits_value (n * 10 + (code c - b'0')) s

-- Above 1e11 a number is in milliseconds, else in seconds.
unfoldable pub number_epoch : ℕ → ℕ
number_epoch v = if ltb 100_000_000_000 v then v else v * 1000

-- `from_iso` stands for `datetime.fromisoformat` after the "Z" is replaced: the instant of an
-- ISO-8601 text, a naive one read as UTC, or `none` where it raises.
module _ (from_iso : String → Option ℕ) where
  text_epoch : String → Option ℕ
  text_epoch s =
      if str_eq s ""
      then none
      else if all_chars is_digit s
      then some (number_epoch (digits_value 0 s))
      else from_iso s

  unfoldable pub parse_epoch : Value → Option ℕ
  unfolding text_epoch number_epoch digits_value
  parse_epoch null = none
  parse_epoch (boolean b) = none
  parse_epoch (number v) = some (number_epoch v)
  parse_epoch (text s) = text_epoch (strip s)

  -- The first of the three fields that can be read.
  unfoldable pub deployment_start_epoch : Deployment → Option ℕ
  deployment_start_epoch d = elim (parse_epoch d.started_at) [
    | some start ↦ some start
    | none ↦ elim (parse_epoch d.created_at) [
      | some start ↦ some start
      | none ↦ parse_epoch d.updated_at
    ]
  ]

  unfoldable pub is_running : Deployment → Bool
  is_running d = str_eq (lower (strip d.status)) "running"

  module _ (now ceiling : ℕ) where
    -- The age of a running deployment whose start is known.
    abbrev pub running_age : Deployment → Option ℕ
    running_age d =
        if is_running d then Option.map (λ start. now - start) (deployment_start_epoch d) else none

    abbrev pub stuck : ComposeDeployments → Deployment → ℕ → StuckDeploy
    stuck c d age = record {
      compose_id = c.compose_id;
      compose_name = c.compose_name;
      deployment_id = d.deployment_id;
      age = age;
      service_id = c.service_id;
      environment = c.environment;
    }

    abbrev older : Option StuckDeploy → ℕ → Bool
    older oldest age = elim oldest [ none ↦ true | some s ↦ ltb s.age age ]

    -- One round of the inner loop.
    unfoldable pub consider :
        ComposeDeployments → Option StuckDeploy → Deployment → Option StuckDeploy
    consider c oldest d = elim (running_age d) [
      | none ↦ oldest
      | some age ↦
          if leb age ceiling
          then oldest
          else if older oldest age
          then some (stuck c d age)
          else oldest
    ]

    unfoldable pub oldest_stuck :
        ComposeDeployments → Option StuckDeploy → List Deployment → Option StuckDeploy
    oldest_stuck c oldest [] = oldest
    oldest_stuck c oldest (d ∷ rest) = oldest_stuck c (consider c oldest d) rest

    unfoldable pub find_stuck_deploys : List ComposeDeployments → List StuckDeploy
    find_stuck_deploys [] = []
    find_stuck_deploys (c ∷ rest) =
        let found = find_stuck_deploys rest in
        elim (oldest_stuck c none c.deployments) [ none ↦ found | some s ↦ s ∷ found ]

-- The age in whole seconds, as the texts of an alert have it.
abbrev age_text : StuckDeploy → String
age_text s = decimal (s.age / 1000)

guard_alert : String → String → StuckDeploy → Option Alert
guard_alert status action_note s = do
  identity ←
      build (or_text s.service_id "infra/unregistered") s.environment (some "deploy-queue")
        (some (if str_eq s.service_id "" then "unregistered" else last_part s.service_id)) "" ""
  labels ← alert_labels identity "critical" "deploy-queue"
  some (record {
    status = status;
    labels = ("alertname", "DeployQueueStuck") ∷ labels;
    annotations =
        ("summary", s.compose_name <> " deploy stuck running " <> age_text s <> "s")
        ∷ (
          "description",
          or_text action_note (
              "deployment " <> s.deployment_id
              <> " has been running > ceiling; queue is single-concurrency FIFO so this blocks all deploys"),
        )
        ∷ ("observed", "compose=" <> s.compose_id <> " age=" <> age_text s <> "s")
        ∷ [];
  })

guard_alerts : String → String → List StuckDeploy → Option (List Alert)
unfolding guard_alert
guard_alerts status action_note [] = some []
guard_alerts status action_note (s ∷ rest) = do
  alert ← guard_alert status action_note s
  alerts ← guard_alerts status action_note rest
  some (alert ∷ alerts)

-- `build_deploy_guard_alert_payload`: `none` if an identity is refused.
unfoldable pub build_deploy_guard_alert_payload :
    (firing : Bool) → List StuckDeploy → (action_note : String) → Option Payload
unfolding guard_alerts
build_deploy_guard_alert_payload firing stuck action_note = do
  let status = if firing then "firing" else "resolved"
  alerts ← guard_alerts status action_note stuck
  some (record {
    status = status;
    common_labels =
        ("alertname", "DeployQueueStuck")
        ∷ ("identity_schema", "v1")
        ∷ ("managed_by", "infra2")
        ∷ ("severity", "critical")
        ∷ ("team", "infra")
        ∷ [];
    summary =
        if leb (length stuck) 0
        then "No deploys stuck"
        else decimal (length stuck) <> " deploy(s) stuck running past the ceiling";
    group_labels = ("alertname", "DeployQueueStuck") ∷ [];
    alerts = alerts;
    external_url = "infra2://platform/12.alerting/deploy-queue-guard";
  })
