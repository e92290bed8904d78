-- ===== src/ContainerBreakdown.antt =====
-- libs/container_breakdown.py: which containers are broken, why, and the alert payload. The fields
-- of a Docker Engine entry are typed as its API documents them, and a missing one is empty.
use mathlib.Core.Option
use mathlib.Core.List.{reverse}
use infra.Prelude.{
  String, ◌<>◌, Bool, not, ◌&&◌, ◌||◌, Option, none, some, List, [], ◌∷◌, str_eq, if◌then◌else◌,
  length, leb, ◌++◌,
}
use infra.Prelude.Dict.{Dict, lookup}
use infra.Prelude.Decimal.{decimal}
use infra.Prelude.Text.{lower, strip, lstrip_of, split_once, contains_text, take_chars, or_text}
use infra.Prelude.Text.Split.{splitlines}
use infra.ServiceIdentity.{build, alert_labels}
use infra.Prelude.Errors.{◌>>=◌}

-- An element of `/containers/json`.
pub record Entry : Type 0 where
  pub id : String
  pub names : List String
  pub state : String
  pub status : String
  pub labels : Dict String

pub record Breakdown : Type 0 where
  pub container : String
  pub state : String
  pub reason : String
  pub detail : String
  pub service_id : String
  pub component : String
  pub environment : String

unfoldable pub container_name : Entry → String
container_name entry = elim entry.names [
  | [] ↦ take_chars 12 entry.id
  | name ∷ _ ↦ lstrip_of b'/' name
]

unfoldable pub broken_state : Entry → Option String
broken_state entry =
    let state = lower entry.state in
    let status = lower entry.status in
    if str_eq state "restarting"
    then some "restarting"
    else if contains_text "unhealthy" status
    then some "unhealthy"
    else if str_eq state "dead"
    then some "dead"
    else if str_eq state "exited" && not (contains_text "exited (0)" status)
    then some "exited"
    else none

-- In order, the first match wins.
abbrev pub breakdown_patterns : List (String × String)
breakdown_patterns =
    (
      "VAULT_ROLE_ID and VAULT_SECRET_ID are required",
      "Vault AppRole creds missing (VAULT_ROLE_ID / VAULT_SECRET_ID)",
    )
    ∷ ("VAULT_APP_TOKEN is required", "Vault app token missing (VAULT_APP_TOKEN)")
    ∷ ("VAULT_ROLE_ID", "Vault AppRole creds missing")
    ∷ ("permission denied", "permission denied (Vault / secret access)")
    ∷ ("no such host", "DNS / service resolution failure")
    ∷ ("connection refused", "dependency unreachable (connection refused)")
    ∷ []

first_line_with : String → List String → Option String
first_line_with pattern [] = none
first_line_with pattern (line ∷ rest) =
    if contains_text pattern line then some line else first_line_with pattern rest

first_nonblank : List String → Option String
first_nonblank [] = none
first_nonblank (line ∷ rest) = if str_eq (strip line) "" then first_nonblank rest else some line

detail_of : String → String
detail_of line = take_chars 200 (strip line)

by_pattern : List (String × String) → List String → String × String
unfolding first_line_with first_nonblank detail_of
by_pattern ((pattern, cause) ∷ rest) lines =
    let others = by_pattern rest lines in
    elim (first_line_with pattern lines) [ some line ↦ (cause, detail_of line) | none ↦ others ]
by_pattern [] lines = elim (first_nonblank (reverse lines)) [
  | some line ↦ ("crash-loop / unhealthy (see log tail)", detail_of line)
  | none ↦ ("crash-loop / unhealthy (no logs captured)", "")
]

unfoldable pub classify_reason : String → String × String
unfolding by_pattern
classify_reason logs = by_pattern breakdown_patterns (splitlines logs)

label : Entry → String → String
label entry key = Option.get_or (lookup key entry.labels) ""

-- `resolve` is `service_registry.resolve_container_host`, cut to the service id.
module _ (resolve : String → Option String) where
  unfoldable pub container_identity : Entry → String × String × String
  unfolding label
  container_identity entry =
      let service_id = label entry "party.zitian.infra.service-id" in
      let component =
        or_text (label entry "party.zitian.infra.component")
          (or_text (label entry "com.docker.compose.service") "container") in
      let environment = label entry "party.zitian.infra.environment" in
      let name = container_name entry in
      let project = label entry "com.docker.compose.project" in
      let coordinate = lower (project <> "/" <> name) in
      let guessed =
        if contains_text "staging" coordinate
        then "staging"
        else if contains_text "preview" coordinate || contains_text "pr-" coordinate
        then "preview"
        else "production" in
      (or_text service_id (Option.get_or (resolve name) ""), component, or_text environment guessed)

  breakdown_of : (String → String) → Entry → String → Breakdown
  breakdown_of logs_fn entry state =
      let (reason, detail) = classify_reason (logs_fn entry.id) in
      let (service_id, component, environment) = container_identity entry in
      record {
        container = container_name entry;
        state = state;
        reason = reason;
        detail = detail;
        service_id = service_id;
        component = component;
        environment = environment;
      }

  unfoldable pub find_breakdown_containers : List Entry → (String → String) → List Breakdown
  unfolding breakdown_of
  find_breakdown_containers [] logs_fn = []
  find_breakdown_containers (entry ∷ rest) logs_fn =
      let found = find_breakdown_containers rest logs_fn in
      elim (broken_state entry) [
        | none ↦ found
        | some state ↦ breakdown_of logs_fn entry state ∷ found
      ]

-- One alert of a payload.
pub record Alert : Type 0 where
  pub status : String
  pub labels : Dict String
  pub annotations : Dict String

pub record Payload : Type 0 where
  pub status : String
  pub common_labels : Dict String
  pub summary : String
  pub group_labels : Dict String
  pub alerts : List Alert
  pub external_url : String

-- What stands behind the first slash of a service id, or the whole of an id that has none.
abbrev pub last_part : String → String
last_part service_id = Option.get_or (split_once b'/' service_id).1 service_id

unfoldable pub breakdown_alert : String → Breakdown → Option Alert
breakdown_alert status b = do
  identity ←
      build (or_text b.service_id "infra/unregistered") b.environment (some b.component)
        (some (if str_eq b.service_id "" then "unregistered" else last_part b.service_id)) "" ""
  labels ← alert_labels identity "critical" "runtime"
  some (record {
    status = status;
    labels = ("alertname", "ContainerBreakdown") ∷ labels ++ ("state", b.state) ∷ [];
    annotations =
        ("summary", b.container <> " " <> b.state <> " — " <> b.reason)
        ∷ ("description", b.reason)
        ∷ ("observed", "state=" <> b.state <> " log=" <> b.detail)
        ∷ [];
  })

unfoldable pub breakdown_alerts : String → List Breakdown → Option (List Alert)
unfolding breakdown_alert
breakdown_alerts status [] = some []
breakdown_alerts status (b ∷ rest) = do
  alert ← breakdown_alert status b
  alerts ← breakdown_alerts status rest
  some (alert ∷ alerts)

-- `build_breakdown_alert_payload`: `none` if an identity is refused.
unfoldable pub build_breakdown_alert_payload : (firing : Bool) → List Breakdown → Option Payload
unfolding breakdown_alerts
build_breakdown_alert_payload firing breakdowns = do
  let status = if firing then "firing" else "resolved"
  alerts ← breakdown_alerts status breakdowns
  some (record {
    status = status;
    common_labels =
        ("alertname", "ContainerBreakdown")
        ∷ ("identity_schema", "v1")
        ∷ ("managed_by", "infra2")
        ∷ ("severity", "critical")
        ∷ ("team", "infra")
        ∷ [];
    summary =
        if leb (length breakdowns) 0
        then "No containers crash-looping"
        else decimal (length breakdowns) <> " container(s) crash-looping / unhealthy";
    group_labels = ("alertname", "ContainerBreakdown") ∷ [];
    alerts = alerts;
    external_url = "infra2://platform/12.alerting/container-breakdown";
  })
