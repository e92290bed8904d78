-- ===== src/QueueGuard.antt =====
-- libs/deploy_queue_guard.py: the sweep that alerts about stuck deployments and, if it is armed, kills
-- them through Dokploy's API. The API, the clock and the environment's numbers are arguments.
pub mod EnvFile
pub mod Renotify
pub mod Remediation
pub mod Examples
use mathlib.Core.Option
use mathlib.Core.List.{flat_map}
use infra.Prelude.{
  str_eq, ◌<>◌, ℕ, ◌+◌, String, Bool, true, false, Option, none, some, List, [], ◌∷◌, ◌++◌, leb,
  map, if◌then◌else◌, length, keep_if,
}
use infra.Prelude.Dict.{Dict, lookup, insert, contains}
use infra.Prelude.Text.{lower, strip, or_text}
use infra.ContainerBreakdown.{Payload}
use infra.DeployQueue.{
  Deployment, ComposeDeployments, StuckDeploy, find_stuck_deploys, build_deploy_guard_alert_payload,
}

-- An entry of `environment["compose"]`; a missing field is empty.
pub record Compose : Type 0 where
  pub compose_id : String
  pub name : String
  pub app_name : String

pub record Environment : Type 0 where
  pub name : String
  pub composes : List Compose

pub record Project : Type 0 where
  pub name : String
  pub environments : List Environment

-- What the API answers at one time; `none` is a raise.
pub record Dokploy : Type 0 where
  pub list_projects : Option (List Project)
  pub get_compose_deployments : String → Option (List Deployment)

-- What a sweep does outside: a payload for the alert bridge, and a call of the API with its label.
-- Both swallow their errors.
pub data Event : Type 0 where
  alert : Payload → Event
  call : (label compose_id : String) → Event

-- `service_id_for` is `service_registry.service_id_for_dokploy`.
module _ (service_id_for : String → String → Option String) (client : Dokploy) where
  compose_entry : String → String → Compose → List ComposeDeployments
  compose_entry project_name environment c =
      let name = or_text c.name (or_text c.app_name c.compose_id) in
      if str_eq c.compose_id ""
      then []
      else record {
        compose_id = c.compose_id;
        compose_name = name;
        service_id = Option.get_or (service_id_for project_name name) "";
        environment = environment;
        deployments = Option.get_or (client.get_compose_deployments c.compose_id) [];
      }
        ∷ []

  environment_entries : String → Environment → List ComposeDeployments
  environment_entries project_name env =
      flat_map (compose_entry project_name (lower (strip (or_text env.name "production"))))
        env.composes

  -- `_list_composes`. A compose whose deployments cannot be read is listed with none.
  unfoldable pub list_composes : Option (List ComposeDeployments)
  unfolding compose_entry environment_entries
  list_composes = elim client.list_projects [
    | none ↦ none
    | some projects ↦
        some (flat_map (λ p. flat_map (environment_entries p.name) p.environments) projects)
  ]

abbrev pub compose_ids : List StuckDeploy → List String
compose_ids = map (λ s. s.compose_id)

-- The three calls for one stuck deployment, each tried whatever the others do.
abbrev pub calls_for : StuckDeploy → List Event
calls_for s =
    call "killBuild" s.compose_id
    ∷ call "cancelDeployment" s.compose_id
    ∷ call "cleanQueues" s.compose_id
    ∷ []

-- The first loop of `_remediate`; the flag is false if a payload could not be built, which ends it.
unfoldable pub kill_each : List StuckDeploy → List Event × Bool
kill_each [] = ([], true)
kill_each (s ∷ rest) =
    let (events, done) = kill_each rest in
    elim (build_deploy_guard_alert_payload true (s ∷ [])
      ("killing stuck deploy " <> s.deployment_id <> " via Dokploy API")) [
        | none ↦ ([], false)
        | some payload ↦ (alert payload ∷ calls_for s ++ events, done)
      ]

-- What is killed and still stuck.
abbrev pub persistent : List StuckDeploy → List StuckDeploy → List StuckDeploy
persistent stuck still = keep_if (λ s. contains s.compose_id (compose_ids stuck)) still

unfoldable pub escalate : List StuckDeploy → List Event × Bool
escalate [] = ([], true)
escalate (s ∷ rest) =
    elim (build_deploy_guard_alert_payload true (s ∷ rest)
      "STILL running after Dokploy kill — manual intervention / worker restart required") [
        | none ↦ ([], false)
        | some payload ↦ (alert payload ∷ [], true)
      ]

-- `_remediate`. `recheck` is the second look, after the grace: what is stuck by then, or `none` if
-- the API raised.
unfoldable pub remediate : List StuckDeploy → Option (List StuckDeploy) → List Event × Bool
unfolding kill_each escalate
remediate stuck recheck =
    let (killed, done) = kill_each stuck in
    if done
    then (elim recheck [
      | none ↦ (killed, false)
      | some still ↦ let (last, ok) = escalate (persistent stuck still) in (killed ++ last, ok)
    ])
    else (killed, false)

-- `recheck_ceiling` is the ceiling as `_remediate` reads it from the environment again.
pub record Settings : Type 0 where
  pub ceiling : ℕ
  pub recheck_ceiling : ℕ
  pub armed : Bool
  pub renotify : ℕ

-- What a sweep leaves and does; `result` is `none` if it raised.
pub record Outcome : Type 0 where
  pub alerted : Dict ℕ
  pub events : List Event
  pub result : Option ℕ

abbrev pub is_fresh : ℕ → ℕ → Dict ℕ → StuckDeploy → Bool
is_fresh renotify now alerted s = leb (renotify + Option.get_or (lookup s.compose_id alerted) 0) now

unfoldable pub mark_alerted : ℕ → List StuckDeploy → Dict ℕ → Dict ℕ
mark_alerted now [] alerted = alerted
mark_alerted now (s ∷ rest) alerted = mark_alerted now rest (insert s.compose_id now alerted)

-- The part of `run_once` behind the alert.
unfoldable pub act :
    Settings → List StuckDeploy → Option (List StuckDeploy) → Dict ℕ → List Event → Outcome
unfolding remediate
act c stuck recheck alerted events =
    let (more, ok) = remediate stuck recheck in
    if c.armed
    then record {
      alerted = alerted;
      events = events ++ more;
      result = if ok then some (length stuck) else none;
    }
    else record { alerted = alerted; events = events; result = some (length stuck) }

-- `if fresh:` and what follows, given the payload for `fresh`.
unfoldable pub after_payload :
    Settings
    → (now : ℕ) (stuck fresh : List StuckDeploy) → Option (List StuckDeploy)
    → Dict ℕ
    → Option Payload
    → Outcome
unfolding mark_alerted act
after_payload c now stuck [] recheck alerted payload = act c stuck recheck alerted []
after_payload c now stuck (f ∷ fs) recheck alerted none = record {
  alerted = alerted;
  events = [];
  result = none;
}
after_payload c now stuck (f ∷ fs) recheck alerted (some payload) =
    act c stuck recheck (mark_alerted now (f ∷ fs) alerted) (alert payload ∷ [])

abbrev pub alert_fresh :
    Settings
    → (now : ℕ) → (stuck fresh : List StuckDeploy) → Option (List StuckDeploy)
    → Dict ℕ
    → Outcome
alert_fresh c now stuck fresh recheck alerted =
    after_payload c now stuck fresh recheck alerted (build_deploy_guard_alert_payload true fresh "")

-- `run_once`, from the stuck deployments that the first look finds, or `none` if the API raised.
unfoldable pub run_once :
    Settings → (now : ℕ) → (found recheck : Option (List StuckDeploy)) → Dict ℕ → Outcome
run_once c now none recheck alerted = record { alerted = alerted; events = []; result = none }
run_once c now (some []) recheck alerted = record {
  alerted = alerted;
  events = [];
  result = some 0;
}
run_once c now (some (s ∷ rest)) recheck alerted =
    let stuck = s ∷ rest in
    alert_fresh c now stuck (keep_if (is_fresh c.renotify now alerted) stuck) recheck alerted

-- `run_once` over the API: `before` answers the first look, at `looked`, and `after` the second.
module _ (from_iso : String → Option ℕ) (service_id_for : String → String → Option String) where
  unfoldable pub sweep :
      Settings → (looked now rechecked : ℕ) → (before after : Dokploy) → Dict ℕ → Outcome
  unfolding run_once list_composes
  sweep c looked now rechecked before after alerted =
      run_once c now
        (Option.map (find_stuck_deploys from_iso looked c.ceiling)
          (list_composes service_id_for before))
        (Option.map (find_stuck_deploys from_iso rechecked c.recheck_ceiling)
          (list_composes service_id_for after))
        alerted
