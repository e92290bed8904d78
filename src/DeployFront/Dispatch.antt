-- ===== src/DeployFront/Dispatch.antt =====
-- tools/deploy_v2.py: `deploy_v2` and what it does for a platform service and for an app service. The
-- calls of the backends are events, in order.
use infra.Prelude.{
  ℕ, max, ◌+◌, ◌-◌, ◌/◌, String, Bool, true, false, Option, none, some, List, [], ◌∷◌, str_eq,
  if◌then◌else◌,
}
use infra.Prelude.Dict.{contains}
use infra.Prelude.Text.{or_text}
use infra.Prelude.Effects.{
  value_error, runtime_error, Outcome, Run, pure, value, check, cause, call, ◌>>=◌, ◌>>◌,
}
use infra.DeployEnv.{absent, env_config}
use infra.DeployContract.{ServiceSpec, service_spec, make_deploy_target, validate_deploy_target}
use infra.DeployContract.DeployTypes.{deploy_type_spec, validate_iac_ref_form}
use infra.RefResolver.{classify_ref, resolve_to_sha}
use infra.IacRunnerClient.{Reply, status_of, trigger_platform_deploy, poll_platform_deploy_status}
use infra.DeployFront.{infra2_repo, normalize_expected_sha, assert_iac_ref_on_main}
use infra.DeployFront.Calls.{
  World, Coordinate, Event, triggered, previewed, deployed, PreviewRequest, FixedRequest,
  runner_detail, preview_detail, fixed_detail, DeployV2Result, enforce_data_lane_red_lines,
}
use infra.DeployFront.AppTarget.{AppTarget, app_target, clone_ref}
use infra.DeployFront.Images.{wait_for_image_dependencies}

abbrev pub or_string : Option String → String → String
or_string none t = t
or_string (some s) t = or_text s t

-- `_poll_attempts_for_timeout`
unfoldable pub poll_attempts_for_timeout : (timeout interval : ℕ) → ℕ
poll_attempts_for_timeout timeout interval = max 1 ((max 1 timeout + interval - 1) / interval)

abbrev pub runner_env : String → String
runner_env env = if str_eq env "prod" then "production" else "staging"

-- The poll after a trigger, if the caller waits.
abbrev pub settled :
    World → Coordinate → (env ref : String) → List String → Reply → Run Event (Option Reply)
settled w c env ref names reply =
    let polled = call (
      poll_platform_deploy_status w.runner_status env ref (some names) reply.deployment_id
        (or_string c.iac_runner_url w.runner_url) (or_string c.iac_webhook_secret w.webhook_secret)
        c.triggered_by (poll_attempts_for_timeout c.timeout 10)) in
    if c.wait
    then (polled >>= λ final.
        check (str_eq (status_of final) "completed") runtime_error >> pure (some final))
    else pure none

abbrev pub fire :
    World → Coordinate → (env ref : String) → List String → Run Event (Reply × Option Reply)
fire w c env ref names =
    trigger_platform_deploy triggered w.runner env ref names
      (or_string c.iac_runner_url w.runner_url) (or_string c.iac_webhook_secret w.webhook_secret)
      c.triggered_by false
    >>= λ reply. (settled w c env ref names reply >>= λ final. pure (reply, final))

abbrev pub is_fixed : String → Bool
is_fixed env = contains env ("staging" ∷ "prod" ∷ [])

-- `_deploy_platform`
unfoldable pub deploy_platform : World → Coordinate → ServiceSpec → Run Event DeployV2Result
unfolding deploy_type_spec resolve_to_sha make_deploy_target validate_deploy_target
    enforce_data_lane_red_lines trigger_platform_deploy poll_platform_deploy_status
    poll_attempts_for_timeout
deploy_platform w c spec = value (deploy_type_spec c.deploy_type) >>= λ type_spec.
    check (is_fixed type_spec.env) value_error
    >> (value (resolve_to_sha w.ls_remote infra2_repo c.iac_ref) >>= λ iac_sha.
        value (make_deploy_target w.attrs c.service type_spec.env iac_sha iac_sha none absent)
        >>= λ target.
            value (validate_deploy_target target spec)
            >> (value (enforce_data_lane_red_lines target c.code_reviewed) >>= λ data_lane.
                let env = runner_env type_spec.env in
                let names = c.service ∷ [] in
                fire w c env iac_sha names >>= λ (reply, final). pure (record {
                  target = target;
                  data_lane = data_lane;
                  backend = "iac-runner";
                  detail = runner_detail env iac_sha names reply final;
                })))

-- The two backends of an app service, with what is resolved by then.
abbrev pub preview_request : Coordinate → AppTarget → (domain : String) → PreviewRequest
preview_request c a domain = record {
  alias_kind = a.spec.alias_kind;
  alias_value = a.alias_value;
  code = a.resolved.sha;
  service = c.service;
  image_ref = a.resolved.image_ref;
  iac_ref = a.target.iac_ref;
  domain = domain;
  branch = clone_ref a.iac_form c.iac_ref;
  wait = c.wait;
  health_timeout = c.timeout;
}

abbrev pub send_preview :
    World → Coordinate → ServiceSpec → AppTarget → (domain : String) → Run Event DeployV2Result
send_preview w c svc a domain =
    let request = preview_request c a domain in
    check svc.supports_preview value_error
    >> (cause (previewed request) (w.preview_up request) >>= λ result. pure (record {
      target = a.target;
      data_lane = a.data_lane;
      backend = "preview-lifecycle";
      detail = preview_detail result a.resolved.image_ref;
    }))

abbrev pub fixed_request : Coordinate → AppTarget → (domain : String) → FixedRequest
fixed_request c a domain = record {
  env = a.target.env;
  sha = a.resolved.sha;
  domain = domain;
  service = c.service;
  image_ref = a.resolved.image_ref;
  iac_ref = a.target.iac_ref;
  branch = clone_ref a.iac_form c.iac_ref;
  wait = c.wait;
  timeout = c.timeout;
  staging_validated = c.staging_validated;
  break_glass = c.break_glass;
  verify_vault = c.verify_vault;
  verify_config = c.verify_config;
  verify_ingestion = c.verify_ingestion;
}

abbrev pub send_fixed :
    World → Coordinate → AppTarget → (domain : String) → Run Event DeployV2Result
send_fixed w c a domain =
    let request = fixed_request c a domain in
    cause (deployed request) (w.deploy_fixed request) >>= λ plan. pure (record {
      target = a.target;
      data_lane = a.data_lane;
      backend = "deploy-primitive";
      detail = fixed_detail plan a.resolved.image_ref a.target.iac_ref;
    })

-- `_wait_for_image_dependencies` for the images of a service
abbrev pub images_ready :
    World → Coordinate → ServiceSpec → (image_ref : String) → Outcome (Unit {0})
images_ready w c svc image_ref =
    wait_for_image_dependencies w.floats (w.artifacts image_ref) svc.image_repositories w.env_wait
      w.env_poll c.image_wait_seconds c.image_poll_seconds

-- The rest of `deploy_v2` for an app service.
unfoldable pub deploy_app :
    World
    → Coordinate
    → ServiceSpec
    → (expected : Option String) (domain : String) → Run Event DeployV2Result
unfolding app_target wait_for_image_dependencies env_config
deploy_app w c svc expected domain = app_target w c expected >>= λ a.
    call (images_ready w c svc a.resolved.image_ref)
    >> (value (env_config a.target.env) >>= λ cfg.
        if cfg.dynamic then send_preview w c svc a domain else send_fixed w c a domain)

abbrev pub is_absent : Option String → Bool
is_absent none = true
is_absent (some _) = false

abbrev pub effective_domain : World → Coordinate → String
effective_domain w c = elim (w.domain_for_service c.service) [
  | none ↦ c.domain
  | some own ↦ or_text own c.domain
]

unfoldable pub deploy_v2 : World → Coordinate → Run Event DeployV2Result
unfolding service_spec normalize_expected_sha classify_ref validate_iac_ref_form
    assert_iac_ref_on_main deploy_platform deploy_app
deploy_v2 w c = value (service_spec w.attrs c.service) >>= λ svc.
    value (normalize_expected_sha c.expected_sha) >>= λ expected.
    value (classify_ref c.iac_ref) >>= λ iac_form.
    value (validate_iac_ref_form c.deploy_type iac_form)
    >> call (assert_iac_ref_on_main w.compare c.iac_ref c.deploy_type)
    >> (if svc.iac_pinned
        then check (is_absent expected) value_error >> deploy_platform w c svc
        else deploy_app w c svc expected (effective_domain w c))
