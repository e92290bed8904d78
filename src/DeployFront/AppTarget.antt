-- ===== src/DeployFront/AppTarget.antt =====
-- tools/deploy_v2.py: what `deploy_v2` settles of an app service before it waits for the images. `none`
-- is a `ValueError`.
use infra.Prelude.{String, Bool, true, not, ◌&&◌, ◌||◌, Option, none, some, str_eq, if◌then◌else◌}
use infra.Prelude.Dict.{keys, contains}
use infra.Prelude.Text.{lower, strip}
use infra.Prelude.Effects.{Run, value_error, value, check, pure, ◌>>=◌, ◌>>◌}
use infra.DeployEnv.{AliasValue, EnvConfig, env_config}
use infra.DeployContract.{DeployTarget, services, service_spec, validate_deploy_target}
use infra.DeployContract.DeployTypes.{DeployTypeSpec, deploy_type_spec, make_target}
use infra.RefResolver.{ResolvedRef, classify_ref, resolve_to_sha}
use infra.DeployFront.{repo_for_service, infra2_repo, infra2_default_branch}
use infra.DeployFront.Refs.{resolve_for_type}
use infra.DeployFront.Calls.{World, Coordinate, Event, enforce_data_lane_red_lines}

-- The check of `--expected-sha` for a resolved ref.
abbrev pub is_expected : Option String → ResolvedRef → Bool
is_expected none resolved = true
is_expected (some sha) resolved = str_eq (lower resolved.sha) sha

-- A sha cannot be cloned.
abbrev pub clone_ref : (iac_form iac_ref : String) → String
clone_ref iac_form iac_ref = if str_eq iac_form "sha" then infra2_default_branch else strip iac_ref

abbrev pub repo_of : Coordinate → String
repo_of c = elim c.repo [ none ↦ repo_for_service c.service | some repo ↦ repo ]

-- What is known of a deploy of an app service once it may go on.
pub record AppTarget : Type 0 where
  pub spec : DeployTypeSpec
  pub resolved : ResolvedRef
  pub alias_value : AliasValue
  pub iac_form : String
  pub target : DeployTarget
  pub data_lane : String

-- The staging-first gate of an environment.
abbrev pub is_staged : Coordinate → EnvConfig → Bool
is_staged c cfg = not (cfg.requires_staging_first && not (c.staging_validated || c.break_glass))

-- The part of `deploy_v2` for an app service, up to the wait for the images.
unfoldable pub app_target : World → Coordinate → (expected : Option String) → Run Event AppTarget
unfolding deploy_type_spec resolve_for_type classify_ref resolve_to_sha make_target service_spec
    validate_deploy_target enforce_data_lane_red_lines env_config lower
app_target w c expected = value (deploy_type_spec c.deploy_type) >>= λ spec.
    value (resolve_for_type w.ls_remote spec c.version_ref (repo_of c))
    >>= λ (resolved, alias_value).
        check (is_expected expected resolved) value_error
        >> value (classify_ref c.iac_ref)
        >>= λ iac_form. value (resolve_to_sha w.ls_remote infra2_repo c.iac_ref) >>= λ iac_sha.
            value (make_target w.attrs c.deploy_type c.service resolved.sha iac_sha alias_value)
            >>= λ target. value (service_spec w.attrs c.service) >>= λ svc.
                value (validate_deploy_target target svc)
                >> value (enforce_data_lane_red_lines target c.code_reviewed)
                >>= λ data_lane. value (env_config spec.env) >>= λ cfg.
                    check (is_staged c cfg) value_error
                    >> check (contains c.service (keys services)) value_error
                    >> pure (record {
                      spec = spec;
                      resolved = resolved;
                      alias_value = alias_value;
                      iac_form = iac_form;
                      target = target;
                      data_lane = data_lane;
                    })
