-- ===== src/DeployFront/Cli.antt =====
-- tools/deploy_v2.py, `main`: the command line of the front door, and what it calls. Of `argparse` the
-- model has what `main` declares: options with one value, and flags. A value that begins with a dash is
-- refused, an abbreviated option and `--option=value` are not read.
pub mod Options
mod Examples
use infra.Prelude.{
  ℕ, zero, suc, String, Bool, true, false, not, ◌&&◌, Option, none, some, List, [], ◌∷◌, map,
  str_eq, starts_with, if◌then◌else◌, keep_if, ltb, length,
}
use infra.Prelude.Text.{strip, is_space, all_chars}
use infra.Prelude.Text.Split.{split}
use infra.Prelude.Effects.{
  Run, Outcome, ok, raised, value_error, value, check, cause, pure, ◌>>=◌, ◌>>◌,
}
use infra.DeployEnv.{AliasValue, text}
use infra.DeployContract.{service_spec}
use infra.DeployContract.DeployTypes.{DeployTypeSpec, deploy_type_spec}
use infra.DeployFront.{default_main}
use infra.DeployFront.Refs.{is_kind}
use infra.DeployFront.Images.{Seconds}
use infra.DeployFront.Calls.{
  World, Coordinate, Event, removed, DownRequest, DownResult, DeployV2Result,
}
use infra.DeployFront.Dispatch.{deploy_v2}
use infra.DeployFront.Batch.{BatchResult, deploy_platform_batch}

-- What the command line says.
pub record Args : Type 0 where
  pub service : String
  pub deploy_type : String
  pub version_ref : String
  pub iac_ref : String
  pub domain : String
  pub no_wait : Bool
  pub down : Bool
  pub staging_validated : Bool
  pub break_glass : Bool
  pub code_reviewed : Bool
  pub skip_vault_check : Bool
  pub no_verify_config : Bool
  pub verify_ingestion : Bool
  pub timeout : ℕ
  pub expected_sha : Option String
  pub repo : Option String
  pub image_wait_seconds : Option Seconds
  pub image_poll_seconds : Option Seconds

-- `True if args.code_reviewed else None`
abbrev pub signal : Bool → Option Bool
signal true = some true
signal false = none

-- The coordinate that `main` passes on.
abbrev pub coordinate_of : Args → Coordinate
coordinate_of args = record {
  service = args.service;
  deploy_type = args.deploy_type;
  version_ref = text args.version_ref;
  iac_ref = args.iac_ref;
  domain = args.domain;
  wait = not args.no_wait;
  staging_validated = args.staging_validated;
  break_glass = args.break_glass;
  code_reviewed = signal args.code_reviewed;
  verify_vault = not args.skip_vault_check;
  verify_config = not args.no_verify_config;
  verify_ingestion = args.verify_ingestion;
  timeout = args.timeout;
  expected_sha = args.expected_sha;
  repo = args.repo;
  iac_runner_url = none;
  iac_webhook_secret = none;
  triggered_by = "deploy_v2";
  image_wait_seconds = args.image_wait_seconds;
  image_poll_seconds = args.image_poll_seconds;
}

-- `_validate_domain` of the preview backend
abbrev pub is_domain : String → Bool
is_domain domain = not (str_eq domain "") && all_chars (λ c. not (is_space c)) domain

-- What `main` prints, by what it called.
pub data Printed : Type 0 where
  torn_down : DownResult → Printed
  deployed_batch : BatchResult → Printed
  deployed_one : DeployV2Result → Printed

-- The alias that `--down` names.
abbrev pub down_value : DeployTypeSpec → String → AliasValue
down_value spec version_ref =
    if is_kind spec.alias_kind "branch"
    then text (default_main (text version_ref))
    else text version_ref

unfoldable pub tear_down : World → Args → Run Event Printed
unfolding deploy_type_spec default_main all_chars is_space
tear_down w args = value (deploy_type_spec args.deploy_type) >>= λ spec.
    check (str_eq spec.env "preview") value_error
    >> check (is_domain args.domain) value_error
    >> (let request : DownRequest = record {
      alias_kind = spec.alias_kind;
      alias_value = down_value spec args.version_ref;
      domain = args.domain;
      service = args.service;
    } in
        cause (removed request) (w.preview_down request) >>= λ result. pure (torn_down result))

-- `[s.strip() for s in args.service.split(",") if s.strip()]`
unfoldable pub service_names : String → List String
unfolding strip split
service_names service = keep_if (λ s. not (str_eq s "")) (map strip (split b',' service))

abbrev pub run_batch : World → Args → Run Event Printed
run_batch w args =
    deploy_platform_batch w (coordinate_of args) (service_names args.service) >>= λ result.
    pure (deployed_batch result)

-- The service must be known before the client of Dokploy is made.
abbrev pub run_one : World → Args → Run Event Printed
run_one w args = value (service_spec w.attrs args.service) >>= λ spec.
    deploy_v2 w (coordinate_of args) >>= λ result. pure (deployed_one result)

unfoldable pub run_args : World → Args → Run Event Printed
unfolding tear_down service_names deploy_platform_batch service_spec deploy_v2
run_args w args =
    if args.down
    then tear_down w args
    else if ltb 1 (length (service_names args.service))
    then run_batch w args
    else run_one w args

-- The exit code: all exceptions of the model are caught.
abbrev pub exit_code : Outcome Printed → ℕ
exit_code (ok _) = 0
exit_code (raised _) = 1
