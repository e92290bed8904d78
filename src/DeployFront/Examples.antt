-- ===== src/DeployFront/Examples.antt =====
-- Runs of the front door in a world where everything answers.
use infra.Prelude.{str_eq}
use infra.Prelude.{if◌then◌else◌}
use infra.Prelude.{arith}
use infra.DeployFront.Dispatch.{poll_attempts_for_timeout}
use infra.IacRunnerClient.{poll_platform_deploy_status}
use infra.Prelude.Effects.{cause}
use infra.Prelude.Effects.{call}
use infra.IacRunnerClient.{trigger_platform_deploy}
use infra.Prelude.Effects.{value}
use infra.Prelude.Effects.{check}
use infra.Prelude.Effects.{◌>>◌}
use infra.Prelude.Effects.{◌>>=◌}
use infra.Prelude.{String, true, false, none, some, List, [], ◌∷◌, ltb, ◌≡◌, refl}
use infra.Prelude.Effects.{
  Outcome, ok, raised, http_error, value_error, runtime_error, first-Caused,
}
use infra.DeployEnv.{text}
use infra.DeployContract.{ServiceMeta}
use infra.IacRunnerClient.{Reply, Trigger, replied, object}
use infra.DeployFront.Calls.{World, Coordinate, triggered, deployed, FixedRequest}
use infra.DeployFront.Images.{
  Artifacts, wait_loop, Floats, ticks, negative, not_finite, env_number, wait_with,
}
use infra.DeployFront.Images.Waits.{Explained, wait_loop-Explained}
use infra.DeployFront.Images.Registry.{
  registry_image_parts, parse_bearer_authenticate, image_manifest_exists, Client,
}
use infra.DeployFront.Dispatch.{deploy_v2}
use infra.DeployFront.Production.{Gated, deploy_v2-Gated}
use infra.DeployFront.Delivered.{Delivered, deploy_v2-Delivered}
use infra.DeployFront.Batch.{deploy_platform_batch, Batched, deploy_platform_batch-Batched}

-- A `float` that reads three texts, in tenths of a second.
abbrev floats : Floats
floats = record {
  float_of = λ s.
      if str_eq s "0.5"
      then some (ticks 5)
      else if str_eq s "-1"
      then some negative
      else if str_eq s "inf"
      then some not_finite
      else none;
  ticks_per_second = 10;
}

abbrev commit : String
commit = "bbbbbbbbbbbbbbbbbbbbbbbbbbbbbbbbbbbbbbbb"

abbrev redis : ServiceMeta
redis = record {
  service = "redis";
  subdomain = none;
  prod_only = false;
  not_yet_in_production = false;
}

abbrev minio : ServiceMeta
minio = record redis { service = "minio" }

-- Images that are there from the second round on.
abbrev artifacts : Artifacts
artifacts = record { exists_image = λ round _. ok (ltb 0 round); delay = λ _. 3 }

abbrev done : Reply
done = record { status = some "completed"; deployment_id = none }

abbrev world : World
world = record {
  ls_remote = λ _ _.
      some
        "bbbbbbbbbbbbbbbbbbbbbbbbbbbbbbbbbbbbbbbb\trefs/tags/v1.2.3\nbbbbbbbbbbbbbbbbbbbbbbbbbbbbbbbbbbbbbbbb\trefs/heads/main\n";
  compare = λ _. ok (some "behind");
  attrs = ("platform/redis", redis) ∷ ("platform/minio", minio) ∷ [];
  domain_for_service = λ _. none;
  artifacts = λ _. artifacts;
  runner = λ _. replied 200 (object done);
  runner_status = λ _ _. replied 200 (object done);
  preview_up = λ r. ok (record {
    alias = "branch-main";
    compose_id = "c1";
    sha = r.code;
    url = "https://preview";
    healthy = true;
  });
  preview_down = λ _. raised http_error;
  deploy_fixed =
      λ r. ok (record { env = r.env; sha = r.sha; compose_id = "c2"; data_lane = "prod" });
  runner_url = "https://iac";
  webhook_secret = "secret";
  floats = floats;
  env_wait = "";
  env_poll = "0.5";
}

abbrev to_prod : Coordinate
to_prod = record {
  service = "finance_report/app";
  deploy_type = "prod";
  version_ref = text "v1.2.3";
  iac_ref = "v1.2.3";
  domain = "zitian.party";
  wait = true;
  staging_validated = true;
  break_glass = false;
  code_reviewed = some true;
  verify_vault = true;
  verify_config = true;
  verify_ingestion = false;
  timeout = 600;
  expected_sha = some "BBBBBBBBBBBBBBBBBBBBBBBBBBBBBBBBBBBBBBBB";
  repo = none;
  iac_runner_url = none;
  iac_webhook_secret = none;
  triggered_by = "test";
  image_wait_seconds = none;
  image_poll_seconds = none;
}

abbrev request : FixedRequest
request = record {
  env = "prod";
  sha = commit;
  domain = "zitian.party";
  service = "finance_report/app";
  image_ref = "v1.2.3";
  iac_ref = commit;
  branch = "v1.2.3";
  wait = true;
  timeout = 600;
  staging_validated = true;
  break_glass = false;
  verify_vault = true;
  verify_config = true;
  verify_ingestion = false;
}

prod_runs : (deploy_v2 world to_prod).0 ≡ deployed request ∷ []
unfolding deploy_v2 ◌>>=◌ value ◌>>◌ call check cause
prod_runs = refl

deploy_v2-Gated_example : Gated world to_prod (deployed request)
deploy_v2-Gated_example =
    deploy_v2-Gated world to_prod (deployed request)
      (first-Caused (deploy_v2 world to_prod) (deployed request) [] prod_runs)

deploy_v2-Delivered_example : Delivered world to_prod request
deploy_v2-Delivered_example =
    deploy_v2-Delivered world to_prod request
      (first-Caused (deploy_v2 world to_prod) (deployed request) [] prod_runs)

-- Nothing is sent without the review signal, from main, or for another sha.
unreviewed_runs :
    deploy_v2 world (record to_prod { code_reviewed = none }) ≡ ([], raised value_error)
unfolding deploy_v2 ◌>>=◌ value ◌>>◌ call check
unreviewed_runs = refl

main_runs : deploy_v2 world (record to_prod { iac_ref = "main" }) ≡ ([], raised value_error)
unfolding deploy_v2 ◌>>=◌ value ◌>>◌
main_runs = refl

diverged_runs :
    deploy_v2 (record world { compare = λ _. ok (some "diverged") }) to_prod
    ≡ ([], raised value_error)
unfolding deploy_v2 ◌>>=◌ value ◌>>◌ call
diverged_runs = refl

other_sha_runs :
    deploy_v2 world
      (record to_prod { expected_sha = some "aaaaaaaaaaaaaaaaaaaaaaaaaaaaaaaaaaaaaaaa" })
    ≡ ([], raised value_error)
unfolding deploy_v2 ◌>>=◌ value ◌>>◌ call check
other_sha_runs = refl

abbrev batch_trigger : Trigger
batch_trigger = record {
  env = "production";
  ref = commit;
  triggered_by = "test";
  wait = false;
  services = "platform/minio" ∷ "platform/redis" ∷ [];
}

abbrev both : List String
both = "platform/redis" ∷ "platform/minio" ∷ []

batch_runs : (deploy_platform_batch world to_prod both).0 ≡ triggered batch_trigger ∷ []
unfolding deploy_platform_batch ◌>>◌ check value trigger_platform_deploy cause call
    poll_platform_deploy_status poll_attempts_for_timeout
batch_runs = refl

-- A batch takes an IaC ref that a single deploy refuses: the main branch, for production.
batch_of_main_runs :
    (deploy_platform_batch world (record to_prod { iac_ref = "main" }) both).0
    ≡ triggered batch_trigger ∷ []
unfolding deploy_platform_batch ◌>>◌ check value trigger_platform_deploy cause call
    poll_platform_deploy_status poll_attempts_for_timeout
batch_of_main_runs = refl

single_of_main_runs :
    deploy_v2 world
      (record to_prod { service = "platform/redis"; iac_ref = "main"; expected_sha = none })
    ≡ ([], raised value_error)
unfolding deploy_v2 ◌>>=◌ value ◌>>◌
single_of_main_runs = refl

deploy_platform_batch-Batched_example :
    (t : Trigger) × ((triggered batch_trigger ≡ triggered t) × Batched world to_prod both t)
deploy_platform_batch-Batched_example =
    deploy_platform_batch-Batched world to_prod both (triggered batch_trigger) (
      first-Caused (deploy_platform_batch world to_prod both) (triggered batch_trigger) []
        batch_runs)

images_run : wait_loop artifacts ("a" ∷ "b" ∷ []) 10 60 61 0 0 ≡ some (ok tt)
unfolding wait_loop
images_run = refl

images_never_there :
    wait_loop (record artifacts { exists_image = λ _ _. raised http_error }) ("a" ∷ []) 10 60 61 0 0
    ≡ some (raised runtime_error)
unfolding wait_loop
images_never_there = refl

-- A minute, and half a second between two rounds, in tenths of a second.
wait_loop-Explained_example :
    (o : Outcome (Unit {0})) × ((wait_loop artifacts ("a" ∷ "b" ∷ []) 5 600 121 0 0 ≡ some o)
      × Explained artifacts ("a" ∷ "b" ∷ []) 5 600 o)
wait_loop-Explained_example = wait_loop-Explained artifacts ("a" ∷ "b" ∷ []) 5 600 120 (omega arith)

bearer_runs :
    parse_bearer_authenticate "Bearer realm=\"https://ghcr.io/token\", service=\"ghcr.io\""
    ≡ some (("realm", "https://ghcr.io/token") ∷ ("service", "ghcr.io") ∷ [])
unfolding parse_bearer_authenticate
bearer_runs = refl

parts_run : registry_image_parts "ghcr.io/a/b" ≡ some ("ghcr.io", "a/b")
unfolding registry_image_parts
parts_run = refl

-- A registry that wants a token for the manifest.
abbrev client : Client
client = record {
  manifest = λ _ token. ok (record {
    status_code = elim token [ none ↦ 401 | some _ ↦ 404 ];
    www_authenticate = "Bearer realm=\"https://ghcr.io/token\"";
  });
  bearer = λ _ _. ok (record { token = some "t"; access_token = none });
}

manifest_runs : image_manifest_exists client "ghcr.io/a/b" "v1" ≡ ok false
unfolding image_manifest_exists
manifest_runs = refl

-- The numbers that the environment variables may not be.
negative_refused : env_number floats " -1 " 300 ≡ none
unfolding env_number
negative_refused = refl

default_taken : env_number floats " " 300 ≡ some 3000
unfolding env_number
default_taken = refl

infinite_refused : wait_with artifacts ("a" ∷ []) not_finite (ticks 5) ≡ raised value_error
unfolding wait_with
infinite_refused = refl
