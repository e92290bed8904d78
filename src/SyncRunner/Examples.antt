-- ===== src/SyncRunner/Examples.antt =====
-- Syncs at concrete hosts: the witnesses of the runner's properties.
use infra.Prelude.Effects.{cause}
use infra.Prelude.Effects.{check}
use infra.Prelude.Effects.{◌>>◌}
use infra.Prelude.Effects.{value}
use infra.Prelude.Effects.{pure}
use infra.Prelude.Effects.{call}
use infra.Prelude.Text.{all_chars}
use infra.Prelude.Effects.{◌>>=◌}
use infra.Prelude.{String, true, false, none, some, List, [], ◌∷◌, ◌≡◌, refl, inl}
use infra.Prelude.Effects.{ok, Every}
use infra.Prelude.Text.{lower}
use infra.SyncRunner.Environments.{Overrides, deploy_env_overrides}
use infra.SyncRunner.Checkout.{Finished, Git}
use infra.SyncRunner.Task.{Host}
use infra.SyncRunner.Sync.{SyncResult, sync_services, own_dir_services}
use infra.SyncRunner.Exact.{Isolated, sync_services-Isolated}
use infra.SyncRunner.Diagnosis.{diagnose_failure}
use infra.SyncRunner.Reports.{tail_text}
use infra.SyncRunner.Complete.{Synced, sync_services-Synced}
use infra.SyncRunner.Apart.{deploy_env_overrides-Apart}

abbrev commit : String
commit = "0123456789ABCDEF0123456789abcdef01234567"

abbrev done : String → Finished
done stdout = record { success = true; stdout = stdout; stderr = "" }

abbrev git : Git
git = record {
  is_cloned = true;
  head_before = ok none;
  clone = ok (done "");
  reset = ok (done "");
  clean = ok (done "");
  fetch = ok (done "");
  rev_parse = λ _. ok (done "0123456789abcdef0123456789abcdef01234567\n");
  checkout = λ _. ok (done "");
  reset_to = λ _. ok (done "");
  head_after = ok (some (done "0123456789abcdef0123456789abcdef01234567\n"));
  diff = λ _ _. ok (done "");
}

abbrev host : Host
host = record {
  environ = ("VAULT_ROOT_TOKEN", "token") ∷ ("DEPLOY_ENV", "local") ∷ [];
  git_branch = "main";
  deploy_timeout = "600";
  git = git;
  approle_token = λ _ _ _. none;
  child = λ i. ok (record { success = false; stdout = ""; stderr = "Error" });
  discovered = ("platform/redis", "redis.sync") ∷ ("platform/minio", "minio.sync") ∷ [];
  manifest = none;
}

abbrev requested : List String
requested = "platform/redis" ∷ "bootstrap/vault" ∷ []

abbrev synced : SyncResult
synced = record {
  env = "prod";
  ref = some commit;
  requested_services = "bootstrap/vault" ∷ "platform/redis" ∷ [];
  results =
      record {
        service = "bootstrap/vault";
        task = none;
        success = true;
        skipped = true;
        stdout = "";
        stderr = "";
      }
      ∷ record {
        service = "platform/redis";
        task = some "redis.sync";
        success = false;
        skipped = false;
        stdout = "";
        stderr = "Error";
      }
      ∷ [];
  repo_updated = true;
  error = "";
}

sync_services-Isolated_example :
    Every (Isolated "prod" (lower commit)) (sync_services host requested (some commit) "prod")
unfolding all_chars
sync_services-Isolated_example = sync_services-Isolated host requested commit "prod" refl

synced_returns : (sync_services host requested (some commit) "prod").1 ≡ ok synced
unfolding sync_services ◌>>=◌ call pure all_chars value ◌>>◌ check cause
synced_returns = refl

sync_services-Synced_example : Synced (sync_services host requested (some commit) "prod").0 synced
sync_services-Synced_example =
    sync_services-Synced host requested (some commit) "prod" synced synced_returns

abbrev production : Overrides
production = record { deploy_env = "production"; env_suffix = ""; env_domain_suffix = "" }

prod_accepted : deploy_env_overrides " Prod" ≡ some production
unfolding deploy_env_overrides
prod_accepted = refl

production_accepted : deploy_env_overrides "production" ≡ some production
unfolding deploy_env_overrides
production_accepted = refl

deploy_env_overrides-Apart_example : production ≡ production
deploy_env_overrides-Apart_example =
    deploy_env_overrides-Apart " Prod" "production" production production prod_accepted
      production_accepted (inl refl)

-- A file of `truealpha` selects nothing where the dependency graph cannot be read.
truealpha_missing : own_dir_services ("truealpha/truealpha/01.web/compose.yaml" ∷ []) ≡ []
unfolding own_dir_services
truealpha_missing = refl

-- A child without a module, without a secret (the group of the pattern is stripped to nothing), and
-- with a refused Dokploy key next to a word of Vault.
module_missing :
    (diagnose_failure "ModuleNotFoundError:  No module named 'yaml'" "").summary
    ≡ "IaC Runner runtime is missing Python module: yaml"
unfolding diagnose_failure
module_missing = refl

secret_unnamed :
    (diagnose_failure "Secret not found: " "").summary ≡ "Vault secret path is missing: "
unfolding diagnose_failure
secret_unnamed = refl

dokploy_first :
    (diagnose_failure "vault: permission denied\nDokploy: 401" "").error_kind
    ≡ "dokploy_auth_failed"
unfolding diagnose_failure
dokploy_first = refl

last_line_shown : (diagnose_failure "one\n two " "").summary ≡ "two"
unfolding diagnose_failure
last_line_shown = refl

tail_shown : tail_text 2 "abcd" ≡ "...<truncated 2 chars>...\ncd"
unfolding tail_text
tail_shown = refl
