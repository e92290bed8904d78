-- ===== src/QueueGuard/Examples.antt =====
-- An armed sweep over one stuck deployment, and the guard's theorems there.
use infra.Prelude.{ℕ, String, ◌≡◌, true, some, List, [], ◌∷◌}
use infra.Prelude.Dict.{Dict, lookup}
use infra.DeployQueue.{StuckDeploy}
use infra.QueueGuard.{Settings, run_once}
use infra.QueueGuard.EnvFile.{load_lines, value_of, load_lines-value, assignment}
use infra.QueueGuard.Renotify.{Clock, run_once-Clock}
use infra.Prelude.Text.{contains_text, strip_of, split_once, strip}

abbrev armed : Settings
armed = record { ceiling = 1800; recheck_ceiling = 1800; armed = true; renotify = 1800 }

abbrev app : StuckDeploy
app = record {
  compose_id = "c1";
  compose_name = "app";
  deployment_id = "d1";
  age = 6_000_000;
  service_id = "finance_report/app";
  environment = "production";
}

abbrev alerted : Dict ℕ
alerted = ("c1", 5000) ∷ []

run_once-Clock_example :
    Clock armed 5060
      (some [])
      alerted
      "c1"
      (run_once armed 5060 (some (app ∷ [])) (some []) alerted)
run_once-Clock_example = run_once-Clock armed 5060 (some []) alerted "c1" (some (app ∷ []))

abbrev lines : List String
lines = "# secrets" ∷ "DOKPLOY_API_KEY=\"\"" ∷ "DOKPLOY_API_KEY=\"k1\"" ∷ "DOKPLOY_API_KEY=k2" ∷ []

load_lines-value_example : value_of "DOKPLOY_API_KEY" (load_lines lines []) ≡ "k1"
unfolding lookup assignment strip contains_text split_once strip_of
load_lines-value_example = load_lines-value "DOKPLOY_API_KEY" lines []
