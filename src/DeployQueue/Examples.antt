-- ===== src/DeployQueue/Examples.antt =====
-- A queue with two lingering records of one compose.
use infra.Prelude.{ℕ, String, ◌≡◌, refl, Option, none, [], ◌∷◌}
use infra.DeployQueue.{
  Value, null, number, text, Deployment, ComposeDeployments, parse_epoch, deployment_start_epoch,
  is_running, consider, oldest_stuck, find_stuck_deploys,
}
use infra.DeployQueue.Oldest.{Covers, find_stuck_deploys-Covers}
use infra.Prelude.Text.{lower, strip, all_chars}

abbrev no_iso : String → Option ℕ
no_iso s = none

abbrev record_of : String → Value → Deployment
record_of id started = record {
  deployment_id = id;
  status = " Running ";
  started_at = null;
  created_at = started;
  updated_at = null;
}

abbrev app : ComposeDeployments
app = record {
  compose_id = "c1";
  compose_name = "app";
  service_id = "finance_report/app";
  environment = "production";
  deployments =
      record_of "new" (number 9_000)
      ∷ record_of "old" (text "5000")
      ∷ record_of "older" (number 4_000)
      ∷ record_of "unknown" (text "soon")
      ∷ [];
}

find_oldest :
    find_stuck_deploys no_iso 10_000_000 1_800_000 (app ∷ [])
    ≡ record {
      compose_id = "c1";
      compose_name = "app";
      deployment_id = "older";
      age = 6_000_000;
      service_id = "finance_report/app";
      environment = "production";
    }
      ∷ []
unfolding find_stuck_deploys oldest_stuck consider is_running deployment_start_epoch parse_epoch
    lower strip all_chars
find_oldest = refl

find_stuck_deploys-Covers_example :
    Covers no_iso 10_000_000 1_800_000
      (app ∷ [])
      (find_stuck_deploys no_iso 10_000_000 1_800_000 (app ∷ []))
find_stuck_deploys-Covers_example = find_stuck_deploys-Covers no_iso 10_000_000 1_800_000 (app ∷ [])
