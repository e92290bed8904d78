-- ===== src/BreakdownWatch/Examples.antt =====
-- A run of the watch, and its theorems at concrete sweeps.
use infra.Prelude.{◌≡◌, refl, true, false, none, some, [], ◌∷◌, arith}
use infra.Prelude.Dict.{lookup, contains}
use infra.Recency.{Thresholds, evaluate_consecutive_hysteresis}
use infra.ContainerBreakdown.{Breakdown, build_breakdown_alert_payload}
use infra.ServiceIdentity.{build, alert_labels}
use infra.Prelude.Text.{first_then, split_once, strip, lower, replace_char}
use infra.BreakdownWatch.{State, run_once}
use infra.BreakdownWatch.Refinement.{
  Refines, view, IsWatched, IsWatched-nil, run_once-Refines, run_once-IsWatched,
}
use infra.BreakdownWatch.Lookups.{names}
use infra.BreakdownWatch.Refused.{any_refused, run_once-refused}
use infra.BreakdownWatch.Labels.{second, third, payloads_of, recovered-changed}

abbrev prompt : Thresholds
prompt = record { failure_threshold = 1; recovery_threshold = 1; renotify_seconds = 1800 }

abbrev vault : Breakdown
vault = record {
  container = "vault";
  state = "restarting";
  reason = "permission denied (Vault / secret access)";
  detail = "permission denied";
  service_id = "bootstrap/vault";
  component = "vault";
  environment = "production";
}

-- The same container, a sweep later.
abbrev unhealthy : Breakdown
unhealthy = record vault { state = "unhealthy" }

abbrev open_incident : State
open_incident = record {
  active = true;
  bad_streak = 1;
  good_streak = 0;
  last_alert_at = 60;
  context = some vault;
}

first_fires : (run_once prompt 60 (some (vault ∷ [])) []).states ≡ ("vault", open_incident) ∷ []
unfolding run_once lookup evaluate_consecutive_hysteresis build_breakdown_alert_payload build
    alert_labels first_then split_once strip lower replace_char
first_fires = refl

run_once-Refines_example : Refines prompt 60 (vault ∷ []) [] (IsWatched-nil prompt) "vault"
run_once-Refines_example = run_once-Refines prompt 60 (vault ∷ []) [] (IsWatched-nil prompt) "vault"

run_once-IsWatched_example : IsWatched prompt (run_once prompt 60 (some (vault ∷ [])) []).states
run_once-IsWatched_example = run_once-IsWatched prompt 60 (vault ∷ []) [] (IsWatched-nil prompt)

recovered-changed_example :
    ((second prompt 120 180 open_incident unhealthy).posted ≡ [])
    × (((third prompt 120 180 open_incident unhealthy).recovered ≡ unhealthy ∷ [])
        × ((third prompt 120 180 open_incident unhealthy).posted
            ≡ payloads_of prompt 120 180 open_incident unhealthy
                (build_breakdown_alert_payload false (unhealthy ∷ []))))
recovered-changed_example =
    recovered-changed prompt 120 180 open_incident unhealthy refl (omega arith) (omega arith)

-- A Compose service may be called so, but a component may not.
abbrev odd : Breakdown
odd = record vault { container = "odd"; component = "_odd" }

refused_runs : any_refused (run_once prompt 60 (some (vault ∷ odd ∷ [])) []).fresh ≡ true
unfolding run_once evaluate_consecutive_hysteresis lookup build_breakdown_alert_payload build
    first_then split_once strip lower replace_char alert_labels
refused_runs = refl

vault_fires :
    contains "vault" (names (run_once prompt 60 (some (vault ∷ odd ∷ [])) []).fresh) ≡ true
unfolding run_once evaluate_consecutive_hysteresis lookup build_breakdown_alert_payload build
    first_then split_once strip lower replace_char alert_labels
vault_fires = refl

run_once-refused_example :
    ((run_once prompt 60 (some (vault ∷ odd ∷ [])) []).posted ≡ [])
    × (((run_once prompt 60 (some (vault ∷ odd ∷ [])) []).result ≡ none)
        × ((view (run_once prompt 60 (some (vault ∷ odd ∷ [])) []).states "vault").last_alert_at
            ≡ 60))
run_once-refused_example =
    run_once-refused prompt 60 (vault ∷ odd ∷ []) [] (IsWatched-nil prompt) "vault" refused_runs
      vault_fires
