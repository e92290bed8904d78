-- ===== src/IacRunnerClient/Examples.antt =====
-- Runs of the client against given answers.
use infra.Prelude.{ℕ, zero, suc, max, String, true, false, none, some, [], ◌∷◌, ◌≡◌, refl, ◌↔◌}
use infra.Prelude.Text.{all_chars}
use infra.Prelude.Effects.{ok, raised, timeout_error, cause, check, ◌>>◌, value_error}
use infra.IacRunnerClient.{
  Reply, Answer, replied, object, empty, StatusQuery, trigger_platform_deploy,
  poll_platform_deploy_status, may_poll, query_of,
}
use infra.IacRunnerClient.Polls.{Settles, poll_platform_deploy_status-Settles}

abbrev commit : String
commit = "bbbbbbbbbbbbbbbbbbbbbbbbbbbbbbbbbbbbbbbb"

abbrev reply : String → Reply
reply status = record { status = some status; deployment_id = none }

-- Not visible yet, then running, then done.
abbrev answers : StatusQuery → ℕ → Answer
answers query zero = replied 404 (object (reply "not_found"))
answers query (suc zero) = replied 200 (object (reply "Running"))
answers query _ = replied 200 (object (reply "Completed"))

poll_runs :
    poll_platform_deploy_status answers "staging" commit
      (some ("platform/redis" ∷ []))
      none
      "https://iac"
      "secret"
      "test"
      5
    ≡ ok (reply "Completed")
unfolding poll_platform_deploy_status
poll_runs = refl

poll_times_out :
    poll_platform_deploy_status answers "staging" commit
      (some ("platform/redis" ∷ []))
      none
      "https://iac"
      "secret"
      "test"
      2
    ≡ raised timeout_error
unfolding poll_platform_deploy_status
poll_times_out = refl

no_secret_runs :
    poll_platform_deploy_status answers "staging" commit
      (some ("platform/redis" ∷ []))
      none
      "https://iac"
      ""
      "test"
      2
    ≡ raised value_error
unfolding poll_platform_deploy_status
no_secret_runs = refl

trigger_runs :
    trigger_platform_deploy
      (λ t. t)
      (λ _. replied 202 empty)
      "staging"
      commit
      (" platform/redis" ∷ "platform/minio" ∷ "platform/redis" ∷ [])
      "https://iac"
      "secret"
      "test"
      false
    ≡ (
      record {
        env = "staging";
        ref = commit;
        triggered_by = "test";
        wait = false;
        services = "platform/minio" ∷ "platform/redis" ∷ [];
      }
          ∷ [],
      ok (record { status = none; deployment_id = none }),
    )
unfolding trigger_platform_deploy ◌>>◌ check all_chars cause
trigger_runs = refl

poll_platform_deploy_status-Settles_example :
    (poll_platform_deploy_status answers "staging" commit
        (some ("platform/redis" ∷ []))
        none
        "https://iac"
        "secret"
        "test"
        5
      ≡ ok (reply "Completed"))
    ↔ ((may_poll
            (query_of "staging" commit (some ("platform/redis" ∷ [])) none "test")
            "secret"
            "https://iac"
          ≡ true)
        × Settles
            (answers (query_of "staging" commit (some ("platform/redis" ∷ [])) none "test"))
            (max 1 5)
            0
            (reply "Completed"))
poll_platform_deploy_status-Settles_example =
    poll_platform_deploy_status-Settles answers "staging" commit (some ("platform/redis" ∷ [])) none
      "https://iac" "secret" "test" 5 (reply "Completed")
