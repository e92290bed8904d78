-- ===== src/Rollout/Examples.antt =====
-- A rollout that is seen on the third poll, under the flags of the three callers.
use infra.Prelude.{
  ℕ, zero, suc, ◌+◌, ◌*◌, String, ◌≡◌, ◌≢◌, refl, true, none, some, List, [], ◌∷◌, arith,
}
use infra.Prelude.Text.Order.{sorted}
use infra.Rollout.{
  Deployment, done, result, Flags, Outcome, new_ids, newest, settle, at_deadline,
  wait_for_deployment,
}
use infra.Rollout.Waiting.{wait_for_deployment-ne-none}
use infra.Rollout.Outcomes.{EndsAt, wait_for_deployment-EndsAt}
use infra.Prelude.Text.{lower}

abbrev promote : Flags
promote = record { require_terminal = true; raise_on_error = true; raise_on_timeout = true }

abbrev record_of : String → String → Deployment
record_of id status = record {
  deployment_id = id;
  id = "";
  status = status;
  created_at = "2026-07-01";
  started_at = "";
}

abbrev answers : ℕ → List Deployment
answers zero = record_of "old" "done" ∷ []
answers (suc zero) = record_of "new" "running" ∷ record_of "old" "done" ∷ []
answers (suc (suc n)) = record_of "new" "Done" ∷ record_of "old" "done" ∷ []

abbrev clock : ℕ → ℕ
clock n = 100 + n * 5

abbrev finished : Outcome
finished = result (record {
  status = done;
  deployment = some (record_of "new" "Done");
  new_ids = "new" ∷ [];
  attempts = 3;
})

promote_runs : wait_for_deployment promote ("old" ∷ []) answers clock 100 60 ≡ some finished
unfolding wait_for_deployment settle at_deadline newest new_ids sorted lower
promote_runs = refl

wait_for_deployment-ne-none_example :
    wait_for_deployment promote ("old" ∷ []) answers clock 100 60 ≢ none
wait_for_deployment-ne-none_example =
    wait_for_deployment-ne-none promote ("old" ∷ []) answers clock 5 (λ n. omega arith)
      (omega arith) 100 60 (omega arith)

wait_for_deployment-EndsAt_example :
    (n : ℕ) × EndsAt promote ("old" ∷ []) answers clock 160 0 n finished
wait_for_deployment-EndsAt_example =
    wait_for_deployment-EndsAt promote ("old" ∷ []) answers clock 100 60 finished promote_runs
