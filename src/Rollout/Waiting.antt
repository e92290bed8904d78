-- ===== src/Rollout/Waiting.antt =====
-- The wait ends, by its deadline at the latest.
use infra.Prelude.{ℕ, zero, suc, ◌+◌, ◌≤◌, ◌<◌, String, ◌≢◌, none, List, arith}
use infra.Rollout.{Deployment, Flags, at_deadline, wait_loop, wait_for_deployment}

module _ (flags : Flags) (before_ids : List String) (answers : ℕ → List Deployment) (clock : ℕ → ℕ)
    (interval : ℕ) where
  wait_loop-ne-none :
      ((n : ℕ) → clock n + interval ≤ clock (n + 1))
      → 0 < interval
      → (fuel deadline n : ℕ) → deadline ≤ clock n + fuel
      → wait_loop flags before_ids answers clock (suc fuel) deadline n ≢ none
  unfolding wait_loop at_deadline
  wait_loop-ne-none ticks pos zero deadline n enough = ground arith
  wait_loop-ne-none ticks pos (suc fuel) deadline n enough =
      ground (arith, ticks n, wait_loop-ne-none ticks pos fuel deadline (n + 1))

  -- If the clock moves by the interval, at least 1, from one attempt to the next, the wait from a
  -- `start` that the first reading is not before ends with a result or an exception.
  pub wait_for_deployment-ne-none :
      ((n : ℕ) → clock n + interval ≤ clock (n + 1))
      → 0 < interval
      → (start timeout_seconds : ℕ) → start ≤ clock 0
      → wait_for_deployment flags before_ids answers clock start timeout_seconds ≢ none
  unfolding wait_for_deployment
  wait_for_deployment-ne-none ticks pos start timeout_seconds begun =
      wait_loop-ne-none ticks pos timeout_seconds (start + timeout_seconds) 0 (omega arith)
