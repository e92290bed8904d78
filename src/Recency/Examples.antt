-- ===== src/Recency/Examples.antt =====
-- Runs of the hysteresis, and its theorems at concrete polls.
use infra.Prelude.{ℕ, ◌+◌, ◌*◌, ◌≤◌, ◌≡◌, refl, true, false, List, [], ◌∷◌, arith}
use infra.Recency.{
  Thresholds, fire, resolve, quiet, new_state, evaluate_consecutive_hysteresis,
  is_recently_flapping,
}
use infra.Recency.Polls.{Poll, polls}
use infra.Recency.Streaks.{Records, onto, polls-Records}
use infra.Recency.Budget.{fires, resolves, round, fires-le-elapsed, resolves-le-length}

abbrev defaults : Thresholds
defaults = record { failure_threshold = 3; recovery_threshold = 2; renotify_seconds = 100 }

-- Three bad polls, a blip, a renotify and a recovery.
abbrev storm : List Poll
storm =
    (true, 0)
    ∷ (true, 60)
    ∷ (true, 120)
    ∷ (false, 180)
    ∷ (true, 240)
    ∷ (false, 300)
    ∷ (false, 360)
    ∷ []

storm_actions :
    (polls {C = ℕ} defaults new_state storm).1
    ≡ quiet ∷ quiet ∷ fire ∷ quiet ∷ fire ∷ quiet ∷ resolve ∷ []
unfolding polls evaluate_consecutive_hysteresis
storm_actions = refl

old_loop : is_recently_flapping 1700 1000 5000 3 3600 ≡ false
unfolding is_recently_flapping
old_loop = refl

polls-Records_example : Records defaults (polls {C = ℕ} defaults new_state storm).0 (onto [] storm)
polls-Records_example = polls-Records defaults {C = ℕ} storm

resolves-le-length_example :
    resolves (polls {C = ℕ} defaults new_state storm).1 * round defaults ≤ 7
resolves-le-length_example = resolves-le-length ℕ defaults storm

fires-le-elapsed_example :
    fires (polls {C = ℕ} defaults new_state storm).1 * 100
    ≤ 360 + (1 + resolves (polls {C = ℕ} defaults new_state storm).1) * 100
fires-le-elapsed_example = fires-le-elapsed ℕ defaults 0 storm (omega arith)
