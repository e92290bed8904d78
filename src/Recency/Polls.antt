-- ===== src/Recency/Polls.antt =====
-- A poll loop over one key, as the callers of libs/recency.py run it, and the invariant of its state.
use infra.Prelude.{ℕ, ◌<◌, max, ◌≡◌, Bool, true, false, List, [], ◌∷◌, arith}
use infra.Recency.{
  Action, ConsecutiveObservationState, Thresholds, new_state, evaluate_consecutive_hysteresis,
}

-- A poll is what was observed, and when.
abbrev pub Poll : Type 0
Poll = Bool × ℕ

module _ {C : Type 0} (t : Thresholds) where
  -- The state that the loop leaves, and the actions in order.
  unfoldable pub polls :
      ConsecutiveObservationState C → List Poll → ConsecutiveObservationState C × List Action
  polls s [] = (s, [])
  polls s ((bad, now) ∷ rest) =
      let (s', action) = evaluate_consecutive_hysteresis t s bad now in
      let (last, actions) = polls s' rest in (last, action ∷ actions)

  pub record IsTracked (s : ConsecutiveObservationState C) : Type 0 where
    pub idle_below : s.active ≡ false → s.bad_streak < max 1 t.failure_threshold
    pub idle_good : s.active ≡ false → s.good_streak ≡ 0
    pub idle_alert : s.active ≡ false → s.last_alert_at ≡ 0
    pub open_below : s.active ≡ true → s.good_streak < max 1 t.recovery_threshold
    pub one_streak : 0 < s.good_streak → s.bad_streak ≡ 0

  pub new_state-IsTracked : IsTracked new_state
  new_state-IsTracked = record {
    idle_below = λ _. omega arith;
    idle_good = λ _. omega arith;
    idle_alert = λ _. omega arith;
    open_below = λ e. cc;
    one_streak = λ h. omega arith;
  }

  -- One poll keeps the invariant, whatever it observes.
  pub evaluate-IsTracked :
      (s : ConsecutiveObservationState C) (bad : Bool) (now : ℕ)
      → IsTracked s
      → IsTracked (evaluate_consecutive_hysteresis t s bad now).0
  unfolding evaluate_consecutive_hysteresis
  evaluate-IsTracked s true now h = ground arith
  evaluate-IsTracked s false now h = ground arith
