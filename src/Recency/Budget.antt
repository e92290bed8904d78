-- ===== src/Recency/Budget.antt =====
-- How often the hysteresis of libs/recency.py can page: the #475 storm, and the renotify window.
use infra.Prelude.{
  ℕ, suc, ◌+◌, ◌-◌, ◌*◌, ◌≤◌, max, ◌≡◌, Bool, true, false, List, [], ◌∷◌, arith, if◌then◌else◌, ap,
}
use infra.Recency.{
  Action, fire, resolve, quiet, ConsecutiveObservationState, Thresholds, new_state,
  evaluate_consecutive_hysteresis,
}
use infra.Prelude.{length}
use infra.Recency.Polls.{Poll, polls, IsTracked, new_state-IsTracked, evaluate-IsTracked}

abbrev pub resolves : List Action → ℕ
resolves [] = 0
resolves (fire ∷ l) = resolves l
resolves (resolve ∷ l) = suc (resolves l)
resolves (quiet ∷ l) = resolves l

abbrev pub fires : List Action → ℕ
fires [] = 0
fires (fire ∷ l) = suc (fires l)
fires (resolve ∷ l) = fires l
fires (quiet ∷ l) = fires l

abbrev pub resolved : Action → ℕ
resolved fire = 0
resolved resolve = 1
resolved quiet = 0

abbrev pub fired : Action → ℕ
fired fire = 1
fired resolve = 0
fired quiet = 0

fires-cons : (a : Action) (l : List Action) → fires (a ∷ l) ≡ fired a + fires l
fires-cons fire l = omega arith
fires-cons resolve l = omega arith
fires-cons quiet l = omega arith

resolves-cons : (a : Action) (l : List Action) → resolves (a ∷ l) ≡ resolved a + resolves l
resolves-cons fire l = omega arith
resolves-cons resolve l = omega arith
resolves-cons quiet l = omega arith

-- The polls stand in the order of their times, from `start` on.
abbrev pub InOrder : ℕ → List Poll → Type 0
InOrder start [] = Unit
InOrder start ((_, now) ∷ rest) = (start ≤ now) × InOrder now rest

abbrev pub end_time : ℕ → List Poll → ℕ
end_time start [] = start
end_time start ((_, now) ∷ rest) = end_time now rest

start-le-end_time :
    (start : ℕ) (history : List Poll) → InOrder start history → start ≤ end_time start history
start-le-end_time start [] _ = omega arith
start-le-end_time start ((bad, now) ∷ rest) (later, o) = omega (arith, start-le-end_time now rest o)

-- The polls that a firing / resolved pair costs.
abbrev pub round : Thresholds → ℕ
round t = max 1 t.failure_threshold + max 1 t.recovery_threshold

module _ {C : Type 0} (t : Thresholds) where
  -- Polls that count towards the next resolve.
  abbrev progress : ConsecutiveObservationState C → ℕ
  progress s = if s.active then max 1 t.failure_threshold + s.good_streak else s.bad_streak

  -- A poll makes at most one step of progress, and a resolve uses up a whole round.
  progress-evaluate :
      (s : ConsecutiveObservationState C) (bad : Bool) (now : ℕ)
      → IsTracked t s
      → let (s', a) = evaluate_consecutive_hysteresis t s bad now in
        resolved a * round t + progress s' ≤ suc (progress s)
  unfolding evaluate_consecutive_hysteresis
  progress-evaluate s true now h = ground arith
  progress-evaluate s false now h = ground arith

  resolves_from :
      (s : ConsecutiveObservationState C) (history : List Poll)
      → IsTracked t s
      → resolves (polls t s history).1 * round t ≤ length history + progress s
  unfolding polls
  resolves_from s [] h = omega arith
  resolves_from s ((bad, now) ∷ rest) h =
      let (s', a) = evaluate_consecutive_hysteresis t s bad now in
      omega (
        arith,
        progress-evaluate s bad now h,
        resolves_from s' rest (evaluate-IsTracked t s bad now h),
        ap (λ (n : ℕ). n * round t) (resolves-cons a (polls t s' rest).1),
      )

  -- What the alerts so far leave for the next ones, at time `at`.
  abbrev credit : ConsecutiveObservationState C → ℕ → ℕ
  credit s at = if s.active then at - s.last_alert_at else t.renotify_seconds

  abbrev AlertedBy : ConsecutiveObservationState C → ℕ → Type 0
  AlertedBy s at = s.last_alert_at ≤ at

  credit-evaluate :
      (s : ConsecutiveObservationState C) (bad : Bool) (start now : ℕ)
      → AlertedBy s start
      → start ≤ now
      → let (s', a) = evaluate_consecutive_hysteresis t s bad now in
        (fired a * t.renotify_seconds + credit s' now
          ≤ (now - start) + credit s start + resolved a * t.renotify_seconds)
        × AlertedBy s' now
  unfolding evaluate_consecutive_hysteresis
  credit-evaluate s true start now h later = ground arith
  credit-evaluate s false start now h later = ground arith

  fires_from :
      (s : ConsecutiveObservationState C) (start : ℕ) (history : List Poll)
      → AlertedBy s start
      → InOrder start history
      → fires (polls t s history).1 * t.renotify_seconds
        ≤ (end_time start history - start)
          + credit s start
          + resolves (polls t s history).1 * t.renotify_seconds
  unfolding polls
  fires_from s start [] h o = omega arith
  fires_from s start ((bad, now) ∷ rest) h (later, o) =
      let (s', a) = evaluate_consecutive_hysteresis t s bad now in
      let step = credit-evaluate s bad start now h later in
      omega (
        arith,
        step.0,
        fires_from s' now rest step.1 o,
        start-le-end_time now rest o,
        ap (λ (n : ℕ). n * t.renotify_seconds) (fires-cons a (polls t s' rest).1),
        ap (λ (n : ℕ). n * t.renotify_seconds) (resolves-cons a (polls t s' rest).1),
      )

module _ (C : Type 0) (t : Thresholds) where
  -- From the initial state, the resolves times (failure threshold + recovery threshold, each at
  -- least 1) are at most the polls: a signal that flips on every poll cannot resolve on every poll.
  pub resolves-le-length :
      (history : List Poll)
      → resolves (polls {C = C} t new_state history).1 * round t ≤ length history
  resolves-le-length history =
      omega (arith, resolves_from {C = C} t new_state history (new_state-IsTracked t))

  -- Over polls in the order of their times, from the initial state, the alerts times the renotify
  -- window are at most the time that passed plus one window for each incident, of which there is
  -- one more than there are resolves.
  pub fires-le-elapsed :
      (start : ℕ) (history : List Poll)
      → InOrder start history
      → fires (polls {C = C} t new_state history).1 * t.renotify_seconds
        ≤ (end_time start history - start)
          + (1 + resolves (polls {C = C} t new_state history).1) * t.renotify_seconds
  fires-le-elapsed start history o =
      omega (arith, fires_from {C = C} t new_state start history (omega arith) o)
