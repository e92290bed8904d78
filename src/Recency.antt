-- ===== src/Recency.antt =====
-- libs/recency.py: is a bad signal recent, and the fire / resolve hysteresis over repeated polls.
-- Times are natural numbers of one unit, such as the milliseconds of a clock that starts at 0. A
-- comparison of a difference, `a - b >= c`, is written `c + b <= a`, which truncates nothing.
pub mod Polls
pub mod Streaks
pub mod Budget
pub mod Examples
use infra.Prelude.{ℕ, ◌+◌, ◌-◌, max, Bool, true, false, not, Option, none, leb, ltb, if◌then◌else◌}

-- What the caller should do this poll. The source's strings are "fire", "resolve" and "none".
pub data Action : Type 0 where
  fire resolve quiet : Action

-- The clamp of a negative age to 0 is `-` on the natural numbers.
unfoldable pub is_recently_flapping :
    (event_count last_event_at now count_threshold window : ℕ) → Bool
is_recently_flapping event_count last_event_at now count_threshold window =
    let age_seconds = now - last_event_at in
    if leb event_count count_threshold then false else leb age_seconds window

pub record ConsecutiveObservationState (C : Type 0) : Type 0 where
  pub active : Bool
  pub bad_streak : ℕ
  pub good_streak : ℕ
  pub last_alert_at : ℕ
  pub context : Option C

abbrev pub new_state : {C : Type 0} → ConsecutiveObservationState C
new_state = record {
  active = false;
  bad_streak = 0;
  good_streak = 0;
  last_alert_at = 0;
  context = none;
}

-- The keyword arguments that a caller keeps fixed over its polls.
pub record Thresholds : Type 0 where
  pub failure_threshold : ℕ
  pub recovery_threshold : ℕ
  pub renotify_seconds : ℕ

module _ {C : Type 0} where
  -- `evaluate_consecutive_hysteresis`: the state after one poll, and the action.
  unfoldable pub evaluate_consecutive_hysteresis :
      Thresholds
      → ConsecutiveObservationState C
      → (is_bad_now : Bool) (now : ℕ) → ConsecutiveObservationState C × Action
  evaluate_consecutive_hysteresis t state true now =
      let seen = record state { good_streak = 0; bad_streak = state.bad_streak + 1 } in
      if not state.active
      then (if ltb (state.bad_streak + 1) (max 1 t.failure_threshold)
          then (seen, quiet)
          else (record seen { active = true; last_alert_at = now }, fire))
      else if leb (t.renotify_seconds + state.last_alert_at) now
      then (record seen { last_alert_at = now }, fire)
      else (seen, quiet)
  evaluate_consecutive_hysteresis t state false now =
      let seen = record state { bad_streak = 0 } in
      let counted = record seen { good_streak = state.good_streak + 1 } in
      if not state.active
      then (seen, quiet)
      else if ltb (state.good_streak + 1) (max 1 t.recovery_threshold)
      then (counted, quiet)
      else (record counted { active = false; good_streak = 0; last_alert_at = 0 }, resolve)
