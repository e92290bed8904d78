-- ===== src/Recency/Streaks.antt =====
-- The counters of libs/recency.py against the poll history itself, newest poll first.
use infra.Prelude.{
  ℕ, suc, max, ◌≡◌, refl, Bool, true, false, ◌&&◌, ◌||◌, List, [], ◌∷◌, arith, ltb, leb,
  if◌then◌else◌,
}
use infra.Recency.{
  ConsecutiveObservationState, Thresholds, new_state, evaluate_consecutive_hysteresis,
}
use infra.Recency.Polls.{Poll, polls}

-- How many of the newest polls in a row observed `bad`.
abbrev pub newest_bad : List Poll → ℕ
newest_bad [] = 0
newest_bad ((true, _) ∷ h) = suc (newest_bad h)
newest_bad ((false, _) ∷ h) = 0

abbrev pub newest_good : List Poll → ℕ
newest_good [] = 0
newest_good ((true, _) ∷ h) = 0
newest_good ((false, _) ∷ h) = suc (newest_good h)

-- `rest` was polled after `h`.
abbrev pub onto : List Poll → List Poll → List Poll
onto h [] = h
onto h (p ∷ rest) = onto (p ∷ h) rest

module _ (t : Thresholds) where
  -- Is an incident open? It opens when enough of the newest polls are bad, and closes when enough
  -- are good. No counter is kept.
  abbrev pub incident : List Poll → Bool
  incident [] = false
  incident ((true, now) ∷ h) =
      incident h || leb (max 1 t.failure_threshold) (newest_bad ((true, now) ∷ h))
  incident ((false, now) ∷ h) =
      incident h && ltb (newest_good ((false, now) ∷ h)) (max 1 t.recovery_threshold)

  module _ {C : Type 0} where
    -- The state is what the history says.
    pub record Records (s : ConsecutiveObservationState C) (h : List Poll) : Type 0 where
      pub active : s.active ≡ incident h
      pub bad_streak : s.bad_streak ≡ newest_bad h
      pub good_streak : s.good_streak ≡ (if incident h then newest_good h else 0)

    evaluate-Records :
        (s : ConsecutiveObservationState C) (h : List Poll) (bad : Bool) (now : ℕ)
        → Records s h
        → Records (evaluate_consecutive_hysteresis t s bad now).0 ((bad, now) ∷ h)
    unfolding evaluate_consecutive_hysteresis
    evaluate-Records s h true now r = ground arith
    evaluate-Records s h false now r = ground arith

    polls-Records-onto :
        (s : ConsecutiveObservationState C) (h rest : List Poll)
        → Records s h
        → Records (polls t s rest).0 (onto h rest)
    unfolding polls
    polls-Records-onto s h [] r = r
    polls-Records-onto s h ((bad, now) ∷ rest) r =
        polls-Records-onto (evaluate_consecutive_hysteresis t s bad now).0 ((bad, now) ∷ h) rest
          (evaluate-Records s h bad now r)

    -- After any polls from the initial state, the state is what the history says: an incident is
    -- open exactly when the thresholds say so, the bad streak counts the newest bad polls, and
    -- the good streak counts the newest good polls of an open incident.
    pub polls-Records :
        (history : List Poll) → Records (polls t new_state history).0 (onto [] history)
    polls-Records history =
        polls-Records-onto new_state [] history
          (record { active = refl; bad_streak = refl; good_streak = refl })
