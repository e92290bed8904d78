-- ===== src/BreakdownWatch/Labels.antt =====
-- libs/container_breakdown_watch.py: which breakdown a RESOLVED alert carries.
use infra.Prelude.{
  ℕ, ◌+◌, ◌≤◌, ◌<◌, ◌≡◌, true, false, Option, none, some, List, [], ◌∷◌, arith, eq_iff, ap, inl,
  inr, Option-cases,
}
use infra.Prelude.Dict.{lookup}
use infra.Recency.{resolve, quiet, Thresholds, evaluate_consecutive_hysteresis}
use infra.ContainerBreakdown.{Breakdown, Payload, build_breakdown_alert_payload}
use infra.BreakdownWatch.{State, Sweep, run_once, post}

module _ (t : Thresholds) (at_change at_recovery : ℕ) (s : State) (changed : Breakdown) where
  -- A sweep that sees the container of an open incident broken, with the breakdown `changed`.
  abbrev pub second : Sweep
  second = run_once t at_change (some (changed ∷ [])) ((changed.container, s) ∷ [])

  -- The next sweep sees nothing broken.
  abbrev pub third : Sweep
  third = run_once t at_recovery (some []) second.states

  abbrev changed_state : State
  changed_state = record s {
    context = some changed;
    good_streak = 0;
    bad_streak = s.bad_streak + 1;
  }

  poll-changed :
      s.active ≡ true
      → at_change < t.renotify_seconds + s.last_alert_at
      → evaluate_consecutive_hysteresis t (record s { context = some changed }) true at_change
        ≡ (changed_state, quiet)
  unfolding evaluate_consecutive_hysteresis
  poll-changed open_ soon = ground arith

  abbrev left : Sweep
  left = record {
    states = (changed.container, changed_state) ∷ [];
    fresh = [];
    recovered = [];
    posted = [];
    result = some 0;
  }

  second-left : s.active ≡ true → at_change < t.renotify_seconds + s.last_alert_at → second ≡ left
  unfolding run_once lookup
  second-left open_ soon =
      ground (arith, poll-changed open_ soon, eq_iff changed.container changed.container)

  poll-recovered :
      s.active ≡ true
      → t.recovery_threshold ≤ 1
      → (evaluate_consecutive_hysteresis t changed_state false at_recovery).1 ≡ resolve
  unfolding evaluate_consecutive_hysteresis
  poll-recovered open_ low = ground arith

  -- The payloads of a post; none, if the identity of the breakdown is refused.
  abbrev pub payloads_of : Option Payload → List Payload
  payloads_of none = []
  payloads_of (some payload) = payload ∷ []

  abbrev finished : Option (List Payload) → List Payload
  finished none = []
  finished (some l) = l

  third-posted :
      s.active ≡ true
      → at_change < t.renotify_seconds + s.last_alert_at
      → t.recovery_threshold ≤ 1
      → (third.recovered ≡ changed ∷ [])
        × (third.posted ≡ payloads_of (build_breakdown_alert_payload false (changed ∷ [])))
  unfolding run_once evaluate_consecutive_hysteresis post
  third-posted open_ soon low =
      rw (second-left open_ soon)
        (elim (Option-cases (build_breakdown_alert_payload false (changed ∷ []))) [
          | inl refused ↦ ground (arith, poll-recovered open_ low, refused)
          | inr (payload, built) ↦ ground (arith, poll-recovered open_ low, built)
        ])

  -- The watch tracks one container, and its incident is open; a sweep within the renotify window sees it
  -- broken, with the breakdown `changed`, and the next sweep sees nothing broken. With a recovery
  -- threshold of at most 1 the first of these sweeps posts nothing, and the second posts the RESOLVED of
  -- `changed`, whatever breakdown the incident fired with, or nothing if the identity of `changed` is
  -- refused.
  pub recovered-changed :
      s.active ≡ true
      → at_change < t.renotify_seconds + s.last_alert_at
      → t.recovery_threshold ≤ 1
      → (second.posted ≡ [])
        × ((third.recovered ≡ changed ∷ [])
            × (third.posted ≡ payloads_of (build_breakdown_alert_payload false (changed ∷ []))))
  recovered-changed open_ soon low =
      (ap (λ (x : Sweep). x.posted) (second-left open_ soon), third-posted open_ soon low)
