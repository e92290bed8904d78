-- ===== src/BreakdownWatch.antt =====
-- libs/container_breakdown_watch.py: one sweep over all containers, with a hysteresis state for
-- each container's name. Log lines are not modelled.
pub mod Lookups
mod Reports
pub mod Refinement
pub mod Labels
pub mod Refused
pub mod Examples
use mathlib.Core.Option
use infra.Prelude.{
  ℕ, String, Bool, true, false, not, ◌&&◌, Option, none, some, List, [], ◌∷◌, ◌++◌, ◌==◌, map,
  if◌then◌else◌, length,
}
use infra.Prelude.Dict.{Dict, lookup, insert, keys, contains}
use infra.Recency.{
  Action, fire, resolve, quiet, ConsecutiveObservationState, Thresholds, new_state,
  evaluate_consecutive_hysteresis,
}
use infra.ContainerBreakdown.{Breakdown, Payload, build_breakdown_alert_payload}

-- What the watch remembers of a container.
abbrev pub State : Type 0
State = ConsecutiveObservationState Breakdown

-- `broken_by_name`: a later breakdown of the same name replaces an earlier one, at its place.
unfoldable pub broken_by_name : List Breakdown → Dict Breakdown → Dict Breakdown
unfolding insert
broken_by_name [] d = d
broken_by_name (b ∷ rest) d = broken_by_name rest (insert b.container b d)

module _ (t : Thresholds) (now : ℕ) where
  -- One broken container: `setdefault`, the new context, and the poll.
  abbrev pub poll_broken : Option State → Breakdown → State × Action
  poll_broken known b =
      let state = record (Option.get_or known new_state) { context = some b } in
      evaluate_consecutive_hysteresis t state true now

  -- The first loop: the states, and `fresh` in order.
  unfoldable pub poll_all_broken : Dict Breakdown → Dict State → Dict State × List Breakdown
  unfolding insert
  poll_all_broken [] states = (states, [])
  poll_all_broken ((name, b) ∷ rest) states =
      let (state, action) = poll_broken (lookup name states) b in
      let (after, fresh) = poll_all_broken rest (insert name state states) in
      (after, elim action [ fire ↦ b ∷ fresh | resolve ↦ fresh | quiet ↦ fresh ])

  -- The contexts that a resolve appends. A state always has one by then.
  abbrev pub context_of : State → List Breakdown
  context_of s = elim s.context [ none ↦ [] | some b ↦ b ∷ [] ]

  -- The second loop: the containers that are not broken in this sweep, and `recovered` in order.
  unfoldable pub poll_all_others : List String → Dict State → Dict State × List Breakdown
  poll_all_others broken [] = ([], [])
  poll_all_others broken ((name, s) ∷ rest) =
      let (after, recovered) = poll_all_others broken rest in
      let (s', action) = evaluate_consecutive_hysteresis t s false now in
      if contains name broken then ((name, s) ∷ after, recovered) else (
        (name, s') ∷ after,
        elim action [ fire ↦ recovered | resolve ↦ context_of s' ++ recovered | quiet ↦ recovered ],
      )

-- No live signal is left: the entry has the shape of a new one.
abbrev pub is_idle : State → Bool
is_idle s = not s.active && s.bad_streak == 0 && s.good_streak == 0

unfoldable pub prune : Dict State → Dict State
prune [] = []
prune ((name, s) ∷ rest) = if is_idle s then prune rest else (name, s) ∷ prune rest

-- What a sweep leaves and does. `result` is the number of fired containers, or `none` if the
-- sweep raised; `posted` are the payloads handed to the alert bridge, whose errors are swallowed.
pub record Sweep : Type 0 where
  pub states : Dict State
  pub fresh : List Breakdown
  pub recovered : List Breakdown
  pub posted : List Payload
  pub result : Option ℕ

-- `if alerts: _post_alert(build_breakdown_alert_payload(alerts, firing=…))`; `none` is a raise.
post : Bool → List Breakdown → Option (List Payload)
post firing [] = some []
post firing (b ∷ rest) = elim (build_breakdown_alert_payload firing (b ∷ rest)) [
  | none ↦ none
  | some payload ↦ some (payload ∷ [])
]

abbrev finish : Dict State → List Breakdown → List Breakdown → Sweep
finish states fresh recovered = elim (post true fresh) [
  | none ↦ record {
    states = states;
    fresh = fresh;
    recovered = recovered;
    posted = [];
    result = none;
  }
  | some firing ↦ elim (post false recovered) [
    | none ↦ record {
      states = states;
      fresh = fresh;
      recovered = recovered;
      posted = firing;
      result = none;
    }
    | some resolved ↦ record {
      states = states;
      fresh = fresh;
      recovered = recovered;
      posted = firing ++ resolved;
      result = some (length fresh);
    }
  ]
]

-- `run_once`. The argument `swept` is the result of `sweep`: `none` if it raised, as it does when
-- the container list cannot be read. Nothing has been changed by then.
unfoldable pub run_once : Thresholds → ℕ → Option (List Breakdown) → Dict State → Sweep
unfolding broken_by_name poll_all_broken poll_all_others prune post
run_once t now none states = record {
  states = states;
  fresh = [];
  recovered = [];
  posted = [];
  result = none;
}
run_once t now (some breakdowns) states =
    let broken = broken_by_name breakdowns [] in
    let (polled, fresh) = poll_all_broken t now broken states in
    let (after, recovered) = poll_all_others t now (keys broken) polled in
    finish (prune after) fresh recovered
