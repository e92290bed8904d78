-- ===== src/BreakdownWatch/Refinement.antt =====
-- A sweep against the abstract watch: one hysteresis state for every name there is, polled alone.
-- The dict of states, its order, the contexts and the pruning are forgotten.
use mathlib.Core.Option
use infra.Prelude.{
  ℕ, String, ◌≡◌, Bool, true, false, Option, none, some, List, [], arith, Bool-cases, Option-cases,
  ◌⊎◌, inl, inr,
}
use infra.Prelude.Dict.{Dict, lookup, keys, contains, NodupKeys, lookup_absent, lookup_present}
use infra.Recency.{Action, Thresholds, new_state, evaluate_consecutive_hysteresis}
use infra.Recency.Polls.{IsTracked, new_state-IsTracked, evaluate-IsTracked}
use infra.ContainerBreakdown.{Breakdown}
use infra.BreakdownWatch.{
  State, Sweep, broken_by_name, poll_all_broken, poll_all_others, prune, finish, run_once,
}
use infra.BreakdownWatch.Lookups.{
  names, OwnNames, polled, rested, kept, broken_by_name-OwnNames, broken_by_name-NodupKeys,
  contains-broken_by_name, lookup-poll_all_broken, lookup-poll_all_others, lookup-prune,
  poll_all_broken-NodupKeys, poll_all_others-NodupKeys, prune-NodupKeys,
}
use infra.BreakdownWatch.Reports.{
  is_fire, is_resolve, fires, resolves, OwnContexts, contains-fresh, contains-recovered,
  poll_all_broken-OwnContexts, poll_all_others-OwnContexts, prune-OwnContexts,
}

-- The abstract state of a name.
abbrev pub view : Dict State → String → State
view states k = Option.get_or (lookup k states) new_state

abbrev pub SameCounters : State → State → Type 0
SameCounters s r =
    (s.active ≡ r.active)
    × (s.bad_streak ≡ r.bad_streak)
    × (s.good_streak ≡ r.good_streak)
    × (s.last_alert_at ≡ r.last_alert_at)

-- The abstract step: one poll of the name's own state.
abbrev pub step : Thresholds → ℕ → List Breakdown → Dict State → String → State × Action
step t now bs states k =
    evaluate_consecutive_hysteresis t (view states k) (contains k (names bs)) now

pub record IsWatched (t : Thresholds) (states : Dict State) : Type 0 where
  pub unique : NodupKeys states
  pub own : OwnContexts states
  pub tracked : (k : String) (s : State) → lookup k states ≡ some s → IsTracked t s

finish_fields :
    (states : Dict State) (fresh recovered : List Breakdown)
    → ((finish states fresh recovered).states ≡ states)
      × ((finish states fresh recovered).fresh ≡ fresh)
      × ((finish states fresh recovered).recovered ≡ recovered)
finish_fields states fresh recovered = ground arith

module _ (t : Thresholds) (now : ℕ) where
  abbrev passes : Bool → Option Breakdown → Option State → Option State
  passes broken found known = kept (rested t now broken (polled t now found known))

  abbrev viewed : Option State → State
  viewed known = Option.get_or known new_state

  -- One name through the passes, from a state that is not there or that the invariant describes.
  passes-step :
      (broken : Bool) (found : Option Breakdown) (known : Option State)
      → ((broken ≡ false) × (found ≡ none))
        ⊎ ((broken ≡ true) × ((b : Breakdown) × (found ≡ some b)))
      → IsTracked t (viewed known)
      → SameCounters
          (viewed (passes broken found known))
          (evaluate_consecutive_hysteresis t (viewed known) broken now).0
  unfolding evaluate_consecutive_hysteresis
  passes-step broken found none (inl (healthy, absent)) h = rw (healthy, absent) (ground arith)
  passes-step broken found (some s) (inl (healthy, absent)) h = rw (healthy, absent) (ground arith)
  passes-step broken found none (inr (bad, (b, present))) h = rw (bad, present) (ground arith)
  passes-step broken found (some s) (inr (bad, (b, present))) h = rw (bad, present) (ground arith)

  passes-fires :
      (broken : Bool) (found : Option Breakdown) (known : Option State)
      → ((broken ≡ false) × (found ≡ none))
        ⊎ ((broken ≡ true) × ((b : Breakdown) × (found ≡ some b)))
      → fires t now "" found known
        ≡ is_fire (evaluate_consecutive_hysteresis t (viewed known) broken now).1
  unfolding evaluate_consecutive_hysteresis
  passes-fires broken found known (inl (healthy, absent)) = rw (healthy, absent) (ground arith)
  passes-fires broken found known (inr (bad, (b, present))) = rw (bad, present) (ground arith)

  passes-resolves :
      (broken : Bool) (found : Option Breakdown) (known : Option State)
      → ((broken ≡ false) × (found ≡ none))
        ⊎ ((broken ≡ true) × ((b : Breakdown) × (found ≡ some b)))
      → resolves t now "" broken (polled t now found known)
        ≡ is_resolve (evaluate_consecutive_hysteresis t (viewed known) broken now).1
  unfolding evaluate_consecutive_hysteresis
  passes-resolves broken found none (inl (healthy, absent)) = rw (healthy, absent) (ground arith)
  passes-resolves broken found (some s) (inl (healthy, absent)) =
      rw (healthy, absent) (ground arith)
  passes-resolves broken found known (inr (bad, (b, present))) = rw (bad, present) (ground arith)

  SameCounters-IsTracked : (s r : State) → SameCounters s r → IsTracked t r → IsTracked t s
  SameCounters-IsTracked s r same h = ground arith

module _ (t : Thresholds) (now : ℕ) (bs : List Breakdown) (states : Dict State)
    (w : IsWatched t states) where
  abbrev broken : Dict Breakdown
  broken = broken_by_name bs []

  abbrev swept : Dict State
  swept = (poll_all_others t now (keys broken) (poll_all_broken t now broken states).0).0

  abbrev sweep : Sweep
  sweep = run_once t now (some bs) states

  found-cases :
      (k : String)
      → ((contains k (names bs) ≡ false) × (lookup k broken ≡ none))
        ⊎ ((contains k (names bs) ≡ true) × ((b : Breakdown) × (lookup k broken ≡ some b)))
  found-cases k = elim (Bool-cases (contains k (keys broken))) [
    | inl there ↦
        inr (ground (arith, contains-broken_by_name k bs []), lookup_present k broken there)
    | inr absent ↦
        inl (ground (arith, contains-broken_by_name k bs []), lookup_absent k broken absent)
  ]

  view-IsTracked : (k : String) → IsTracked t (view states k)
  view-IsTracked k = elim (Option-cases (lookup k states)) [
    | inl absent ↦ rw absent (new_state-IsTracked t)
    | inr (s, present) ↦ rw present (w.tracked k s present)
  ]

  states-sweep : sweep.states ≡ prune swept
  unfolding run_once
  states-sweep = (finish_fields _ _ _).0

  unique-broken : NodupKeys broken
  unique-broken = broken_by_name-NodupKeys bs [] tt

  unique-swept : NodupKeys swept
  unique-swept =
      poll_all_others-NodupKeys t now (keys broken) _
        (poll_all_broken-NodupKeys t now broken states w.unique)

  contains-broken : (k : String) → contains k (keys broken) ≡ contains k (names bs)
  contains-broken k = ground (arith, contains-broken_by_name k bs [])

  lookup-polled :
      (k : String)
      → lookup k (poll_all_broken t now broken states).0
        ≡ polled t now (lookup k broken) (lookup k states)
  lookup-polled k = lookup-poll_all_broken t now k broken states unique-broken

  lookup-sweep :
      (k : String)
      → lookup k sweep.states
        ≡ passes t now (contains k (names bs)) (lookup k broken) (lookup k states)
  lookup-sweep k = rw (
    states-sweep,
    lookup-prune t now k swept unique-swept,
    lookup-poll_all_others,
    lookup-polled k,
    contains-broken k,
  )

  -- A sweep is one poll of every name on its own, tracked or not: the counters that it leaves are
  -- those of the abstract step, and it fires and resolves the names whose step does.
  pub record Refines (k : String) : Type 0 where
    pub counters : SameCounters (view sweep.states k) (step t now bs states k).0
    pub fired : contains k (names sweep.fresh) ≡ is_fire (step t now bs states k).1
    pub recovered : contains k (names sweep.recovered) ≡ is_resolve (step t now bs states k).1

  fresh-sweep : sweep.fresh ≡ (poll_all_broken t now broken states).1
  unfolding run_once
  fresh-sweep = (finish_fields _ _ _).1

  recovered-sweep :
      sweep.recovered
      ≡ (poll_all_others t now (keys broken) (poll_all_broken t now broken states).0).1
  unfolding run_once
  recovered-sweep = (finish_fields _ _ _).2

  own-broken : OwnNames broken
  own-broken = broken_by_name-OwnNames bs [] tt

  own-polled : OwnContexts (poll_all_broken t now broken states).0
  own-polled = poll_all_broken-OwnContexts t now broken states own-broken w.own

  -- If the dict of states is well formed, a sweep is one poll of each name on its own, whether it
  -- is tracked, pruned or new: the counters it leaves are those of the abstract step, and it fires
  -- the name, or recovers it, exactly if the step does.
  pub run_once-Refines : (k : String) → Refines k
  run_once-Refines k = record {
    counters = rw (lookup-sweep k) (
        passes-step t now (contains k (names bs)) (lookup k broken) (lookup k states)
          (found-cases k) (view-IsTracked k));
    fired =
        rw (fresh-sweep, contains-fresh t now k broken states unique-broken own-broken)
          (passes-fires t now (contains k (names bs)) (lookup k broken) (lookup k states)
            (found-cases k));
    recovered =
        rw
          (
            recovered-sweep,
            contains-recovered t now k (keys broken) _
                (poll_all_broken-NodupKeys t now broken states w.unique) own-polled,
            lookup-polled k,
            contains-broken k,
          )
          (passes-resolves t now (contains k (names bs)) (lookup k broken) (lookup k states)
            (found-cases k));
  }

  -- A sweep keeps the invariant of the dict of states.
  pub run_once-IsWatched : IsWatched t sweep.states
  run_once-IsWatched = record {
    unique = rw states-sweep (prune-NodupKeys swept unique-swept);
    own =
        rw states-sweep
          (prune-OwnContexts swept (poll_all_others-OwnContexts t now (keys broken) _ own-polled));
    tracked = λ k s e.
        SameCounters-IsTracked t now s (step t now bs states k).0
          (rw e at (run_once-Refines k).counters)
          (evaluate-IsTracked t (view states k) (contains k (names bs)) now (view-IsTracked k));
  }

-- The empty dict of a new watch.
pub IsWatched-nil : (t : Thresholds) → IsWatched t []
unfolding lookup
IsWatched-nil t = record { unique = tt; own = tt; tracked = λ k s e. cc }
