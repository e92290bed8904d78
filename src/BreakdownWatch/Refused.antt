-- ===== src/BreakdownWatch/Refused.antt =====
-- A sweep with a container whose identity is refused.
use infra.Prelude.{
  ℕ, ◌≡◌, refl, sym, ◌∙◌, ap, Bool, true, false, ◌||◌, none, some, List, [], ◌∷◌, arith, String,
  str_eq, if◌then◌else◌, Option-cases,
}
use infra.Prelude.Text.{or_text}
use infra.Prelude.Dict.{Dict, contains}
use infra.Recency.{Thresholds, evaluate_consecutive_hysteresis}
use infra.ServiceIdentity.{build}
use infra.ContainerBreakdown.{
  Breakdown, last_part, breakdown_alert, breakdown_alerts, build_breakdown_alert_payload,
}
use infra.BreakdownWatch.{State, Sweep, post, finish, run_once}
use infra.BreakdownWatch.Lookups.{names}
use infra.BreakdownWatch.Reports.{is_fire}
use infra.BreakdownWatch.Refinement.{IsWatched, view, run_once-Refines}

-- `ServiceIdentity.build` raises for the container.
abbrev pub is_refused : Breakdown → Bool
is_refused b =
    elim (build (or_text b.service_id "infra/unregistered") b.environment (some b.component)
      (some (if str_eq b.service_id "" then "unregistered" else last_part b.service_id)) "" "") [
        | none ↦ true
        | some _ ↦ false
      ]

abbrev pub any_refused : List Breakdown → Bool
any_refused [] = false
any_refused (b ∷ bs) = is_refused b || any_refused bs

breakdown_alerts-refused :
    (status : String) (bs : List Breakdown)
    → any_refused bs ≡ true
    → breakdown_alerts status bs ≡ none
unfolding breakdown_alerts breakdown_alert
breakdown_alerts-refused status [] h = ground arith
breakdown_alerts-refused status (b ∷ bs) h = ground (arith, breakdown_alerts-refused status bs)

payload-refused :
    (bs : List Breakdown) → any_refused bs ≡ true → build_breakdown_alert_payload true bs ≡ none
unfolding build_breakdown_alert_payload
payload-refused bs h = rw (breakdown_alerts-refused "firing" bs h) refl

post-refused : (bs : List Breakdown) → any_refused bs ≡ true → post true bs ≡ none
unfolding post
post-refused [] h = ground arith
post-refused (b ∷ bs) h = ground (arith, payload-refused (b ∷ bs) h)

finish-fresh :
    (states : Dict State) (fresh recovered : List Breakdown)
    → (finish states fresh recovered).fresh ≡ fresh
finish-fresh states fresh recovered =
    ground (arith, Option-cases (post true fresh), Option-cases (post false recovered))

finish-refused :
    (states : Dict State) (fresh recovered : List Breakdown)
    → any_refused (finish states fresh recovered).fresh ≡ true
    → ((finish states fresh recovered).posted ≡ [])
      × ((finish states fresh recovered).result ≡ none)
finish-refused states fresh recovered h =
    let refused = sym (ap any_refused (finish-fresh states fresh recovered)) ∙ h in
    ground (arith, post-refused fresh refused)

fire-last_alert_at :
    (t : Thresholds) (s : State) (bad : Bool) (now : ℕ)
    → is_fire (evaluate_consecutive_hysteresis t s bad now).1 ≡ true
    → (evaluate_consecutive_hysteresis t s bad now).0.last_alert_at ≡ now
unfolding evaluate_consecutive_hysteresis
fire-last_alert_at t s true now h = ground arith
fire-last_alert_at t s false now h = ground arith

module _ (t : Thresholds) (now : ℕ) (bs : List Breakdown) (states : Dict State)
    (w : IsWatched t states) where
  abbrev pub refused_sweep : Sweep
  refused_sweep = run_once t now (some bs) states

  posted_nothing :
      any_refused refused_sweep.fresh ≡ true
      → (refused_sweep.posted ≡ []) × (refused_sweep.result ≡ none)
  unfolding run_once
  posted_nothing = finish-refused _ _ _

  -- If the identity of one of the containers that fire is refused, a sweep posts nothing for any
  -- container and raises, while the state of each container that fires says that it alerted now.
  pub run_once-refused :
      (k : String)
      → any_refused refused_sweep.fresh ≡ true
      → contains k (names refused_sweep.fresh) ≡ true
      → (refused_sweep.posted ≡ [])
        × ((refused_sweep.result ≡ none) × ((view refused_sweep.states k).last_alert_at ≡ now))
  run_once-refused k h fires =
      let kept = run_once-Refines t now bs states w k in
      (
        (posted_nothing h).0,
        (
          (posted_nothing h).1,
          kept.counters.3
              ∙ fire-last_alert_at t (view states k) (contains k (names bs)) now
                  (sym kept.fired ∙ fires),
        ),
      )
