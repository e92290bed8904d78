-- ===== src/QueueGuard/Renotify.antt =====
-- When the guard alerts again about the same compose.
use mathlib.Core.Option
use infra.Prelude.{
  ℕ, ◌+◌, ◌≤◌, String, ◌≡◌, refl, true, ◌⊎◌, inl, inr, Option, none, some, List, [], ◌∷◌, arith,
  if◌then◌else◌, keep_if, Bool-cases, eq_iff,
}
use infra.Prelude.Dict.{Dict, lookup, insert, contains, lookup-insert}
use infra.ContainerBreakdown.{Payload}
use infra.DeployQueue.{StuckDeploy}
use infra.QueueGuard.{
  Event, alert, call, Settings, Outcome, compose_ids, is_fresh, mark_alerted, act, after_payload,
  run_once,
}

lookup-mark_alerted :
    (k : String) (now : ℕ) (l : List StuckDeploy) (d : Dict ℕ)
    → lookup k (mark_alerted now l d)
      ≡ (if contains k (compose_ids l) then some now else lookup k d)
unfolding mark_alerted
lookup-mark_alerted k now [] d = refl
lookup-mark_alerted k now (s ∷ l) d = ground (
  arith,
  lookup-mark_alerted k now l (insert s.compose_id now d),
  lookup-insert k s.compose_id now d,
)

fresh_window :
    (k : String) (renotify now : ℕ) (d : Dict ℕ) (l : List StuckDeploy)
    → contains k (compose_ids (keep_if (is_fresh renotify now d) l)) ≡ true
    → renotify + Option.get_or (lookup k d) 0 ≤ now
fresh_window k renotify now d [] h = cc
fresh_window k renotify now d (s ∷ l) h =
    ground (arith, fresh_window k renotify now d l, eq_iff s.compose_id k)

-- The first thing that the sweep did was to alert.
abbrev pub AlertsFirst : List Event → Type 0
AlertsFirst [] = ⊥
AlertsFirst (alert p ∷ _) = Unit
AlertsFirst (call label id ∷ _) = ⊥

act_alerted :
    (c : Settings) (stuck : List StuckDeploy) (recheck : Option (List StuckDeploy)) (d : Dict ℕ)
    (events : List Event)
    → (act c stuck recheck d events).alerted ≡ d
unfolding act
act_alerted c stuck recheck d events = ground arith

act_first :
    (c : Settings) (stuck : List StuckDeploy) (recheck : Option (List StuckDeploy)) (d : Dict ℕ)
    (p : Payload)
    → AlertsFirst (act c stuck recheck d (alert p ∷ [])).events
unfolding act
act_first c stuck recheck d p = ground arith

module _ (c : Settings) (now : ℕ) (recheck : Option (List StuckDeploy)) (d : Dict ℕ)
    (k : String) where
  -- The alert clock of the compose `k` stands still, or moves to now.
  abbrev pub Clock : Outcome → Type 0
  Clock o =
      (lookup k o.alerted ≡ lookup k d)
      ⊎ ((lookup k o.alerted ≡ some now)
          × (c.renotify + Option.get_or (lookup k d) 0 ≤ now)
          × AlertsFirst o.events)

  Clock-marked :
      (stuck fresh : List StuckDeploy) (p : Payload)
      → keep_if (is_fresh c.renotify now d) stuck ≡ fresh
      → Clock (act c stuck recheck (mark_alerted now fresh d) (alert p ∷ []))
  Clock-marked stuck fresh p e = elim (Bool-cases (contains k (compose_ids fresh))) [
    | inl hit ↦ inr (
      rw (act_alerted, lookup-mark_alerted, hit),
      fresh_window k c.renotify now d stuck (rw e hit),
      act_first c stuck recheck _ p,
    )
    | inr miss ↦ inl (rw (act_alerted, lookup-mark_alerted, miss))
  ]

  after_payload-Clock :
      (stuck fresh : List StuckDeploy) (payload : Option Payload)
      → keep_if (is_fresh c.renotify now d) stuck ≡ fresh
      → Clock (after_payload c now stuck fresh recheck d payload)
  unfolding after_payload
  after_payload-Clock stuck [] payload e = inl (rw act_alerted)
  after_payload-Clock stuck (f ∷ fs) none e = inl refl
  after_payload-Clock stuck (f ∷ fs) (some p) e = Clock-marked stuck (f ∷ fs) p e

  -- The alert clock of a compose stands still, or moves to the time of the sweep; it moves only if
  -- the renotify window since its last alert is over (from 0 if there was none), and the sweep has
  -- posted an alert before anything else.
  pub run_once-Clock : (found : Option (List StuckDeploy)) → Clock (run_once c now found recheck d)
  unfolding run_once
  run_once-Clock none = inl refl
  run_once-Clock (some []) = inl refl
  run_once-Clock (some (s ∷ rest)) = after_payload-Clock (s ∷ rest) _ _ refl
