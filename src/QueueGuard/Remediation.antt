-- ===== src/QueueGuard/Remediation.antt =====
-- The API calls and the alerts of an armed sweep.
use infra.Prelude.{ℕ, suc, ◌≤◌, ◌≡◌, Option, List, [], ◌∷◌, ◌++◌, if◌then◌else◌, length}
use infra.Prelude.Dict.{Dict}
use infra.DeployQueue.{StuckDeploy}
use infra.QueueGuard.{Event, alert, call, Settings, Outcome, calls_for}

-- The API calls among the events, in order.
abbrev pub api_calls : List Event → List Event
api_calls [] = []
api_calls (alert p ∷ l) = api_calls l
api_calls (call label id ∷ l) = call label id ∷ api_calls l

abbrev pub count_alerts : List Event → ℕ
count_alerts [] = 0
count_alerts (alert p ∷ l) = suc (count_alerts l)
count_alerts (call label id ∷ l) = count_alerts l

-- The three calls of every stuck deployment.
abbrev pub all_calls : List StuckDeploy → List Event
all_calls [] = []
all_calls (s ∷ rest) = calls_for s ++ all_calls rest

module _ (c : Settings) (now : ℕ) (recheck : Option (List StuckDeploy)) (d : Dict ℕ) where
  -- What a sweep that returned has done about the stuck deployments.
  pub record Acted (stuck : List StuckDeploy) (o : Outcome) : Type 0 where
    pub api : api_calls o.events ≡ (if c.armed then all_calls stuck else [])
    pub alerts : (if c.armed then length stuck else 0) ≤ count_alerts o.events
