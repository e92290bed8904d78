-- ===== src/DeployQueue/Oldest.antt =====
-- What `find_stuck_deploys` reports of a compose: a running deployment above the ceiling, the oldest.
use infra.Prelude.{
  ℕ, ◌≤◌, ◌<◌, String, ◌≡◌, refl, ◌⊎◌, inl, inr, Option, none, some, List, [], ◌∷◌, arith,
}
use infra.DeployQueue.{
  Deployment, ComposeDeployments, StuckDeploy, running_age, consider, oldest_stuck,
  find_stuck_deploys,
}

module _ (from_iso : String → Option ℕ) (now ceiling : ℕ) where
  -- Every running deployment is at most this old.
  abbrev pub AtMost : ℕ → List Deployment → Type 0
  AtMost bound [] = Unit
  AtMost bound (d ∷ rest) =
      elim (running_age from_iso now ceiling d) [ none ↦ Unit | some age ↦ age ≤ bound ]
      × AtMost bound rest

  -- One of the deployments runs, and has this age and this id.
  abbrev pub HasRunning : ℕ → String → List Deployment → Type 0
  HasRunning age id [] = ⊥
  HasRunning age id (d ∷ rest) =
      ((running_age from_iso now ceiling d ≡ some age) × (d.deployment_id ≡ id))
      ⊎ HasRunning age id rest

  -- The contract of a report for the compose `c`, with the deployments `ds`.
  abbrev pub Reports : ComposeDeployments → List Deployment → Option StuckDeploy → Type 0
  Reports c ds none = AtMost ceiling ds
  Reports c ds (some s) =
      (ceiling < s.age)
      × (s.compose_id ≡ c.compose_id)
      × HasRunning s.age s.deployment_id ds
      × AtMost s.age ds

  abbrev Bounded : ℕ → Option StuckDeploy → Type 0
  Bounded bound none = Unit
  Bounded bound (some s) = s.age ≤ bound

  -- The contract of the inner loop, from the report `acc` that it begins with.
  abbrev Best :
      ComposeDeployments → Option StuckDeploy → List Deployment → Option StuckDeploy → Type 0
  Best c acc ds none = (acc ≡ none) × AtMost ceiling ds
  Best c acc ds (some s) =
      (ceiling < s.age)
      × (s.compose_id ≡ c.compose_id)
      × AtMost s.age ds
      × Bounded s.age acc
      × ((acc ≡ some s) ⊎ HasRunning s.age s.deployment_id ds)

  abbrev Above : ComposeDeployments → Option StuckDeploy → Type 0
  Above c none = Unit
  Above c (some s) = (ceiling < s.age) × (s.compose_id ≡ c.compose_id)

  consider-Above :
      (c : ComposeDeployments) (acc : Option StuckDeploy) (d : Deployment)
      → Above c acc
      → Above c (consider from_iso now ceiling c acc d)
  unfolding consider
  consider-Above c none d h = ground arith
  consider-Above c (some s) d h = ground arith

  Best-consider :
      (c : ComposeDeployments) (acc : Option StuckDeploy) (d : Deployment) (rest : List Deployment)
      (r : Option StuckDeploy)
      → Best c (consider from_iso now ceiling c acc d) rest r
      → Best c acc (d ∷ rest) r
  unfolding consider
  Best-consider c acc d rest none h = ground arith
  Best-consider c acc d rest (some s) h = ground arith

  oldest_stuck-Best :
      (c : ComposeDeployments) (acc : Option StuckDeploy) (ds : List Deployment)
      → Above c acc
      → Best c acc ds (oldest_stuck from_iso now ceiling c acc ds)
  unfolding oldest_stuck
  oldest_stuck-Best c none [] h = (refl, tt)
  oldest_stuck-Best c (some s) [] h = ground arith
  oldest_stuck-Best c acc (d ∷ rest) h =
      Best-consider c acc d rest _ (
        oldest_stuck-Best c (consider from_iso now ceiling c acc d) rest (consider-Above c acc d h))

  -- The reports stand in the order of the composes, at most one for each.
  pub data Covers : List ComposeDeployments → List StuckDeploy → Type 0 where
    done : Covers [] []
    skipped :
        {c : ComposeDeployments} {cs : List ComposeDeployments} {reports : List StuckDeploy}
        → Reports c c.deployments none
        → Covers cs reports
        → Covers (c ∷ cs) reports
    reported :
        {c : ComposeDeployments} {cs : List ComposeDeployments} {s : StuckDeploy}
        {reports : List StuckDeploy}
        → Reports c c.deployments (some s)
        → Covers cs reports
        → Covers (c ∷ cs) (s ∷ reports)

  Best-Reports :
      (c : ComposeDeployments) (ds : List Deployment) (r : Option StuckDeploy)
      → Best c none ds r
      → Reports c ds r
  Best-Reports c ds none h = h.1
  Best-Reports c ds (some s) (above, named, most, _, origin) =
      (above, named, elim origin [ inl absent ↦ cc | inr running ↦ running ], most)

  Covers-cons :
      (c : ComposeDeployments) {cs : List ComposeDeployments} {reports : List StuckDeploy}
      (r : Option StuckDeploy)
      → Reports c c.deployments r
      → Covers cs reports
      → Covers (c ∷ cs) (elim r [ none ↦ reports | some s ↦ s ∷ reports ])
  Covers-cons c none h rest = skipped h rest
  Covers-cons c (some s) h rest = reported h rest

  -- Each compose is skipped, and then no running deployment of it is older than the
  -- ceiling, or has one report, in the order of the composes: of a running deployment of its own that is above the ceiling and that
  -- no running deployment of it is older than. Deployments whose start is unknown do not count.
  pub find_stuck_deploys-Covers :
      (composes : List ComposeDeployments)
      → Covers composes (find_stuck_deploys from_iso now ceiling composes)
  unfolding find_stuck_deploys
  find_stuck_deploys-Covers [] = done
  find_stuck_deploys-Covers (c ∷ rest) =
      Covers-cons c (oldest_stuck from_iso now ceiling c none c.deployments)
        (Best-Reports c c.deployments _ (oldest_stuck-Best c none c.deployments tt))
        (find_stuck_deploys-Covers rest)
