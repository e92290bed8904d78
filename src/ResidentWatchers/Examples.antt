-- ===== src/ResidentWatchers/Examples.antt =====
-- A watcher over a few ticks.
use infra.Prelude.{ℕ, suc, ◌+◌, ◌*◌, ◌≤◌, ◌≡◌, refl, true, false, none, some, List, [], ◌∷◌, arith}
use infra.ResidentWatchers.{ResidentWatcher, Swept, maybe_run, ticks}
use infra.ResidentWatchers.Pacing.{count_true, runs-le-elapsed, elapsed-le-runs}

-- Counts its sweeps, and raises after the count.
abbrev failing : ℕ → Swept ℕ
failing n = record { memory = suc n; raised = true }

abbrev guard : ResidentWatcher ℕ
guard = record { interval_seconds = 60; last_run = none; memory = 0 }

abbrev clock : List ℕ
clock = 10 ∷ 40 ∷ 70 ∷ 100 ∷ 130 ∷ []

paced : ticks failing guard clock ≡ (
  record { interval_seconds = 60; last_run = some 130; memory = 3 },
  true ∷ false ∷ true ∷ false ∷ true ∷ [],
)
unfolding ticks maybe_run
paced = refl

runs-le-elapsed_example : count_true (ticks failing guard clock).1 * 60 ≤ 120 + 60
runs-le-elapsed_example = runs-le-elapsed failing guard 10 clock refl (omega arith)

elapsed-le-runs_example : 120 ≤ count_true (ticks failing guard clock).1 * (60 + 30)
elapsed-le-runs_example =
    elapsed-le-runs failing guard 30 10 clock refl
      (omega arith, (omega arith, (omega arith, (omega arith, (omega arith, tt)))))
      (omega arith, (omega arith, (omega arith, (omega arith, (omega arith, tt)))))
