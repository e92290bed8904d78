-- ===== src/ResidentWatchers/Pacing.antt =====
-- libs/resident_watchers.py: how often a watcher sweeps over the ticks of the loop.
use infra.Prelude.{
  ℕ, suc, ◌+◌, ◌-◌, ◌*◌, ◌≤◌, ◌≡◌, Bool, true, false, none, some, List, [], ◌∷◌, arith, ap,
}
use infra.ResidentWatchers.{ResidentWatcher, Swept, maybe_run, ticks}

abbrev pub count_true : List Bool → ℕ
count_true [] = 0
count_true (true ∷ l) = suc (count_true l)
count_true (false ∷ l) = count_true l

abbrev ran_once : Bool → ℕ
ran_once true = 1
ran_once false = 0

count_true-cons : (b : Bool) (l : List Bool) → count_true (b ∷ l) ≡ ran_once b + count_true l
count_true-cons true l = omega arith
count_true-cons false l = omega arith

abbrev pub InOrder : ℕ → List ℕ → Type 0
InOrder start [] = Unit
InOrder start (now ∷ rest) = (start ≤ now) × InOrder now rest

-- No tick comes more than `gap` after the one before.
abbrev pub NoLonger : (gap start : ℕ) → List ℕ → Type 0
NoLonger gap start [] = Unit
NoLonger gap start (now ∷ rest) = (now ≤ start + gap) × NoLonger gap now rest

abbrev pub end_of : ℕ → List ℕ → ℕ
end_of start [] = start
end_of start (now ∷ rest) = end_of now rest

start-le-end_of : (start : ℕ) (l : List ℕ) → InOrder start l → start ≤ end_of start l
start-le-end_of start [] o = omega arith
start-le-end_of start (now ∷ rest) (later, o) = omega (arith, start-le-end_of now rest o)

module _ {S : Type 0} (sweep : S → Swept S) where
  -- No sweep is in the future.
  abbrev pub RanBy : ResidentWatcher S → ℕ → Type 0
  RanBy w at = elim w.last_run [ none ↦ Unit | some last ↦ last ≤ at ]

  abbrev waited : ResidentWatcher S → ℕ → ℕ
  waited w at = elim w.last_run [ none ↦ w.interval_seconds | some last ↦ at - last ]

  waited-maybe_run :
      (w : ResidentWatcher S) (start now : ℕ)
      → RanBy w start
      → start ≤ now
      → let (w', ran) = maybe_run sweep w now in
        (ran_once ran * w.interval_seconds + waited w' now ≤ (now - start) + waited w start)
        × RanBy w' now
        × (w'.interval_seconds ≡ w.interval_seconds)
  unfolding maybe_run
  waited-maybe_run w start now h later = ground arith

  runs_from :
      (w : ResidentWatcher S) (start : ℕ) (l : List ℕ)
      → RanBy w start
      → InOrder start l
      → count_true (ticks sweep w l).1 * w.interval_seconds
        ≤ (end_of start l - start) + waited w start
  unfolding ticks
  runs_from w start [] h o = omega arith
  runs_from w start (now ∷ rest) h (later, o) =
      let (w', ran) = maybe_run sweep w now in
      let (fewer, ran_by, same) = waited-maybe_run w start now h later in
      omega (
        arith,
        fewer,
        runs_from w' now rest ran_by o,
        start-le-end_of now rest o,
        ap (λ (n : ℕ). count_true (ticks sweep w' rest).1 * n) same,
        ap (λ (n : ℕ). n * w.interval_seconds) (count_true-cons ran (ticks sweep w' rest).1),
      )

  -- A new watcher's sweeps, over ticks in order, times its interval are at most the time that passed
  -- plus one interval, whatever the sweeps do.
  pub runs-le-elapsed :
      (w : ResidentWatcher S) (start : ℕ) (l : List ℕ)
      → w.last_run ≡ none
      → InOrder start l
      → count_true (ticks sweep w l).1 * w.interval_seconds
        ≤ (end_of start l - start) + w.interval_seconds
  runs-le-elapsed w start l fresh o = ground (arith, runs_from w start l (rw fresh tt) o)

  -- The time since the last sweep, for a watcher that has swept.
  abbrev since : ResidentWatcher S → ℕ → ℕ
  since w at = elim w.last_run [ none ↦ 0 | some last ↦ at - last ]

  -- A watcher that has swept, not in the future and less than an interval ago, or just now.
  abbrev Fresh : ResidentWatcher S → ℕ → Type 0
  Fresh w at = elim w.last_run [
    | none ↦ ⊥
    | some last ↦ (last ≤ at) × (at - last ≤ w.interval_seconds)
  ]

  since-maybe_run :
      (w : ResidentWatcher S) (gap start now : ℕ)
      → Fresh w start
      → start ≤ now
      → now ≤ start + gap
      → let (w', ran) = maybe_run sweep w now in
        ((now - start) + since w start ≤ ran_once ran * (w.interval_seconds + gap) + since w' now)
        × Fresh w' now
        × (w'.interval_seconds ≡ w.interval_seconds)
  unfolding maybe_run
  since-maybe_run w gap start now h later soon = ground arith

  elapsed_from :
      (w : ResidentWatcher S) (gap start : ℕ) (l : List ℕ)
      → Fresh w start
      → InOrder start l
      → NoLonger gap start l
      → (end_of start l - start) + since w start
        ≤ count_true (ticks sweep w l).1 * (w.interval_seconds + gap) + w.interval_seconds
  unfolding ticks
  elapsed_from w gap start [] h o n = ground (arith, h)
  elapsed_from w gap start (now ∷ rest) h (later, o) (soon, n) =
      let (w', ran) = maybe_run sweep w now in
      let (enough, fresh, same) = since-maybe_run w gap start now h later soon in
      omega (
        arith,
        enough,
        elapsed_from w' gap now rest fresh o n,
        start-le-end_of now rest o,
        same,
        ap (λ (i : ℕ). count_true (ticks sweep w' rest).1 * (i + gap)) same,
        ap (λ (c : ℕ). c * (w.interval_seconds + gap))
            (count_true-cons ran (ticks sweep w' rest).1),
      )

  first_sweeps :
      (w : ResidentWatcher S) (now : ℕ)
      → w.last_run ≡ none
      → let (w', ran) = maybe_run sweep w now in
        (ran_once ran ≡ 1)
        × (Fresh w' now × ((since w' now ≡ 0) × (w'.interval_seconds ≡ w.interval_seconds)))
  unfolding maybe_run
  first_sweeps w now fresh = ground arith

  -- A new watcher is not starved: over ticks in order, none of which comes more than `gap` after the one
  -- before, the first one counted from the start, the time that passed is at most its sweeps times its
  -- interval and one gap, whatever the sweeps do.
  pub elapsed-le-runs :
      (w : ResidentWatcher S) (gap start : ℕ) (l : List ℕ)
      → w.last_run ≡ none
      → InOrder start l
      → NoLonger gap start l
      → end_of start l - start ≤ count_true (ticks sweep w l).1 * (w.interval_seconds + gap)
  unfolding ticks
  elapsed-le-runs w gap start [] fresh o n = omega arith
  elapsed-le-runs w gap start (now ∷ rest) fresh (later, o) (soon, n) =
      let (w', ran) = maybe_run sweep w now in
      let (once, (recent, (none_since, same))) = first_sweeps w now fresh in
      omega (
        arith,
        once,
        none_since,
        elapsed_from w' gap now rest recent o n,
        start-le-end_of now rest o,
        same,
        ap (λ (i : ℕ). count_true (ticks sweep w' rest).1 * (i + gap)) same,
        ap (λ (c : ℕ). c * (w.interval_seconds + gap))
            (count_true-cons ran (ticks sweep w' rest).1),
        ap (λ (c : ℕ). (c + count_true (ticks sweep w' rest).1) * (w.interval_seconds + gap)) once,
      )
