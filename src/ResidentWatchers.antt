-- ===== src/ResidentWatchers.antt =====
-- libs/resident_watchers.py: the plugins of the probe loop, each paced by its own interval. Times are
-- those of `time.monotonic`, in one unit; `now - last < interval` is written `now < interval + last`.
pub mod Pacing
pub mod Examples
use infra.Prelude.{ℕ, ◌+◌, Bool, true, false, Option, none, some, List, [], ◌∷◌, ltb, if◌then◌else◌}

-- A plugin: its interval, its last run, and whatever state its sweep keeps.
pub record ResidentWatcher (S : Type 0) : Type 0 where
  pub interval_seconds : ℕ
  pub last_run : Option ℕ
  pub memory : S

-- What `_sweep` did to the state, and whether it raised.
pub record Swept (S : Type 0) : Type 0 where
  pub memory : S
  pub raised : Bool

-- Is the watcher's own interval over?
abbrev pub is_due : {S : Type 0} → ResidentWatcher S → ℕ → Bool
is_due w now = elim w.last_run [
  | none ↦ true
  | some last ↦ if ltb now (w.interval_seconds + last) then false else true
]

module _ {S : Type 0} (sweep : S → Swept S) where
  -- `maybe_run`. An exception of the sweep ends here, with what the sweep had written by then.
  unfoldable pub maybe_run : ResidentWatcher S → ℕ → ResidentWatcher S × Bool
  maybe_run w now =
      if is_due w now
      then (record w { last_run = some now; memory = (sweep w.memory).memory }, true)
      else (w, false)

  -- The ticks of the loop, in order: the watcher after them, and which of them swept.
  unfoldable pub ticks : ResidentWatcher S → List ℕ → ResidentWatcher S × List Bool
  ticks w [] = (w, [])
  ticks w (now ∷ rest) =
      let (w', ran) = maybe_run w now in let (last, runs) = ticks w' rest in (last, ran ∷ runs)
