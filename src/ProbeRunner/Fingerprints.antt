-- ===== src/ProbeRunner/Fingerprints.antt =====
-- tools/infra_probe_runner.py: streams that send nothing, for their fingerprints or for maintenance.
use infra.Prelude.{
  ℕ, ◌+◌, ◌≤◌, max, String, ◌≡◌, refl, Bool, true, false, List, [], ◌∷◌, arith, str_eq,
}
use infra.ProbeRunner.Streams.{
  GroupState, resolved_state, Thresholds, Found, healthy, failing, poll_stream, Poll, run_stream,
}

-- Every poll fails, and no two polls in a row, nor the first with `last`, have the same fingerprint.
abbrev pub Fluctuates : String → List Poll → Type 0
Fluctuates last [] = Unit
Fluctuates last (p ∷ rest) = elim p.found [
  | healthy ↦ ⊥
  | failing fp ↦ (str_eq fp last ≡ false) × Fluctuates fp rest
]

-- No poll sent.
abbrev pub Silent : List Bool → Type 0
Silent [] = Unit
Silent (sent ∷ l) = (sent ≡ false) × Silent l

module _ (t : Thresholds) where
  fluctuates_step :
      (g : GroupState) (now : ℕ) (maintenance : Bool) (fp : String)
      → 2 ≤ t.failure_threshold
      → g.active ≡ false
      → str_eq fp g.pending_fingerprint ≡ false
      → let (g', sent) = poll_stream t now maintenance (failing fp) g in
        (g'.active ≡ false) × (g'.pending_fingerprint ≡ fp) × (sent ≡ false)
  unfolding poll_stream
  fluctuates_step g now maintenance fp two idle other = ground arith

  Fluctuates-poll :
      (g : GroupState) (now : ℕ) (maintenance : Bool) (found : Found) (rest : List Poll)
      → 2 ≤ t.failure_threshold
      → g.active ≡ false
      → Fluctuates g.pending_fingerprint
          (record { now = now; maintenance = maintenance; found = found } ∷ rest)
      → let (g', sent) = poll_stream t now maintenance found g in
        (g'.active ≡ false) × Fluctuates g'.pending_fingerprint rest × (sent ≡ false)
  Fluctuates-poll g now maintenance healthy rest two idle f = absurd f
  Fluctuates-poll g now maintenance (failing fp) rest two idle (other, f) =
      let (idle', pending, silent) = fluctuates_step g now maintenance fp two idle other in
      (idle', rw pending f, silent)

  -- With a failure threshold of at least 2, a stream with no open incident, whose polls all fail but
  -- never twice in a row with the same fingerprint, never sends.
  pub fluctuating-Silent :
      (g : GroupState) (history : List Poll)
      → 2 ≤ t.failure_threshold
      → g.active ≡ false
      → Fluctuates g.pending_fingerprint history
      → Silent (run_stream t g history).1
  unfolding run_stream
  fluctuating-Silent g [] two idle f = tt
  fluctuating-Silent g (p ∷ rest) two idle f =
      let (idle', f', silent) = Fluctuates-poll g p.now p.maintenance p.found rest two idle f in
      (silent, fluctuating-Silent (poll_stream t p.now p.maintenance p.found g).0 rest two idle' f')

  -- Every poll is healthy.
  abbrev pub AllHealthy : List Poll → Type 0
  AllHealthy [] = Unit
  AllHealthy (p ∷ rest) = (p.found ≡ healthy) × AllHealthy rest

  healthy_idle :
      (g : GroupState) (now : ℕ) (maintenance : Bool)
      → g.active ≡ false
      → poll_stream t now maintenance healthy g ≡ (resolved_state, false)
  unfolding poll_stream
  healthy_idle g now maintenance idle = ground arith

  healthy-Silent :
      (g : GroupState) (history : List Poll)
      → g.active ≡ false
      → AllHealthy history
      → Silent (run_stream t g history).1
  unfolding run_stream
  healthy-Silent g [] idle h = tt
  healthy-Silent g (p ∷ rest) idle (ok, h) =
      rw (ok, healthy_idle g p.now p.maintenance idle)
        (refl, healthy-Silent resolved_state rest refl h)

  -- An open incident whose recovery completes during maintenance is forgotten: that poll does not
  -- send, and no healthy poll after it does, in maintenance or not. The RESOLVED is lost.
  pub maintenance_loses_resolved :
      (g : GroupState) (now : ℕ) (history : List Poll)
      → g.active ≡ true
      → max 1 t.recovery_threshold ≤ g.recovery_count + 1
      → AllHealthy history
      → (poll_stream t now false healthy g).1 ≡ true
        × Silent
            (run_stream t g (record { now = now; maintenance = true; found = healthy } ∷ history)).1
  unfolding poll_stream run_stream
  maintenance_loses_resolved g now history open_ enough h =
      let lost : poll_stream t now true healthy g ≡ (resolved_state, false) = ground arith in
      (ground arith, rw lost (refl, healthy-Silent resolved_state history refl h))
