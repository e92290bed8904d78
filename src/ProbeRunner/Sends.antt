-- ===== src/ProbeRunner/Sends.antt =====
-- tools/infra_probe_runner.py: why a poll of a stream sends, told from its polls.
use infra.Prelude.{
  Option, none, some, ◌⊎◌, ◌≢◌, inl, inr, ℕ, suc, ◌+◌, ◌≤◌, max, String, ◌≡◌, refl, sym, ap, ◌∙◌,
  Bool, true, false, List, [], ◌∷◌, arith, eq_iff, str_eq, if◌then◌else◌,
}
use infra.ProbeRunner.Streams.{
  GroupState, resolved_state, Thresholds, Found, healthy, failing, poll_stream, Poll, run_stream,
}

-- How many of the newest polls in a row failed with this fingerprint; the newest stands first.
abbrev pub newest_failing : String → List Poll → ℕ
newest_failing fp [] = 0
newest_failing fp (p ∷ h) = elim p.found [
  | healthy ↦ 0
  | failing fp' ↦ if str_eq fp' fp then suc (newest_failing fp h) else 0
]

abbrev pub newest_healthy : List Poll → ℕ
newest_healthy [] = 0
newest_healthy (p ∷ h) = elim p.found [ healthy ↦ suc (newest_healthy h) | failing fp ↦ 0 ]

-- `rest` was polled after `h`.
abbrev pub onto : List Poll → List Poll → List Poll
onto h [] = h
onto h (p ∷ rest) = onto (p ∷ h) rest

-- The last poll that sent, if any did.
abbrev pub last_sent : Option Poll → List Poll → List Bool → Option Poll
last_sent last [] sends = last
last_sent last (p ∷ rest) [] = last
last_sent last (p ∷ rest) (sent ∷ sends) = last_sent (if sent then some p else last) rest sends

module _ (t : Thresholds) where
  -- The last poll that sent paged with another fingerprint, or a renotify interval ago.
  abbrev pub Renotified : Option Poll → (now : ℕ) → String → Type 0
  Renotified none now fp = ⊥
  Renotified (some p) now fp =
      (paged : String) × ((p.found ≡ failing paged)
        × ((fp ≢ paged) ⊎ (t.renotify_seconds + p.now ≤ now)))

  -- The counters of a stream are at most what the history shows.
  pub record Counts (g : GroupState) (h : List Poll) : Type 0 where
    pub failures : g.failure_count ≤ newest_failing g.pending_fingerprint h
    pub recoveries : g.active ≡ true → g.recovery_count ≤ newest_healthy h

  Counts-poll :
      (g : GroupState) (h : List Poll) (now : ℕ) (maintenance : Bool) (found : Found)
      → Counts g h
      → Counts
          (poll_stream t now maintenance found g).0
          (record { now = now; maintenance = maintenance; found = found } ∷ h)
  unfolding poll_stream
  Counts-poll g h now maintenance healthy c = ground arith
  Counts-poll g h now maintenance (failing fp) c =
      ground (arith, eq_iff fp g.pending_fingerprint, eq_iff fp fp)

  -- An open incident is the one of the last poll that sent.
  abbrev OpenedBy : GroupState → Option Poll → Type 0
  OpenedBy g none = ⊥
  OpenedBy g (some p) = (p.found ≡ failing g.fingerprint) × (p.now ≡ g.last_alert_at)

  abbrev pub Opened : GroupState → Option Poll → Type 0
  Opened g last = (g.active ≡ false) ⊎ OpenedBy g last

  -- A state that a poll without a page left, still open or not.
  kept-Opened :
      (g g' : GroupState) (last : Option Poll)
      → (g'.active ≡ false)
        ⊎ ((g'.active ≡ g.active)
            × ((g'.fingerprint ≡ g.fingerprint) × (g'.last_alert_at ≡ g.last_alert_at)))
      → Opened g last
      → Opened g' last
  kept-Opened g g' none kept o = ground arith
  kept-Opened g g' (some p) kept (inl idle) = ground arith
  kept-Opened g g' (some p) (inl closed) (inr by) = inl closed
  kept-Opened g g' (some p) (inr (_, (fingerprint, alert))) (inr (found, now)) =
      inr (found ∙ ap failing (sym fingerprint), now ∙ sym alert)

  -- No page, and the incident as it was.
  abbrev Kept : GroupState → GroupState × Bool → Type 0
  Kept g (g', sent) =
      (sent ≡ false)
      × ((g'.active ≡ g.active)
          × ((g'.fingerprint ≡ g.fingerprint) × (g'.last_alert_at ≡ g.last_alert_at)))

  healthy_closes :
      (g : GroupState) (now : ℕ) (maintenance : Bool)
      → let (g', sent) = poll_stream t now maintenance healthy g in
        (g'.active ≡ false) ⊎ Kept g (g', sent)
  unfolding poll_stream
  healthy_closes g now maintenance = ground arith

  failing_opens :
      (g : GroupState) (now : ℕ) (maintenance : Bool) (fp : String)
      → let (g', sent) = poll_stream t now maintenance (failing fp) g in
        ((sent ≡ true) × ((g'.fingerprint ≡ fp) × (g'.last_alert_at ≡ now))) ⊎ Kept g (g', sent)
  unfolding poll_stream
  failing_opens g now maintenance fp = ground arith

  Opened-step :
      (g : GroupState) (last : Option Poll) (p : Poll) (after : GroupState × Bool)
      → (after.0.active ≡ false)
        ⊎ (((after.1 ≡ true)
              × ((p.found ≡ failing after.0.fingerprint) × (p.now ≡ after.0.last_alert_at)))
            ⊎ Kept g after)
      → Opened g last
      → Opened after.0 (if after.1 then some p else last)
  Opened-step g last p after (inl closed) o = inl closed
  Opened-step g last p after (inr (inl (sent, by))) o = rw sent (inr by)
  Opened-step g last p (g', sent) (inr (inr (silent, kept))) o =
      rw silent (kept-Opened g g' last (inr kept) o)

  Opened-poll :
      (g : GroupState) (last : Option Poll) (now : ℕ) (maintenance : Bool) (found : Found)
      → Opened g last
      → let (g', sent) = poll_stream t now maintenance found g in
        Opened g' (
          if sent
          then some (record { now = now; maintenance = maintenance; found = found })
          else last)
  Opened-poll g last now maintenance healthy o =
      Opened-step g last (record { now = now; maintenance = maintenance; found = healthy })
        (poll_stream t now maintenance healthy g)
        (elim (healthy_closes g now maintenance) [
          | inl closed ↦ inl closed
          | inr kept ↦ inr (inr kept)
        ])
        o
  Opened-poll g last now maintenance (failing fp) o =
      Opened-step g last (record { now = now; maintenance = maintenance; found = failing fp })
        (poll_stream t now maintenance (failing fp) g)
        (elim (failing_opens g now maintenance fp) [
          | inl (sent, (fingerprint, alert)) ↦
              inr (inl (sent, (ap failing (sym fingerprint), sym alert)))
          | inr kept ↦ inr (inr kept)
        ])
        o

  -- Why a poll sends. A RESOLVED: an incident is open, and the newest polls, this one included, were
  -- healthy and are as many as the recovery threshold. A page: either no incident is open, and the
  -- newest polls, this one included, failed with its fingerprint and are as many as the failure
  -- threshold; or one is open, by the last poll that sent, and that had another fingerprint or is a
  -- renotify interval ago.
  abbrev pub Earned : GroupState → Option Poll → List Poll → (now : ℕ) → Found → Type 0
  Earned g last h now healthy =
      (g.active ≡ true) × (max 1 t.recovery_threshold ≤ suc (newest_healthy h))
  Earned g last h now (failing fp) =
      ((g.active ≡ false) × (max 1 t.failure_threshold ≤ suc (newest_failing fp h)))
      ⊎ ((g.active ≡ true) × Renotified last now fp)

  -- Why a page is sent, from the state.
  paged_because :
      (g : GroupState) (h : List Poll) (now : ℕ) (maintenance : Bool) (fp : String)
      → Counts g h
      → (poll_stream t now maintenance (failing fp) g).1 ≡ true
      → ((g.active ≡ false) × (max 1 t.failure_threshold ≤ suc (newest_failing fp h)))
        ⊎ ((g.active ≡ true)
            × ((fp ≢ g.fingerprint) ⊎ (t.renotify_seconds + g.last_alert_at ≤ now)))
  unfolding poll_stream
  paged_because g h now maintenance fp c sent =
      ground (arith, eq_iff fp g.pending_fingerprint, eq_iff fp g.fingerprint)

  Renotified-Opened :
      (g : GroupState) (last : Option Poll) (now : ℕ) (fp : String)
      → g.active ≡ true
      → Opened g last
      → (fp ≢ g.fingerprint) ⊎ (t.renotify_seconds + g.last_alert_at ≤ now)
      → Renotified last now fp
  Renotified-Opened g none now fp open_ (inl idle) why = ground arith
  Renotified-Opened g none now fp open_ (inr never) why = absurd never
  Renotified-Opened g (some p) now fp open_ (inl idle) why = ground arith
  Renotified-Opened g (some p) now fp open_ (inr (paged, alert)) why =
      (g.fingerprint, (paged, rw alert why))

  poll-Earned :
      (g : GroupState) (last : Option Poll) (h : List Poll) (now : ℕ) (maintenance : Bool)
      (found : Found)
      → Counts g h
      → Opened g last
      → (poll_stream t now maintenance found g).1 ≡ true
      → Earned g last h now found
  unfolding poll_stream
  poll-Earned g last h now maintenance healthy c o sent = ground arith
  poll-Earned g last h now maintenance (failing fp) c o sent =
      elim (paged_because g h now maintenance fp c sent) [
        | inl fresh ↦ inl fresh
        | inr (open_, why) ↦ inr (open_, Renotified-Opened g last now fp open_ o why)
      ]

  Counts-run_stream :
      (g : GroupState) (h rest : List Poll)
      → Counts g h
      → Counts (run_stream t g rest).0 (onto h rest)
  unfolding run_stream
  Counts-run_stream g h [] c = c
  Counts-run_stream g h (p ∷ rest) c =
      Counts-run_stream (poll_stream t p.now p.maintenance p.found g).0 (p ∷ h) rest
        (Counts-poll g h p.now p.maintenance p.found c)

  Opened-run_stream :
      (g : GroupState) (last : Option Poll) (rest : List Poll)
      → Opened g last
      → let (g', sends) = run_stream t g rest in Opened g' (last_sent last rest sends)
  unfolding run_stream
  Opened-run_stream g last [] o = o
  Opened-run_stream g last (p ∷ rest) o =
      let (g', sent) = poll_stream t p.now p.maintenance p.found g in
      Opened-run_stream g' (if sent then some p else last) rest
        (Opened-poll g last p.now p.maintenance p.found o)

  -- From a new stream and after any polls, a poll that sends is earned by them. A RESOLVED: an incident
  -- is open, and the newest polls, this one included, were healthy and are as many as the recovery
  -- threshold. A page: either no incident is open, and the newest polls, this one included, failed with
  -- its fingerprint and are as many as the failure threshold; or one is open, and the last poll that
  -- sent paged with another fingerprint or is a renotify interval ago.
  pub run_stream-Earned :
      (history : List Poll) (now : ℕ) (maintenance : Bool) (found : Found)
      → (poll_stream t now maintenance found (run_stream t resolved_state history).0).1 ≡ true
      → let (g, sends) = run_stream t resolved_state history in
        Earned g (last_sent none history sends) (onto [] history) now found
  run_stream-Earned history now maintenance found sent =
      poll-Earned (run_stream t resolved_state history).0
        (last_sent none history (run_stream t resolved_state history).1) (onto [] history) now
        maintenance found
        (Counts-run_stream resolved_state [] history
          (record { failures = omega arith; recoveries = λ e. cc }))
        (Opened-run_stream resolved_state none history (inl refl)) sent
