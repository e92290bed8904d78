-- ===== src/ProbeRunner/Streams.antt =====
-- `_should_send`, `_record_sent` and `_record_resolved`: the state of one alert stream. The
-- fingerprint of the failures, a hash of their JSON, comes with the poll.
use infra.Prelude.{
  ℕ, ◌+◌, max, String, Bool, true, false, not, ◌&&◌, ◌||◌, List, [], ◌∷◌, ltb, leb, str_eq,
  if◌then◌else◌,
}

-- `state["groups"][name]`; a missing field reads as these zeros.
pub record GroupState : Type 0 where
  pub active : Bool
  pub fingerprint : String
  pub pending_fingerprint : String
  pub failure_count : ℕ
  pub recovery_count : ℕ
  pub last_alert_at : ℕ

-- `_record_resolved`, and the state of a stream that is not in the file.
abbrev pub resolved_state : GroupState
resolved_state = record {
  active = false;
  fingerprint = "";
  pending_fingerprint = "";
  failure_count = 0;
  recovery_count = 0;
  last_alert_at = 0;
}

pub record Thresholds : Type 0 where
  pub renotify_seconds : ℕ
  pub failure_threshold : ℕ
  pub recovery_threshold : ℕ

-- What a poll found of the stream: no failure, or failures with this fingerprint.
pub data Found : Type 0 where
  healthy : Found
  failing : (fingerprint : String) → Found

module _ (t : Thresholds) (now : ℕ) where
  -- `_should_send`: the state that it leaves, and its answer.
  unfoldable pub should_send : Found → GroupState → GroupState × Bool
  should_send healthy g =
      let recovery_count = g.recovery_count + 1 in
      if not g.active
      then (resolved_state, false)
      else if ltb recovery_count (max 1 t.recovery_threshold)
      then (record g { failure_count = 0; recovery_count = recovery_count }, false)
      else (resolved_state, true)
  should_send (failing fingerprint) g =
      let failure_count =
        if str_eq fingerprint g.pending_fingerprint then g.failure_count + 1 else 1 in
      let counted = record g {
        pending_fingerprint = fingerprint;
        failure_count = failure_count;
        recovery_count = 0;
      } in
      if ltb failure_count (max 1 t.failure_threshold) && not g.active then (counted, false) else (
        counted,
        not g.active
            || not (str_eq fingerprint g.fingerprint)
            || leb (t.renotify_seconds + g.last_alert_at) now,
      )

  -- `_record_sent`
  unfoldable pub record_sent : Found → GroupState → GroupState
  record_sent healthy g = record {
    active = false;
    fingerprint = "";
    pending_fingerprint = "";
    failure_count = g.failure_count;
    recovery_count = 0;
    last_alert_at = now;
  }
  record_sent (failing fingerprint) g = record {
    active = true;
    fingerprint = fingerprint;
    pending_fingerprint = fingerprint;
    failure_count = g.failure_count;
    recovery_count = 0;
    last_alert_at = now;
  }

  -- The body of the loop over the streams, outside a dry run: the state, and whether the payload is
  -- sent. `maintenance` is `_maintenance_active`.
  unfoldable pub poll_stream : (maintenance : Bool) → Found → GroupState → GroupState × Bool
  unfolding should_send record_sent
  poll_stream maintenance found g =
      let (asked, send) = should_send found g in
      if not send
      then (asked, false)
      else if maintenance
      then (asked, false)
      else (record_sent found asked, true)

-- Polls of one stream, each with its time, the maintenance flag and what it found.
pub record Poll : Type 0 where
  pub now : ℕ
  pub maintenance : Bool
  pub found : Found

-- The state after the polls, and which of them sent.
unfoldable pub run_stream : Thresholds → GroupState → List Poll → GroupState × List Bool
run_stream t g [] = (g, [])
run_stream t g (p ∷ rest) =
    let (g', sent) = poll_stream t p.now p.maintenance p.found g in
    let (last, sends) = run_stream t g' rest in (last, sent ∷ sends)
