-- ===== src/ProbeRunner/Examples.antt =====
-- A group whose dependents fail with their collector, and the runner's theorems there.
use infra.Prelude.{
  ℕ, String, ◌≡◌, refl, true, false, Bool, not, ◌&&◌, ◌||◌, ◌⊎◌, none, some, List, [], ◌∷◌, arith,
}
use infra.Prelude.Dict.{lookup, contains}
use infra.ProbeRunner.{ProbeResult}
use infra.ProbeRunner.Cascade.{
  dep_of, cascades_to_failing_root, resolve_failing_root, failed_names, group_deps, group_failures,
  uncascaded,
}
use infra.ProbeRunner.Roots.{paged, failure_is_paged}
use infra.ProbeRunner.Streams.{
  GroupState, resolved_state, Thresholds, Found, healthy, failing, poll_stream, Poll, run_stream,
}
use infra.ProbeRunner.Sends.{last_sent, Earned, onto, run_stream-Earned}
use infra.ProbeRunner.Fingerprints.{Silent, fluctuating-Silent, maintenance_loses_resolved}
use infra.ProbeRunner.Cycle.{learn}
use infra.ProbeRunner.Partition.{
  regressed, misconfigured, learned, passed_in, passed_ever, has_command, streams-partition,
}

abbrev failed_probe : String → String → ProbeResult
failed_probe name depends_on = record {
  spec = record { name = name; kind = "http"; severity = "critical"; depends_on = depends_on };
  ok = false;
  summary = "connection refused";
  observed = "URLError";
}

-- `a` and `b` wait for each other; `trip` waits for `proxy`, which waits for `collector`.
abbrev group : List ProbeResult
group =
    failed_probe "trip" "proxy"
    ∷ failed_probe "proxy" "collector"
    ∷ failed_probe "collector" ""
    ∷ failed_probe "a" "b"
    ∷ failed_probe "b" "a"
    ∷ []

paged-group : paged group ≡ "collector" ∷ "a" ∷ "b" ∷ []
unfolding uncascaded dep_of cascades_to_failing_root lookup
paged-group = refl

failure_is_paged_example :
    (contains "trip" (paged group) ≡ true)
    ⊎ ((root : String) × (resolve_failing_root (group_deps group) (failed_names group) "trip"
          ≡ some root)
        × (contains root (paged group) ≡ true))
failure_is_paged_example = failure_is_paged group "trip" refl

abbrev trip : Bool → ProbeResult
trip ok = record {
  spec = record { name = "trip"; kind = "command"; severity = "critical"; depends_on = "" };
  ok = ok;
  summary = "";
  observed = "";
}

-- A command probe that failed twice and has never passed.
streams-partition_example :
    let results = trip false ∷ group in
    let ever = learn results (learned ((trip false ∷ []) ∷ []) []) in
    (contains "trip" (misconfigured ever results) ≡ (
      has_command "trip" (uncascaded results (group_failures results))
      && not (
          contains "trip" []
          || passed_ever "trip" ((trip false ∷ []) ∷ [])
          || passed_in "trip" results)))
    × ((contains "trip" (regressed ever results)
          ≡ (contains "trip" (paged results) && not (contains "trip" (misconfigured ever results))))
        × ((contains "trip" (regressed ever results)
              || contains "trip" (misconfigured ever results))
            ≡ contains "trip" (paged results)))
streams-partition_example =
    streams-partition [] ((trip false ∷ []) ∷ []) (trip false ∷ group) "trip"

abbrev defaults : Thresholds
defaults = record { renotify_seconds = 1800; failure_threshold = 3; recovery_threshold = 2 }

abbrev at_time : ℕ → Found → Poll
at_time now found = record { now = now; maintenance = false; found = found }

-- A CPU probe above its ceiling, whose reading changes from poll to poll.
abbrev readings : List Poll
readings =
    at_time 60 (failing "97.1")
    ∷ at_time 120 (failing "98.4")
    ∷ at_time 180 (failing "97.9")
    ∷ at_time 240 (failing "99.0")
    ∷ []

fluctuating-Silent_example : Silent (run_stream defaults resolved_state readings).1
fluctuating-Silent_example =
    fluctuating-Silent defaults resolved_state readings (omega arith) refl
      (refl, (refl, (refl, (refl, tt))))

-- Three polls open an incident; the first poll with another fingerprint pages again.
abbrev steady : List Poll
steady = at_time 60 (failing "x") ∷ at_time 120 (failing "x") ∷ at_time 180 (failing "x") ∷ []

changed_sends :
    (poll_stream defaults 240 false (failing "y") (run_stream defaults resolved_state steady).0).1
    ≡ true
unfolding poll_stream run_stream
changed_sends = refl

run_stream-Earned_example :
    let (g, sends) = run_stream defaults resolved_state steady in
    Earned defaults g (last_sent none steady sends) (onto [] steady) 240 (failing "y")
run_stream-Earned_example = run_stream-Earned defaults steady 240 false (failing "y") changed_sends

abbrev recovering : GroupState
recovering = record {
  active = true;
  fingerprint = "x";
  pending_fingerprint = "x";
  failure_count = 0;
  recovery_count = 1;
  last_alert_at = 180;
}

maintenance_loses_resolved_example :
    ((poll_stream defaults 300 false healthy recovering).1 ≡ true)
    × Silent
        (run_stream defaults recovering
          (record { now = 300; maintenance = true; found = healthy } ∷ at_time 360 healthy ∷ [])).1
maintenance_loses_resolved_example =
    maintenance_loses_resolved defaults recovering 300 (at_time 360 healthy ∷ []) refl (omega arith)
      (refl, tt)
