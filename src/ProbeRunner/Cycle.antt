-- ===== src/ProbeRunner/Cycle.antt =====
-- One group in `run_once`: learning which probes have passed, the cascade, the two streams and their
-- polls. The payload and its delivery are not modelled; a sent stream is an event.
use infra.Prelude.{
  ℕ, String, ◌<>◌, Bool, not, ◌&&◌, List, [], ◌∷◌, ◌++◌, str_eq, if◌then◌else◌, keep_if,
}
use mathlib.Core.Option
use infra.Prelude.Dict.{Dict, lookup, insert, contains}
use infra.ProbeRunner.{ProbeResult, failed_results}
use infra.ProbeRunner.Cascade.{names_of, group_failures, uncascaded}
use infra.ProbeRunner.Streams.{
  GroupState, resolved_state, Thresholds, Found, healthy, failing, poll_stream,
}

-- `ever_succeeded`, a set of names, with the names that passed in this poll.
unfoldable pub learn : List ProbeResult → List String → List String
learn [] ever = ever
learn (r ∷ rest) ever =
    learn rest
      (if r.ok then (if contains r.spec.name ever then ever else r.spec.name ∷ ever) else ever)

module _ (ever : List String) (results : List ProbeResult) where
  abbrev pub is_misconfigured : ProbeResult → Bool
  is_misconfigured r = str_eq r.spec.kind "command" && not (contains r.spec.name ever)

  -- The failures of `command` probes that have never passed.
  abbrev pub misconfig : List ProbeResult
  misconfig = keep_if is_misconfigured (uncascaded results (group_failures results))

  abbrev pub regression_results : List ProbeResult
  regression_results =
      keep_if (λ r. not (contains r.spec.name (names_of misconfig))) (uncascaded results results)

-- A stream that sent: its key and its results.
pub record Sent : Type 0 where
  pub stream : String
  pub results : List ProbeResult

module _ (digest : List ProbeResult → String) (t : Thresholds) (now : ℕ) (maintenance : Bool) where
  -- `digest` is the fingerprint of the failures: a hash of their names, kinds and texts.
  abbrev pub found_of : List ProbeResult → Found
  found_of results = elim (failed_results results) [
    | [] ↦ healthy
    | r ∷ rest ↦ failing (digest (r ∷ rest))
  ]

  unfoldable pub poll_key :
      String → List ProbeResult → Dict GroupState → Dict GroupState × List Sent
  poll_key key results groups =
      let (g, sent) =
        poll_stream t now maintenance (found_of results)
          (Option.get_or (lookup key groups) resolved_state) in
      (insert key g groups, if sent then record { stream = key; results = results } ∷ [] else [])

  -- The regression stream first, then the misconfigured one.
  unfoldable pub run_group :
      String
      → List ProbeResult
      → List String
      → Dict GroupState
      → List String × Dict GroupState × List Sent
  unfolding learn poll_key
  run_group name results ever groups =
      let ever' = learn results ever in
      let (regressed, first) = poll_key name (regression_results ever' results) groups in
      let (misconfigured, second) =
        poll_key (name <> ":misconfigured") (misconfig ever' results) regressed in
      (ever', misconfigured, first ++ second)
