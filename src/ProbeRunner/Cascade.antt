-- ===== src/ProbeRunner/Cascade.antt =====
-- `_cascades_to_failing_root` and `_resolve_failing_root`. Each `while` loop takes fuel, and `none`
-- means that the fuel ran out.
use mathlib.Core.Option
use infra.Prelude.{
  ℕ, zero, suc, String, Bool, true, false, not, ◌&&◌, Option, none, some, List, [], ◌∷◌, str_eq,
  if◌then◌else◌, length, keep_if,
}
use infra.Prelude.Dict.{Dict, lookup, insert, contains}
use infra.ProbeRunner.{ProbeResult, failed_results}

abbrev pub names_of : List ProbeResult → List String
names_of [] = []
names_of (r ∷ rest) = r.spec.name ∷ names_of rest

-- `dep_of`: a later result of the same name replaces an earlier one.
unfoldable pub dep_of : List ProbeResult → Dict String → Dict String
unfolding insert
dep_of [] d = d
dep_of (r ∷ rest) d =
    dep_of rest (if str_eq r.spec.depends_on "" then d else insert r.spec.name r.spec.depends_on d)

module _ (deps : Dict String) (failed : List String) where
  -- `dep_of.get(cur)`, with `None` as the empty text, which the loops test alike.
  abbrev pub next_of : String → String
  next_of cur = Option.get_or (lookup cur deps) ""

  -- The loop of `_cascades_to_failing_root`, at a `cur` that is not empty.
  unfoldable pub cascades_loop : ℕ → String → List String → Option Bool
  cascades_loop zero cur seen = none
  cascades_loop (suc fuel) cur seen =
      let rest = cascades_loop fuel (next_of cur) (cur ∷ seen) in
      if not (contains cur failed)
      then some false
      else if contains cur seen
      then some false
      else if str_eq (next_of cur) ""
      then some true
      else rest

  -- A round per failed probe, and one more.
  abbrev pub rounds : ℕ
  rounds = suc (length failed)

  unfoldable pub cascades_to_failing_root : String → Option Bool
  unfolding cascades_loop
  cascades_to_failing_root name =
      if str_eq (next_of name) ""
      then some false
      else cascades_loop rounds (next_of name) (name ∷ [])

  -- The loop of `_resolve_failing_root`.
  unfoldable pub root_loop : ℕ → String → String → List String → Option String
  root_loop zero root cur seen = none
  root_loop (suc fuel) root cur seen =
      let rest = root_loop fuel cur (next_of cur) (cur ∷ seen) in
      if str_eq cur ""
      then some root
      else if contains cur failed && not (contains cur seen)
      then rest
      else some root

  -- One more round, for the test that finds the empty text.
  unfoldable pub resolve_failing_root : String → Option String
  unfolding root_loop
  resolve_failing_root name = root_loop (suc rounds) name (next_of name) (name ∷ [])

-- The failures of a group that the cascade hides, and the two filters of `run_once`.
module _ (results : List ProbeResult) where
  abbrev pub group_failures : List ProbeResult
  group_failures = failed_results results

  abbrev pub failed_names : List String
  failed_names = names_of group_failures

  abbrev pub group_deps : Dict String
  group_deps = dep_of group_failures []

  abbrev pub is_cascaded : String → Bool
  is_cascaded name = Option.get_or (cascades_to_failing_root group_deps failed_names name) false

  abbrev pub cascaded_names : List String
  cascaded_names = names_of (keep_if (λ r. is_cascaded r.spec.name) group_failures)

  unfoldable pub uncascaded : List ProbeResult → List ProbeResult
  uncascaded = keep_if (λ r. not (contains r.spec.name cascaded_names))
