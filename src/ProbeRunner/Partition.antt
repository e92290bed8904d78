-- ===== src/ProbeRunner/Partition.antt =====
-- tools/infra_probe_runner.py: which of the two streams of a group a failed probe is in.
use infra.Prelude.{
  String, ◌≡◌, refl, ◌∙◌, ap, Bool, true, false, not, ◌&&◌, ◌||◌, List, [], ◌∷◌, arith, keep_if,
  str_eq, eq_iff, if◌then◌else◌,
}
use infra.Prelude.Dict.{contains}
use infra.ProbeRunner.{ProbeResult, failed_results}
use infra.ProbeRunner.Cascade.{names_of, group_failures, uncascaded}
use infra.ProbeRunner.Roots.{paged, contains-keep_if}
use infra.ProbeRunner.Cycle.{misconfig, regression_results, is_misconfigured, learn}

failed_results-keep_if :
    (p : ProbeResult → Bool) (l : List ProbeResult)
    → failed_results (keep_if p l) ≡ keep_if p (failed_results l)
failed_results-keep_if p [] = refl
failed_results-keep_if p (r ∷ l) = ground (arith, failed_results-keep_if p l)

failed_results_idem : (l : List ProbeResult) → failed_results (failed_results l) ≡ failed_results l
failed_results_idem [] = refl
failed_results_idem (r ∷ l) = ground (arith, failed_results_idem l)

contains-sub :
    (p : ProbeResult → Bool) (k : String) (l : List ProbeResult)
    → contains k (names_of (keep_if p l)) ≡ true
    → contains k (names_of l) ≡ true
contains-sub p k [] h = h
contains-sub p k (r ∷ l) h = ground (arith, contains-sub p k l)

module _ (ever : List String) (results : List ProbeResult) where
  abbrev pub regressed : List String
  regressed = names_of (failed_results (regression_results ever results))

  abbrev pub misconfigured : List String
  misconfigured = names_of (failed_results (misconfig ever results))

  failed_uncascaded :
      failed_results (uncascaded results results) ≡ uncascaded results (group_failures results)
  unfolding uncascaded
  failed_uncascaded = failed_results-keep_if _ results

  failed_misconfig : failed_results (misconfig ever results) ≡ misconfig ever results
  unfolding uncascaded
  failed_misconfig =
      failed_results-keep_if (is_misconfigured ever results)
        (uncascaded results (group_failures results))
      ∙ ap (keep_if (is_misconfigured ever results)) (
          failed_results-keep_if _ (group_failures results)
          ∙ ap (keep_if _) (failed_results_idem results))

  contains-regressed :
      (k : String)
      → contains k regressed
        ≡ (not (contains k (names_of (misconfig ever results))) && contains k (paged results))
  contains-regressed k =
      ap (λ l. contains k (names_of l))
        (failed_results-keep_if _ (uncascaded results results) ∙ ap (keep_if _) failed_uncascaded)
      ∙ contains-keep_if (λ name. not (contains name (names_of (misconfig ever results)))) k
          (uncascaded results (group_failures results))

  -- A probe that the cascade leaves fails in one of the streams, and not in both.
  shared_out :
      (k : String)
      → ((contains k regressed || contains k misconfigured) ≡ contains k (paged results))
        × ((contains k regressed && contains k misconfigured) ≡ false)
  shared_out k =
      rw (contains-regressed k, failed_misconfig)
        (ground (
          arith,
          contains-sub (is_misconfigured ever results) k
              (uncascaded results (group_failures results)),
        ))

-- `ever_succeeded` after some polls of the group.
pub learned : List (List ProbeResult) → List String → List String
learned [] ever = ever
learned (results ∷ rest) ever = learned rest (learn results ever)

-- The probe passed in the poll; in one of the polls.
abbrev pub passed_in : String → List ProbeResult → Bool
passed_in k [] = false
passed_in k (r ∷ results) = (str_eq r.spec.name k && r.ok) || passed_in k results

abbrev pub passed_ever : String → List (List ProbeResult) → Bool
passed_ever k [] = false
passed_ever k (results ∷ polls) = passed_in k results || passed_ever k polls

-- One of the results is of a `command` probe with the name.
abbrev pub has_command : String → List ProbeResult → Bool
has_command k [] = false
has_command k (r ∷ results) =
    (str_eq r.spec.name k && str_eq r.spec.kind "command") || has_command k results

contains_same : (k n : String) (l : List String) → str_eq n k ≡ true → contains n l ≡ contains k l
contains_same k n l same = ap (λ x. contains x l) ((eq_iff n k).0 same)

learned_one :
    (k n : String) (ok : Bool) (ever : List String)
    → contains k (if ok then (if contains n ever then ever else n ∷ ever) else ever)
      ≡ (contains k ever || (str_eq n k && ok))
learned_one k n ok ever = ground (arith, contains_same k n ever)

contains-learn :
    (k : String) (results : List ProbeResult) (ever : List String)
    → contains k (learn results ever) ≡ (contains k ever || passed_in k results)
unfolding learn
contains-learn k [] ever = ground arith
contains-learn k (r ∷ results) ever =
    contains-learn k results _ ∙ ground (arith, learned_one k r.spec.name r.ok ever)

contains-learned :
    (k : String) (history : List (List ProbeResult)) (ever : List String)
    → contains k (learned history ever) ≡ (contains k ever || passed_ever k history)
unfolding learned
contains-learned k [] ever = ground arith
contains-learned k (results ∷ rest) ever =
    contains-learned k rest (learn results ever) ∙ ground (arith, contains-learn k results ever)

contains-misconfigured :
    (k : String) (ever : List String) (l : List ProbeResult)
    → contains k (
        names_of (keep_if (λ r. str_eq r.spec.kind "command" && not (contains r.spec.name ever)) l))
      ≡ (has_command k l && not (contains k ever))
contains-misconfigured k ever [] = refl
contains-misconfigured k ever (r ∷ l) =
    ground (arith, contains-misconfigured k ever l, contains_same k r.spec.name ever)

-- After any polls of a group, and the poll at hand: a probe fails in the misconfigured stream exactly if
-- the cascade leaves a failure of it as a `command` probe, and it has passed neither in one of the polls
-- nor before them; it fails in the other stream exactly if the cascade leaves its failure and it does
-- not fail in the misconfigured one; and each failure that the cascade leaves is in one of them.
pub streams-partition :
    (ever : List String) (history : List (List ProbeResult)) (results : List ProbeResult)
    (k : String)
    → let ever' = learn results (learned history ever) in
      (contains k (misconfigured ever' results) ≡ (
        has_command k (uncascaded results (group_failures results))
        && not (contains k ever || passed_ever k history || passed_in k results)))
      × ((contains k (regressed ever' results)
            ≡ (contains k (paged results) && not (contains k (misconfigured ever' results))))
          × ((contains k (regressed ever' results) || contains k (misconfigured ever' results))
              ≡ contains k (paged results)))
streams-partition ever history results k =
    let ever' = learn results (learned history ever) in
    let (shared, apart) = shared_out ever' results k in
    let there = contains-misconfigured k ever' (uncascaded results (group_failures results)) in
    (
      ap (λ l. contains k (names_of l)) (failed_misconfig ever' results)
          ∙ there
          ∙ ground (
            arith,
            contains-learn k results (learned history ever),
            contains-learned k history ever,
          ),
      (ground (arith, shared, apart), shared),
    )
