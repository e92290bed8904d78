-- ===== src/Rollout/Outcomes.antt =====
-- libs/deploy/rollout.py: which outcome the records and the flags choose.
use infra.Prelude.{
  ℕ, zero, suc, ◌+◌, ◌≤◌, ◌<◌, String, ◌≡◌, true, false, Option, none, some, List, [], ◌∷◌, sym,
  refl, arith, eq_iff, subst, ◌∙◌, Option-cases, inl, inr, ◌⊎◌, ◌≢◌,
}
use mathlib.Core.List.{cons-ne-nil}
use native.Mathlib.Decide.{dec_lt}
use infra.Prelude.Text.Order.{sorted}
use infra.Rollout.{
  Deployment, Status, running, done, error, timeout, RolloutResult, Outcome, judge_status, result,
  rollout_error, timeout_error, Flags, new_ids, latest, status_of, settle, at_deadline, wait_loop,
  wait_for_deployment,
}

module _ (flags : Flags) (before_ids : List String) (answers : ℕ → List Deployment)
    (clock : ℕ → ℕ) where
  -- The status of the newest new record at the attempt `n + 1`.
  abbrev pub seen : ℕ → String
  seen n = status_of (latest flags before_ids (answers n))

  abbrev pub NothingNew : ℕ → Type 0
  NothingNew n = new_ids before_ids (answers n) ≡ []

  -- The status of the newest new record is terminal and good.
  abbrev pub IsGood : ℕ → Type 0
  IsGood n = (seen n ≡ "done") ⊎ ((seen n ≡ "success") ⊎ (seen n ≡ "successful"))

  -- The attempt `n + 1` gives no reason to end the wait: no new record, or a newest one that neither
  -- failed nor came as far as the flags ask.
  abbrev pub Quiet : ℕ → Type 0
  Quiet n =
      NothingNew n
      ⊎ ((seen n ≢ "error")
          × (¬ IsGood n)
          × ((flags.require_terminal ≡ true) ⊎ (seen n ≢ "running")))

  abbrev pub SomethingNew : ℕ → Type 0
  SomethingNew n = new_ids before_ids (answers n) ≢ []

  -- What a result's status means at the attempt `n + 1`.
  abbrev pub MeansStatus : Status → ℕ → ℕ → Type 0
  MeansStatus running deadline n =
      SomethingNew n × ((seen n ≡ "running") × (flags.require_terminal ≡ false))
  MeansStatus done deadline n = SomethingNew n × IsGood n
  MeansStatus error deadline n =
      SomethingNew n × ((seen n ≡ "error") × (flags.raise_on_error ≡ false))
  MeansStatus timeout deadline n =
      Quiet n × ((deadline ≤ clock n) × (flags.raise_on_timeout ≡ false))

  -- A result also has the newest new record, the new ids, sorted, and the number of attempts.
  abbrev pub IsReport : RolloutResult → ℕ → ℕ → Type 0
  IsReport r deadline n =
      MeansStatus r.status deadline n
      × ((r.deployment ≡ latest flags before_ids (answers n))
          × ((r.new_ids ≡ sorted (new_ids before_ids (answers n))) × (r.attempts ≡ n + 1)))

  abbrev pub Means : Outcome → ℕ → ℕ → Type 0
  Means (result r) deadline n = IsReport r deadline n
  Means rollout_error deadline n =
      SomethingNew n × ((seen n ≡ "error") × (flags.raise_on_error ≡ true))
  Means timeout_error deadline n =
      Quiet n × ((deadline ≤ clock n) × (flags.raise_on_timeout ≡ true))

  -- What an attempt says, before the clock is read.
  abbrev Settles : Option Outcome → ℕ → ℕ → Type 0
  Settles none deadline n = Quiet n
  Settles (some o) deadline n = Means o deadline n

  judge_status-Settles :
      (deadline n : ℕ)
      → SomethingNew n
      → Settles (judge_status flags before_ids (seen n) (answers n) (n + 1)) deadline n
  unfolding judge_status
  judge_status-Settles deadline n fresh = ground (
    arith,
    fresh,
    eq_iff (seen n) "error",
    eq_iff (seen n) "running",
    eq_iff (seen n) "done",
    eq_iff (seen n) "success",
    eq_iff (seen n) "successful",
  )

  -- The same, from the new ids.
  decided-Settles :
      (ids : List String) (deadline n : ℕ)
      → new_ids before_ids (answers n) ≡ ids
      → Settles
          (elim ids [
            | [] ↦ none
            | _ ∷ _ ↦ judge_status flags before_ids (seen n) (answers n) (n + 1)
          ])
          deadline
          n
  decided-Settles [] deadline n e = inl e
  decided-Settles (x ∷ xs) deadline n e =
      judge_status-Settles deadline n (λ empty. cons-ne-nil x xs (sym e ∙ empty))

  settle-Settles :
      (deadline n : ℕ) → Settles (settle flags before_ids (answers n) (n + 1)) deadline n
  unfolding settle
  settle-Settles deadline n = decided-Settles (new_ids before_ids (answers n)) deadline n refl

  at_deadline-Settles :
      (deadline n : ℕ)
      → Quiet n
      → Settles (at_deadline flags before_ids deadline (clock n) (answers n) (n + 1)) deadline n
  unfolding at_deadline
  at_deadline-Settles deadline n quiet = ground (arith, quiet)

  at_deadline-Means :
      (deadline n : ℕ) (o : Outcome)
      → Quiet n
      → at_deadline flags before_ids deadline (clock n) (answers n) (n + 1) ≡ some o
      → Means o deadline n
  at_deadline-Means deadline n o quiet e =
      subst (λ x. Settles x deadline n) e (at_deadline-Settles deadline n quiet)

  -- The attempt that ends the wait, and the ones before it, which gave no reason to end it and came
  -- before the deadline.
  pub record EndsAt (deadline first n : ℕ) (o : Outcome) : Type 0 where
    pub reached : first ≤ n
    pub means : Means o deadline n
    pub waited : (m : ℕ) → first ≤ m → m < n → Quiet m × (clock m < deadline)

  abbrev Waited : ℕ → ℕ → Type 0
  Waited deadline m = Quiet m × (clock m < deadline)

  Waited-from :
      (deadline first n : ℕ)
      → Waited deadline first
      → ((m : ℕ) → first + 1 ≤ m → m < n → Waited deadline m)
      → (m : ℕ) → first ≤ m
      → m < n
      → Waited deadline m
  Waited-from deadline first n here later m low high = elim (dec_lt first m) [
    | yes above ↦ later m (omega arith) high
    | no same ↦ let e : first ≡ m = omega arith in subst (Waited deadline) e here
  ]

  ends_here :
      (deadline first : ℕ) (o : Outcome)
      → Means o deadline first
      → (n : ℕ) × EndsAt deadline first n o
  ends_here deadline first o means = (
    first,
    record { reached = omega arith; means = means; waited = λ m low high. absurd (omega arith) },
  )

  settled-Means :
      (deadline n : ℕ) (o : Outcome)
      → settle flags before_ids (answers n) (n + 1) ≡ some o
      → Means o deadline n
  settled-Means deadline n o e = subst (λ x. Settles x deadline n) e (settle-Settles deadline n)

  open-Quiet : (deadline n : ℕ) → settle flags before_ids (answers n) (n + 1) ≡ none → Quiet n
  open-Quiet deadline n e = subst (λ x. Settles x deadline n) e (settle-Settles deadline n)

  wait_loop-EndsAt :
      (fuel deadline first : ℕ) (o : Outcome)
      → wait_loop flags before_ids answers clock fuel deadline first ≡ some o
      → (n : ℕ) × EndsAt deadline first n o
  unfolding wait_loop
  wait_loop-EndsAt zero deadline first o e = cc
  wait_loop-EndsAt (suc fuel) deadline first o e =
      elim (Option-cases (settle flags before_ids (answers first) (first + 1))) [
        | inr (o', settled) ↦
            ends_here deadline first o (settled-Means deadline first o (settled ∙ ground arith))
        | inl open_ ↦
            let quiet = open-Quiet deadline first open_ in
            elim (Option-cases
              (at_deadline flags before_ids deadline (clock first) (answers first) (first + 1))) [
                | inr (o', timed) ↦
                    ends_here deadline first o
                      (at_deadline-Means deadline first o quiet (timed ∙ ground arith))
                | inl early ↦
                    let (n, ends) = wait_loop-EndsAt fuel deadline (first + 1) o (ground arith) in
                    (
                      n,
                      record {
                        reached = omega (arith, ends.reached);
                        means = ends.means;
                        waited =
                            Waited-from deadline first n (quiet, unfold at_deadline in ground arith)
                              ends.waited;
                      },
                    )
              ]
      ]

  -- A wait that ends, ends at its first attempt that sees a final status or, having seen none, is past
  -- the deadline. Its outcome is the one that the newest new record and the flags choose: `error` or
  -- `RolloutError` for the status error; `done` for a terminal-good one; `running` for that status, if no
  -- terminal one is required; and `timeout` or `TimeoutError` otherwise. A result has that record, all
  -- new ids, sorted, and the number of attempts.
  pub wait_for_deployment-EndsAt :
      (start timeout_seconds : ℕ) (o : Outcome)
      → wait_for_deployment flags before_ids answers clock start timeout_seconds ≡ some o
      → (n : ℕ) × EndsAt (start + timeout_seconds) 0 n o
  unfolding wait_for_deployment
  wait_for_deployment-EndsAt start timeout_seconds o e =
      wait_loop-EndsAt (suc timeout_seconds) (start + timeout_seconds) 0 o e
