-- ===== src/Rollout.antt =====
-- libs/deploy/rollout.py: wait until a new Dokploy deployment record settles.
pub mod Waiting
pub mod Outcomes
pub mod Examples
use mathlib.Core.Option
use infra.Prelude.{
  ℕ, zero, suc, ◌+◌, String, Bool, true, false, not, ◌&&◌, ◌||◌, Option, none, some, List, [], ◌∷◌,
  str_eq, leb, if◌then◌else◌, keep_if,
}
use Prim.Native.String.{compare}
use Prim.Native.Nat.{Ordering}
use infra.Prelude.Dict.{contains}
use infra.Prelude.Text.Order.{later, sorted}
use infra.Prelude.Text.{lower, or_text}

-- A deployment record; a missing field is empty.
pub record Deployment : Type 0 where
  pub deployment_id : String
  pub id : String
  pub status : String
  pub created_at : String
  pub started_at : String

-- What ends the wait. `running`, `done`, `error` and `timeout` are the source's statuses; the last two
-- constructors are the exceptions `RolloutError` and `TimeoutError`.
pub data Status : Type 0 where
  running done error timeout : Status

pub record RolloutResult : Type 0 where
  pub status : Status
  pub deployment : Option Deployment
  pub new_ids : List String
  pub attempts : ℕ

pub data Outcome : Type 0 where
  result : RolloutResult → Outcome
  rollout_error : Outcome
  timeout_error : Outcome

abbrev pub key_of : Deployment → String
key_of d = or_text d.deployment_id d.id

-- The ids of the records that were not there before.
unfoldable pub new_ids : List String → List Deployment → List String
new_ids before [] = []
new_ids before (d ∷ rest) =
    let others = new_ids before rest in
    let id = key_of d in
    if str_eq id "" || contains id before || contains id others then others else id ∷ others

abbrev pub stamp : Deployment → String
stamp d = or_text d.created_at d.started_at

-- `max(candidates, key=…)`: the first record with the greatest stamp.
unfoldable pub newest_of : Deployment → List Deployment → Deployment
newest_of best [] = best
newest_of best (d ∷ rest) = newest_of (if later (stamp d) (stamp best) then d else best) rest

unfoldable pub newest : List Deployment → List String → Option Deployment
unfolding newest_of
newest deployments ids = elim (keep_if (λ d. contains (key_of d) ids) deployments) [
  | [] ↦ none
  | d ∷ rest ↦ some (newest_of d rest)
]

abbrev pub is_terminal_good : String → Bool
is_terminal_good s = str_eq s "done" || str_eq s "success" || str_eq s "successful"

abbrev pub is_running_or_done : String → Bool
is_running_or_done s = str_eq s "running" || is_terminal_good s

pub record Flags : Type 0 where
  pub require_terminal : Bool
  pub raise_on_error : Bool
  pub raise_on_timeout : Bool

-- `str(latest.get("status") or "").lower()`
abbrev pub status_of : Option Deployment → String
status_of none = ""
status_of (some d) = lower d.status

module _ (flags : Flags) (before_ids : List String) where
  -- The newest of the new records of one answer.
  abbrev pub latest : List Deployment → Option Deployment
  latest deployments = newest deployments (new_ids before_ids deployments)

  abbrev report : Status → List Deployment → ℕ → Outcome
  report status deployments attempts = result (record {
    status = status;
    deployment = latest deployments;
    new_ids = sorted (new_ids before_ids deployments);
    attempts = attempts;
  })

  -- What the status of the newest new record decides; `none` goes on to the deadline.
  unfoldable pub judge_status : String → List Deployment → ℕ → Option Outcome
  judge_status status deployments attempts =
      if str_eq status "error"
      then some (if flags.raise_on_error then rollout_error else report error deployments attempts)
      else if (flags.require_terminal && is_terminal_good status)
          || (not flags.require_terminal && is_running_or_done status)
      then some (report (if is_terminal_good status then done else running) deployments attempts)
      else none

  -- `if new_ids:`
  unfoldable pub settle : List Deployment → ℕ → Option Outcome
  unfolding judge_status
  settle deployments attempts = elim (new_ids before_ids deployments) [
    | [] ↦ none
    | _ ∷ _ ↦ judge_status (status_of (latest deployments)) deployments attempts
  ]

  -- `if _now() >= deadline:`
  unfoldable pub at_deadline : (deadline now : ℕ) → List Deployment → ℕ → Option Outcome
  at_deadline deadline now deployments attempts =
      if leb deadline now
      then some
          (if flags.raise_on_timeout then timeout_error else report timeout deployments attempts)
      else none

  -- The loop, from the attempt `n + 1`. `answers n` is what `get_deployments` returns then, and
  -- `clock n` what `_now` returns after it. `none` means that the fuel ran out.
  module _ (answers : ℕ → List Deployment) (clock : ℕ → ℕ) where
    unfoldable pub wait_loop : (fuel deadline n : ℕ) → Option Outcome
    wait_loop zero deadline n = none
    wait_loop (suc fuel) deadline n =
        let rest = wait_loop fuel deadline (n + 1) in
        let timed = at_deadline deadline (clock n) (answers n) (n + 1) in
        elim (settle (answers n) (n + 1)) [
          | some o ↦ some o
          | none ↦ elim timed [ some o ↦ some o | none ↦ rest ]
        ]

    -- `wait_for_deployment`, begun at `start`. A negative timeout counts as 0. The fuel is a round per
    -- unit of the timeout, and one more.
    unfoldable pub wait_for_deployment : (start timeout_seconds : ℕ) → Option Outcome
    unfolding wait_loop
    wait_for_deployment start timeout_seconds =
        wait_loop (suc timeout_seconds) (start + timeout_seconds) 0
