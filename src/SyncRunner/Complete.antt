-- ===== src/SyncRunner/Complete.antt =====
-- bootstrap/06.iac_runner/sync_runner.py: which tasks a sync runs, and what its result counts.
use infra.Prelude.{
  ℕ, ◌+◌, String, Bool, true, false, not, ◌&&◌, Option, none, some, Option-cases, List, [], ◌∷◌,
  ◌++◌, str_eq, All, ◌⊎◌, inl, inr, map, length, ◌==◌, ◌≡◌, refl, sym, ap, append-nil, ◌∙◌, arith,
  if◌then◌else◌,
}
use mathlib.Core.List.{map-append}
use infra.Prelude.Effects.{ok}
use infra.Prelude.Effects.Traces.{
  Traced, Traced-bind, Traced-pure, Traced-value, Traced-check, Traced-cause, Traced-ok, Traced-if,
  Traced-call, Traced-quiet,
}
use infra.SyncRunner.{Invocation}
use infra.Prelude.Text.Order.{sorted}
use infra.SyncRunner.Checkout.{head_of}
use infra.SyncRunner.Quiet.{update_repo-Every, head_before-Every, selected_services-Every}
use infra.SyncRunner.Task.{Host, run_invoke_task}
use infra.SyncRunner.Sync.{
  task_of, sync_task, sync_service, sync_each, is_requested, sync_services, ServiceSyncResult,
  SyncResult,
}

unfoldable pub counted : (ServiceSyncResult → Bool) → List ServiceSyncResult → ℕ
counted test [] = 0
counted test (r ∷ results) = let rest = counted test results in if test r then 1 + rest else rest

-- `SyncResult.succeeded`, `failed`, `skipped` and `success`
unfoldable pub succeeded : SyncResult → ℕ
unfolding counted
succeeded result = counted (λ r. r.success && not r.skipped) result.results

unfoldable pub failed : SyncResult → ℕ
unfolding counted
failed result = counted (λ r. not r.success) result.results

unfoldable pub skipped : SyncResult → ℕ
unfolding counted
skipped result = counted (λ r. r.skipped) result.results

unfoldable pub success : SyncResult → Bool
unfolding failed
success result = result.repo_updated && failed result == 0 && str_eq result.error ""

-- The tasks that the results name, in order.
unfoldable pub reported : List ServiceSyncResult → List String
reported [] = []
reported (r ∷ results) = elim r.task [
  | none ↦ reported results
  | some task ↦ task ∷ reported results
]

-- A service without a task is skipped, and counts as a success.
Skips : ServiceSyncResult → Type 0
Skips r = (r.skipped ≡ false) ⊎ (r.success ≡ true)

record Ran (events : List Invocation) (results : List ServiceSyncResult) : Type 0 where
  pub tasks : map (λ i. i.task_name) events ≡ reported results
  pub each : All Skips results

RanOne : List Invocation → ServiceSyncResult → Type 0
RanOne events r = Ran events (r ∷ [])

name_append :
    (xs ys : List Invocation) (names more : List String)
    → map (λ i. i.task_name) xs ≡ names
    → map (λ i. i.task_name) ys ≡ more
    → map (λ i. i.task_name) (xs ++ ys) ≡ names ++ more
name_append xs ys names more h k = map-append (λ i. i.task_name) xs ys ∙ rw (h, k) refl

reported-cons :
    (r : ServiceSyncResult) (results : List ServiceSyncResult)
    → reported (r ∷ results) ≡ reported (r ∷ []) ++ reported results
unfolding reported
reported-cons r results = elim (Option-cases r.task) [
  | inl missing ↦ rw missing refl
  | inr (task, named) ↦ rw named refl
]

module _ (host : Host) (deploy_env : String) (head : Option String) where
  run_invoke_task-Traced :
      (task_name : String)
      → Traced
          (λ events _. map (λ i. i.task_name) events ≡ task_name ∷ [])
          (run_invoke_task host task_name deploy_env head)
  unfolding run_invoke_task
  run_invoke_task-Traced task_name =
      Traced-value _ _ _ (λ overrides. Traced-check _ _ _ _ (Traced-cause _ _ _ (λ _. refl)))

  sync_task-Traced :
      (service : String) (task : Option String)
      → Traced RanOne (sync_task host deploy_env head service task)
  unfolding sync_task RanOne reported Skips
  sync_task-Traced service none = Traced-pure _ _ (record { tasks = refl; each = (inr refl, tt) })
  sync_task-Traced service (some task_name) =
      Traced-bind (λ events _. map (λ i. i.task_name) events ≡ task_name ∷ []) _ _ _
        (run_invoke_task-Traced task_name)
        (λ events result h. Traced-pure _ _ (record {
          tasks = name_append events [] (task_name ∷ []) [] h refl;
          each = (inl refl, tt);
        }))

  sync_service-Traced :
      (service : String) → Traced RanOne (sync_service host deploy_env head service)
  unfolding sync_service
  sync_service-Traced service = sync_task-Traced service (task_of host.discovered service)

  sync_each-Traced : (services : List String) → Traced Ran (sync_each host deploy_env head services)
  unfolding sync_each RanOne reported
  sync_each-Traced [] = Traced-pure _ _ (record { tasks = refl; each = tt })
  sync_each-Traced (service ∷ rest) =
      Traced-bind RanOne Ran _ _ (sync_service-Traced service) (λ events r h.
        Traced-bind Ran _ _ _ (sync_each-Traced rest) (λ later results k. Traced-pure _ _ (record {
          tasks =
              name_append events (later ++ []) _ _ h.tasks
                (name_append later [] _ [] k.tasks refl ∙ append-nil _)
              ∙ sym (reported-cons r results);
          each = (h.each.0, k.each);
        })))

-- The counts of results that may be skipped only as successes.
counted-All :
    (results : List ServiceSyncResult)
    → All Skips results
    → counted (λ r. r.success && not r.skipped) results
        + counted (λ r. not r.success) results
        + counted (λ r. r.skipped) results
      ≡ length results
unfolding counted Skips
counted-All [] h = refl
counted-All (r ∷ results) (inl done, h) = ground (arith, counted-All results h)
counted-All (r ∷ results) (inr good, h) = ground (arith, counted-All results h)

-- What a sync has caused when it returns.
pub record Synced (events : List Invocation) (result : SyncResult) : Type 0 where
  pub tasks : map (λ i. i.task_name) events ≡ reported result.results
  pub counts : succeeded result + failed result + skipped result ≡ length result.results
  pub aborted : (result.repo_updated ≡ true) ⊎ (result.results ≡ [])

nothing_ran : (result : SyncResult) → result.results ≡ [] → Synced [] result
unfolding succeeded failed skipped counted reported
nothing_ran result h = record { tasks = rw h refl; counts = rw h refl; aborted = inr h }

all-Ran :
    (events : List Invocation) (result : SyncResult)
    → result.repo_updated ≡ true
    → Ran events result.results
    → Synced (events ++ []) result
unfolding succeeded failed skipped
all-Ran events result h ran = record {
  tasks = ap (map (λ i. i.task_name)) (append-nil events) ∙ ran.tasks;
  counts = counted-All result.results ran.each;
  aborted = inl h;
}

-- If a sync returns, then the tasks it has run are those that its results name, in their order; every
-- result is counted once, as succeeded, failed or skipped; and there are no results if the repository
-- could not be updated.
pub sync_services-Synced :
    (host : Host) (services : List String) (ref : Option String) (deploy_env : String)
    (result : SyncResult)
    → (sync_services host services ref deploy_env).1 ≡ ok result
    → Synced (sync_services host services ref deploy_env).0 result
unfolding sync_services
sync_services-Synced host services ref deploy_env result =
    Traced-ok Synced (sync_services host services ref deploy_env) result (
      Traced-quiet Synced _ _ (head_before-Every (λ _. ⊥) host) (λ current.
        Traced-quiet Synced _ _ (update_repo-Every (λ _. ⊥) host.git host.git_branch ref)
          (λ updated.
            Traced-if Synced (not updated) _ _ (Traced-pure Synced _ (nothing_ran _ refl)) (
              Traced-call Synced _ _ (λ head.
                Traced-if Synced (not (is_requested ref (head_of head))) _ _
                  (Traced-pure Synced _ (nothing_ran _ refl))
                  (Traced-quiet Synced _ _
                    (selected_services-Every (λ _. ⊥) host services current (head_of head))
                    (λ selected.
                      Traced-bind Ran Synced _ _
                        (sync_each-Traced host deploy_env (head_of head) (sorted selected))
                        (λ events results ran. Traced-pure _ _ (all-Ran events _ refl ran)))))))))
