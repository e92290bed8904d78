-- ===== src/SyncRunner/Checkout.antt =====
-- bootstrap/06.iac_runner/sync_runner.py: `resolve_checkout_ref`, `update_repo` and `resolve_checkout_head`.
use infra.Prelude.{
  ◌<>◌, String, Bool, true, false, Option, none, some, List, [], ◌∷◌, str_eq, if◌then◌else◌,
}
use infra.Prelude.Effects.{Outcome, Run, pure, call, ◌>>=◌}
use infra.Prelude.Text.{strip, lower}
use infra.SyncRunner.{is_exact_commit, Invocation}

-- A child process that ended; `success` says that its return code is 0.
pub record Finished : Type 0 where
  pub success : Bool
  pub stdout : String
  pub stderr : String

-- What git and the files answer in one sync. An answer that is raised is a timeout or another
-- exception that the runner lets through; `none` is the `OSError` of `resolve_checkout_head`.
pub record Git : Type 0 where
  pub is_cloned : Bool
  pub head_before : Outcome (Option Finished)
  pub clone : Outcome Finished
  pub reset : Outcome Finished
  pub clean : Outcome Finished
  pub fetch : Outcome Finished
  pub rev_parse : String → Outcome Finished
  pub checkout : String → Outcome Finished
  pub reset_to : String → Outcome Finished
  pub head_after : Outcome (Option Finished)
  pub diff : String → String → Outcome Finished

abbrev candidates : String → List String
candidates target_ref =
    if is_exact_commit target_ref
    then target_ref ∷ []
    else ("refs/remotes/origin/" <> target_ref <> "^{commit}")
      ∷ ("refs/tags/" <> target_ref <> "^{commit}")
      ∷ (target_ref <> "^{commit}")
      ∷ []

unfoldable pub first_resolved : Git → List String → Run Invocation (Option String)
unfolding strip
first_resolved git [] = pure none
first_resolved git (candidate ∷ rest) =
    let others = first_resolved git rest in
    call (git.rev_parse candidate) >>= λ result.
    if result.success then pure (some (strip result.stdout)) else others

unfoldable pub resolve_checkout_ref : Git → String → Run Invocation (Option String)
unfolding first_resolved
resolve_checkout_ref git target_ref = first_resolved git (candidates target_ref)

-- `if not run_git_command(...): return False`
unfoldable pub and_then : Outcome Finished → Run Invocation Bool → Run Invocation Bool
and_then command rest = call command >>= λ result. if result.success then rest else pure false

unfoldable pub ensure_clone : Git → Run Invocation Bool → Run Invocation Bool
unfolding and_then
ensure_clone git rest = if git.is_cloned then rest else and_then git.clone rest

unfoldable pub check_out : Git → Option String → Run Invocation Bool
unfolding and_then
check_out git none = pure false
check_out git (some checkout_ref) =
    if str_eq checkout_ref ""
    then pure false
    else and_then (git.checkout checkout_ref) (and_then (git.reset_to checkout_ref) (pure true))

-- `update_repo`; the branch is `GIT_BRANCH`.
unfoldable pub update_repo : Git → (branch : String) → Option String → Run Invocation Bool
unfolding ensure_clone and_then resolve_checkout_ref check_out
update_repo git branch ref =
    let target_ref : String = elim ref [ none ↦ branch | some r ↦ r ] in
    ensure_clone git (
      and_then git.reset (
        and_then git.clean
          (and_then git.fetch (resolve_checkout_ref git target_ref >>= check_out git))))

-- `resolve_checkout_head`, from what `git rev-parse HEAD` answers.
unfoldable pub head_of : Option Finished → Option String
unfolding strip lower
head_of none = none
head_of (some result) =
    let value = if result.success then lower (strip result.stdout) else "" in
    if is_exact_commit value then some value else none
