-- ===== src/Reconcile/Main.antt =====
-- tools/reconcile_iac_inputs.py: the provenance guard, the runs of the commands, and `main`.
use Prim.Native.Char.{code}
use infra.Prelude.{
  ℕ, String, Bool, true, false, not, ◌&&◌, ◌||◌, List, [], ◌∷◌, ◌==◌, str_eq, if◌then◌else◌,
  keep_if,
}
use infra.Prelude.Effects.{runtime_error, ok, Run, pure, value, check, cause, ◌>>=◌, ◌>>◌}
use infra.Prelude.Text.{strip, all_chars}
use infra.Prelude.Text.Split.{splitlines}
use infra.DeployContract.{ServiceMeta}
use infra.DeployDependencies.{Manifest}
use infra.Prelude.Dict.{Dict}
use infra.Reconcile.{Completed, DeployCommand}
use infra.Reconcile.Plan.{ReconcilePlan, Release, build_plan, build_deploy_commands}

-- What answers the tool: git, the front door, and the checkout.
pub record Repository : Type 0 where
  pub rev_parse : (after : String) → Completed
  -- The return code of `git merge-base --is-ancestor <sha> origin/main`.
  pub is_ancestor : (sha : String) → ℕ
  pub diff : (before after : String) → Completed
  pub diff_tree : (after : String) → Completed
  pub attrs : Dict ServiceMeta
  pub manifest : Manifest
  pub deploy : DeployCommand → Completed

-- The command line.
pub record Args : Type 0 where
  pub before : String
  pub release : Release
  pub dry_run : Bool
  pub promote_prod : Bool
  pub changed_file : List String

unfoldable pub is_zero_sha : String → Bool
unfolding strip all_chars
is_zero_sha value = not (str_eq (strip value) "") && all_chars (λ c. code c == b'0') (strip value)

-- `assert_after_on_main`: a `SystemExit` where it fails.
unfoldable pub assert_after_on_main : Repository → (after : String) → Run DeployCommand String
unfolding strip
assert_after_on_main repo after =
    let resolved = repo.rev_parse after in
    check resolved.success runtime_error
    >> check (repo.is_ancestor (strip resolved.stdout) == 0) runtime_error
    >> pure (strip resolved.stdout)

abbrev named_lines : List String → List String
named_lines [] = []
named_lines (line ∷ rest) =
    if str_eq (strip line) "" then named_lines rest else strip line ∷ named_lines rest

unfoldable pub changed_files_from_git :
    Repository → (before after : String) → Run DeployCommand (List String)
unfolding is_zero_sha strip splitlines
changed_files_from_git repo before after =
    let result =
      if not (str_eq before "") && not (is_zero_sha before)
      then repo.diff before after
      else repo.diff_tree after in
    check result.success runtime_error >> pure (named_lines (splitlines result.stdout))

unfoldable pub of_type : String → List DeployCommand → List DeployCommand
of_type wanted [] = []
of_type wanted (command ∷ rest) =
    let others = of_type wanted rest in
    if str_eq command.deploy_type wanted then command ∷ others else others

unfoldable pub wanted_type : (promote_prod : Bool) → String
wanted_type promote_prod = if promote_prod then "prod" else "staging"

unfoldable pub commands_to_apply :
    List DeployCommand → (dry_run promote_prod : Bool) → List DeployCommand
unfolding of_type wanted_type
commands_to_apply commands dry_run promote_prod =
    if dry_run then [] else of_type (wanted_type promote_prod) commands

same_argv : List String → List String → Bool
same_argv [] [] = true
same_argv (a ∷ xs) (b ∷ ys) = str_eq a b && same_argv xs ys
same_argv _ _ = false

-- `command in commands`
unfoldable pub is_among : DeployCommand → List DeployCommand → Bool
unfolding same_argv
is_among c [] = false
is_among c (d ∷ rest) =
    (str_eq c.service d.service && str_eq c.deploy_type d.deploy_type && same_argv c.argv d.argv)
    || is_among c rest

pub record Result : Type 0 where
  pub command : DeployCommand
  pub completed : Completed

-- `run_deploy_commands`: it stops behind the first command that fails.
unfoldable pub run_deploy_commands :
    Repository → List DeployCommand → Run DeployCommand (List Result)
run_deploy_commands repo [] = pure []
run_deploy_commands repo (command ∷ rest) =
    let others = run_deploy_commands repo rest in
    cause command (ok (repo.deploy command)) >>= λ completed.
    let result : Result = record { command = command; completed = completed } in
    if completed.success
    then (others >>= λ results. pure (result ∷ results))
    else pure (result ∷ [])

unfoldable pub all_succeeded : List Result → Bool
all_succeeded [] = true
all_succeeded (r ∷ rest) = r.completed.success && all_succeeded rest

pub record Summary : Type 0 where
  pub plan : ReconcilePlan
  pub commands : List DeployCommand
  pub applied : List DeployCommand
  pub deferred : List DeployCommand
  pub results : List Result
  pub exit_code : ℕ

abbrev pub files_of : Repository → Args → List String → Run DeployCommand (List String)
files_of repo args [] = changed_files_from_git repo args.before args.release.iac_ref
files_of repo args files = pure files

-- An apply run is guarded, a dry run is not.
unfoldable pub guarded : (dry_run : Bool) → Repository → Args → Run DeployCommand (List String)
unfolding assert_after_on_main changed_files_from_git
guarded true repo args = files_of repo args args.changed_file
guarded false repo args =
    assert_after_on_main repo args.release.iac_ref >>= λ _. files_of repo args args.changed_file

-- `main`, but for what it prints
unfoldable pub main : Repository → Args → Run DeployCommand Summary
unfolding guarded build_plan build_deploy_commands commands_to_apply run_deploy_commands
    all_succeeded is_among
main repo args = guarded args.dry_run repo args >>= λ changed_files.
    value (build_plan repo.attrs repo.manifest changed_files) >>= λ plan.
    let commands = build_deploy_commands plan args.release in
    let applied = commands_to_apply commands args.dry_run args.promote_prod in
    run_deploy_commands repo applied >>= λ results. pure (record {
      plan = plan;
      commands = commands;
      applied = applied;
      deferred = keep_if (λ c. not (is_among c applied)) commands;
      results = results;
      exit_code = if all_succeeded results then 0 else 1;
    })
