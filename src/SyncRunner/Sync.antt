-- ===== src/SyncRunner/Sync.antt =====
-- bootstrap/06.iac_runner/sync_runner.py: `sync_services`.
use infra.Prelude.{
  String, Bool, true, false, not, ◌||◌, Option, none, some, List, [], ◌∷◌, str_eq, if◌then◌else◌,
}
use infra.Prelude.Dict.{Dict, lookup, keys, contains}
use infra.Prelude.Effects.{Run, pure, call, ◌>>=◌}
use infra.Prelude.Text.{lower}
use infra.Prelude.Text.Order.{sorted}
use infra.Prelude.Text.Split.{splitlines, split}
use infra.DeployDependencies.{Manifest, match_changed_services, add, after_dot, keyed, dashed_name}
use infra.SyncRunner.{is_exact_commit, Invocation}
use infra.SyncRunner.Checkout.{Finished, Git, update_repo, head_of}
use infra.SyncRunner.Task.{Host, run_invoke_task}

pub record ServiceSyncResult : Type 0 where
  pub service : String
  pub task : Option String
  pub success : Bool
  pub skipped : Bool
  pub stdout : String
  pub stderr : String

pub record SyncResult : Type 0 where
  pub env : String
  pub ref : Option String
  pub requested_services : List String
  pub results : List ServiceSyncResult
  pub repo_updated : Bool
  pub error : String

abbrev bootstrap_tasks : List String
bootstrap_tasks = "bootstrap/vault" ∷ "bootstrap/1password" ∷ "bootstrap/iac-runner" ∷ []

-- `_service_task_map().get(service)`
unfoldable pub task_of : Dict String → String → Option String
unfolding lookup
task_of discovered service =
    if contains service bootstrap_tasks then none else lookup service discovered

-- `_own_dir_services`, from the parts of a path
unfoldable pub own_dir_key : List String → Option String
own_dir_key [] = none
own_dir_key (root ∷ []) = none
own_dir_key (root ∷ second ∷ rest) =
    if str_eq root "platform"
    then keyed "platform/" (after_dot second)
    else if str_eq root "finance_report"
    then elim rest [ [] ↦ none | third ∷ _ ↦ keyed "finance_report/" (after_dot third) ]
    else if str_eq root "bootstrap"
    then keyed "bootstrap/" (dashed_name (after_dot second))
    else none

abbrev add_found : Option String → List String → List String
add_found none services = services
add_found (some service) services = add service services

unfoldable pub own_dir_services : List String → List String
unfolding own_dir_key split add
own_dir_services [] = []
own_dir_services (file_path ∷ rest) =
    add_found (own_dir_key (split b'/' file_path)) (own_dir_services rest)

unfoldable pub get_changed_services_from_files : Option Manifest → List String → List String
unfolding match_changed_services own_dir_services
get_changed_services_from_files (some manifest) changed_files =
    match_changed_services changed_files manifest
get_changed_services_from_files none changed_files = own_dir_services changed_files

abbrev all_services : Host → List String
all_services host = sorted (keys host.discovered)

-- The changed services, and all of them if none has changed.
abbrev or_all : Host → List String → List String
or_all host [] = all_services host
or_all host services = if contains "__all__" services then all_services host else services

abbrev diffed : Host → Finished → List String
diffed host result =
    if result.success
    then get_changed_services_from_files host.manifest (splitlines result.stdout)
    else []

-- The services of a request that names none.
unfoldable pub changed_services : Host → (before now : Option String) → Run Invocation (List String)
unfolding get_changed_services_from_files splitlines sorted
changed_services host (some before) (some now) =
    if str_eq before now
    then pure (all_services host)
    else call (host.git.diff before now) >>= λ result. pure (or_all host (diffed host result))
changed_services host _ _ = pure (all_services host)

unfoldable pub selected_services :
    Host → List String → (before now : Option String) → Run Invocation (List String)
unfolding changed_services sorted
selected_services host [] before now = changed_services host before now
selected_services host services before now =
    pure (if contains "__all__" services then all_services host else services)

unfoldable pub sync_task :
    Host
    → (deploy_env : String) → Option String
    → String
    → Option String
    → Run Invocation ServiceSyncResult
unfolding run_invoke_task
sync_task host deploy_env resolved_head service none = pure (record {
  service = service;
  task = none;
  success = true;
  skipped = true;
  stdout = "";
  stderr = "";
})
sync_task host deploy_env resolved_head service (some task_name) =
    run_invoke_task host task_name deploy_env resolved_head >>= λ result. pure (record {
      service = service;
      task = some task_name;
      success = result.success;
      skipped = false;
      stdout = result.stdout;
      stderr = result.stderr;
    })

-- One round of the loop.
unfoldable pub sync_service :
    Host → (deploy_env : String) → Option String → String → Run Invocation ServiceSyncResult
unfolding sync_task task_of
sync_service host deploy_env resolved_head service =
    sync_task host deploy_env resolved_head service (task_of host.discovered service)

unfoldable pub sync_each :
    Host
    → (deploy_env : String) → Option String
    → List String
    → Run Invocation (List ServiceSyncResult)
unfolding sync_service
sync_each host deploy_env resolved_head [] = pure []
sync_each host deploy_env resolved_head (service ∷ rest) =
    let others = sync_each host deploy_env resolved_head rest in
    sync_service host deploy_env resolved_head service >>= λ result.
    others >>= λ results. pure (result ∷ results)

-- The head that was asked for, if the ref is a commit.
unfoldable pub is_requested : Option String → Option String → Bool
unfolding lower
is_requested none resolved_head = true
is_requested (some ref) resolved_head =
    not (is_exact_commit ref)
    || elim resolved_head [ none ↦ false | some head ↦ str_eq head (lower ref) ]

unfoldable pub head_before : Git → Run Invocation (Option String)
unfolding head_of
head_before git =
    if git.is_cloned then (call git.head_before >>= λ result. pure (head_of result)) else pure none

-- `sync_services`
unfoldable pub sync_services :
    Host → List String → Option String → (deploy_env : String) → Run Invocation SyncResult
unfolding head_before sorted head_of update_repo is_requested selected_services sync_each
sync_services host services ref deploy_env =
    let ended : List ServiceSyncResult → Bool → String → SyncResult = λ results repo_updated error.
      record {
        env = deploy_env;
        ref = ref;
        requested_services = sorted services;
        results = results;
        repo_updated = repo_updated;
        error = error;
      } in
    head_before host.git >>= λ current_head. update_repo host.git host.git_branch ref >>= λ updated.
    if not updated
    then pure (ended [] false "Failed to update repo")
    else call host.git.head_after >>= λ head.
        let resolved_head = head_of head in
        if not (is_requested ref resolved_head)
        then pure (ended [] false "Checked-out HEAD does not match requested exact ref")
        else selected_services host services current_head resolved_head >>= λ selected.
            sync_each host deploy_env resolved_head (sorted selected) >>= λ results.
            pure (ended results true "")
