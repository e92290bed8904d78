-- ===== src/SyncRunner/Task.antt =====
-- bootstrap/06.iac_runner/sync_runner.py: `run_invoke_task`, and the token it hands on.
use infra.Prelude.{
  String, ◌<>◌, Bool, true, false, Option, none, some, [], ◌∷◌, str_eq, if◌then◌else◌,
}
use infra.Prelude.Dict.{Dict, lookup, insert}
use infra.Prelude.Effects.{
  Failure, value_error, Outcome, ok, raised, Run, value, check, cause, ◌>>=◌, ◌>>◌,
}
use infra.Prelude.Text.{lower}
use infra.DeployDependencies.{Manifest}
use infra.SyncRunner.{is_exact_commit, Invocation}
use infra.SyncRunner.Environments.{Overrides, deploy_env_overrides}
use infra.SyncRunner.Checkout.{Finished, Git}

-- What stands around a sync: the process environment, `GIT_BRANCH`, the text of `DEPLOY_TIMEOUT`, git,
-- the token that `auth/approle/login` answers to a role and a secret, the child processes, what
-- `discover_services` finds in the checkout, and its manifest if it can be imported and read.
pub record Host : Type 0 where
  pub environ : Dict String
  pub git_branch : String
  pub deploy_timeout : String
  pub git : Git
  pub approle_token : Dict String → String → String → Option String
  pub child : Invocation → Outcome Finished
  pub discovered : Dict String
  pub manifest : Option Manifest

-- `env.get(k)`, of which the empty text counts as missing
unfoldable pub setting : String → Dict String → Option String
unfolding lookup
setting k env = elim (lookup k env) [ none ↦ none | some v ↦ if str_eq v "" then none else some v ]

unfoldable pub without_key : String → Dict String → Dict String
without_key k [] = []
without_key k ((j, v) ∷ d) =
    let rest = without_key k d in if str_eq j k then rest else (j, v) ∷ rest

unfoldable pub approle_login : Host → Dict String → String → String → Option String
unfolding setting without_key
approle_login host env role_id secret_id = elim (setting "VAULT_ADDR" env) [
  | none ↦ none
  | some _ ↦ host.approle_token (without_key "VAULT_TOKEN" env) role_id secret_id
]

unfoldable pub resolve_vault_root_token : Host → Dict String → Option String
unfolding setting approle_login
resolve_vault_root_token host env = elim (setting "VAULT_ROOT_TOKEN" env) [
  | some token ↦ some token
  | none ↦ elim (setting "VAULT_ROLE_ID" env) [
    | none ↦ none
    | some role_id ↦ elim (setting "VAULT_SECRET_ID" env) [
      | none ↦ none
      | some secret_id ↦ approle_login host env role_id secret_id
    ]
  ]
]

-- `{**os.environ, **deploy_env_overrides(deploy_env)}`
unfoldable pub isolated : Dict String → Overrides → Dict String
unfolding insert
isolated environ overrides =
    insert "ENV_DOMAIN_SUFFIX" overrides.env_domain_suffix
      (insert "ENV_SUFFIX" overrides.env_suffix (insert "DEPLOY_ENV" overrides.deploy_env environ))

-- `env_vars["IAC_DEPLOY_REF"] = ...`, where there is a commit
unfoldable pub pinned : Option String → Dict String → Dict String
unfolding insert lower
pinned none env_vars = env_vars
pinned (some deploy_ref) env_vars = insert "IAC_DEPLOY_REF" (lower deploy_ref) env_vars

unfoldable pub with_token : Option String → Dict String → Dict String
unfolding insert
with_token none env_vars = env_vars
with_token (some token) env_vars =
    if str_eq token "" then env_vars else insert "VAULT_ROOT_TOKEN" token env_vars

unfoldable pub is_ref : Option String → Bool
is_ref none = true
is_ref (some deploy_ref) = is_exact_commit deploy_ref

-- A task that takes longer than `DEPLOY_TIMEOUT` has failed; another exception goes through.
abbrev timed : Host → Outcome Finished → Outcome Finished
timed host (raised Failure.timeout_error) = ok (record {
  success = false;
  stdout = "";
  stderr = "Timeout after " <> host.deploy_timeout <> "s";
})
timed host outcome = outcome

-- `run_invoke_task`
unfoldable pub run_invoke_task :
    Host → (task_name deploy_env : String) → Option String → Run Invocation Finished
unfolding deploy_env_overrides is_ref resolve_vault_root_token isolated pinned with_token
run_invoke_task host task_name deploy_env deploy_ref =
    value (deploy_env_overrides deploy_env) >>= λ overrides.
    check (is_ref deploy_ref) value_error
    >> let env_vars = pinned deploy_ref (isolated host.environ overrides) in
      let invocation : Invocation = record {
        task_name = task_name;
        env_vars = with_token (resolve_vault_root_token host env_vars) env_vars;
      } in
      cause invocation (timed host (host.child invocation))
