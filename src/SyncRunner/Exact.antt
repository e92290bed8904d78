-- ===== src/SyncRunner/Exact.antt =====
-- bootstrap/06.iac_runner/sync_runner.py: at which commit, and in which environment, the tasks run.
use infra.Prelude.{
  String, true, false, not, Option, none, some, List, [], ◌∷◌, ◌≡◌, refl, subst, ◌∙◌, arith, str_eq,
  eq_iff,
}
use infra.Prelude.Dict.{Dict, lookup, insert, lookup-insert}
use infra.Prelude.Effects.{
  Every, Every-bind, Every-call, Every-value, Every-check, Every-end, Every-pure, Every-if,
}
use infra.Prelude.Text.{lower}
use infra.Prelude.Text.Lower.{lower-lower}
use infra.Prelude.Text.Order.{sorted}
use infra.SyncRunner.{is_exact_commit, Invocation}
use infra.SyncRunner.Environments.{Overrides, deploy_env_overrides}
use infra.SyncRunner.Checkout.{head_of}
use infra.SyncRunner.Task.{
  Host, isolated, pinned, with_token, resolve_vault_root_token, run_invoke_task,
}
use infra.SyncRunner.Sync.{task_of, sync_task, sync_service, sync_each, is_requested, sync_services}
use infra.SyncRunner.Quiet.{update_repo-Every, head_before-Every, selected_services-Every}

-- What a child process finds in its environment.
pub record Isolated (deploy_env : String) (commit : String) (i : Invocation) : Type 0 where
  pub overrides : Overrides
  pub accepted : deploy_env_overrides deploy_env ≡ some overrides
  pub env : lookup "DEPLOY_ENV" i.env_vars ≡ some overrides.deploy_env
  pub suffix : lookup "ENV_SUFFIX" i.env_vars ≡ some overrides.env_suffix
  pub domain : lookup "ENV_DOMAIN_SUFFIX" i.env_vars ≡ some overrides.env_domain_suffix
  pub ref : lookup "IAC_DEPLOY_REF" i.env_vars ≡ some commit

same_with_token :
    (k : String) (token : Option String) (env_vars : Dict String)
    → str_eq "VAULT_ROOT_TOKEN" k ≡ false
    → lookup k (with_token token env_vars) ≡ lookup k env_vars
unfolding with_token
same_with_token k none env_vars h = refl
same_with_token k (some token) env_vars h =
    ground (arith, lookup-insert k "VAULT_ROOT_TOKEN" token env_vars)

-- The environment of a child before the token is added.
base : Dict String → Overrides → String → Dict String
base environ overrides commit = pinned (some commit) (isolated environ overrides)

module _ (environ : Dict String) (overrides : Overrides) (commit : String) where
  base-ref : lookup "IAC_DEPLOY_REF" (base environ overrides commit) ≡ some (lower commit)
  unfolding base pinned
  base-ref =
      lookup-insert "IAC_DEPLOY_REF" "IAC_DEPLOY_REF" (lower commit) (isolated environ overrides)

  base-isolated :
      (k : String)
      → str_eq "IAC_DEPLOY_REF" k ≡ false
      → lookup k (base environ overrides commit) ≡ lookup k (isolated environ overrides)
  unfolding base pinned
  base-isolated k h =
      ground (arith, lookup-insert k "IAC_DEPLOY_REF" (lower commit) (isolated environ overrides))

  isolated-env : lookup "DEPLOY_ENV" (isolated environ overrides) ≡ some overrides.deploy_env
  unfolding isolated
  isolated-env =
      lookup-insert "DEPLOY_ENV" "ENV_DOMAIN_SUFFIX" overrides.env_domain_suffix _
      ∙ lookup-insert "DEPLOY_ENV" "ENV_SUFFIX" overrides.env_suffix _
      ∙ lookup-insert "DEPLOY_ENV" "DEPLOY_ENV" overrides.deploy_env environ

  isolated-suffix : lookup "ENV_SUFFIX" (isolated environ overrides) ≡ some overrides.env_suffix
  unfolding isolated
  isolated-suffix =
      lookup-insert "ENV_SUFFIX" "ENV_DOMAIN_SUFFIX" overrides.env_domain_suffix _
      ∙ lookup-insert "ENV_SUFFIX" "ENV_SUFFIX" overrides.env_suffix
          (insert "DEPLOY_ENV" overrides.deploy_env environ)

  isolated-domain :
      lookup "ENV_DOMAIN_SUFFIX" (isolated environ overrides) ≡ some overrides.env_domain_suffix
  unfolding isolated
  isolated-domain =
      lookup-insert "ENV_DOMAIN_SUFFIX" "ENV_DOMAIN_SUFFIX" overrides.env_domain_suffix (
        insert "ENV_SUFFIX" overrides.env_suffix (insert "DEPLOY_ENV" overrides.deploy_env environ))

module _ (host : Host) (deploy_env commit : String) where
  run_invoke_task-Every :
      (task_name : String)
      → Every
          (Isolated deploy_env (lower commit))
          (run_invoke_task host task_name deploy_env (some commit))
  unfolding run_invoke_task base
  run_invoke_task-Every task_name = Every-value _ _ _ (λ overrides accepted.
      Every-check _ _ _ _ (λ _.
        let env_vars : Dict String = base host.environ overrides commit in
        let token : Option String = resolve_vault_root_token host env_vars in
        Every-end _ _ _ (record {
          overrides = overrides;
          accepted = accepted;
          env =
              same_with_token "DEPLOY_ENV" token env_vars refl
              ∙ base-isolated host.environ overrides commit "DEPLOY_ENV" refl
              ∙ isolated-env host.environ overrides commit;
          suffix =
              same_with_token "ENV_SUFFIX" token env_vars refl
              ∙ base-isolated host.environ overrides commit "ENV_SUFFIX" refl
              ∙ isolated-suffix host.environ overrides commit;
          domain =
              same_with_token "ENV_DOMAIN_SUFFIX" token env_vars refl
              ∙ base-isolated host.environ overrides commit "ENV_DOMAIN_SUFFIX" refl
              ∙ isolated-domain host.environ overrides commit;
          ref =
              same_with_token "IAC_DEPLOY_REF" token env_vars refl
              ∙ base-ref host.environ overrides commit;
        })))

  sync_task-Every :
      (service : String) (task : Option String)
      → Every
          (Isolated deploy_env (lower commit))
          (sync_task host deploy_env (some commit) service task)
  unfolding sync_task
  sync_task-Every service none = Every-pure _ _
  sync_task-Every service (some task_name) =
      Every-bind _ _ _ (run_invoke_task-Every task_name) (λ _ _. Every-pure _ _)

  sync_service-Every :
      (service : String)
      → Every
          (Isolated deploy_env (lower commit))
          (sync_service host deploy_env (some commit) service)
  unfolding sync_service
  sync_service-Every service = sync_task-Every service (task_of host.discovered service)

  sync_each-Every :
      (services : List String)
      → Every
          (Isolated deploy_env (lower commit))
          (sync_each host deploy_env (some commit) services)
  unfolding sync_each
  sync_each-Every [] = Every-pure _ _
  sync_each-Every (service ∷ rest) =
      Every-bind _ _ _ (sync_service-Every service)
        (λ _ _. Every-bind _ _ _ (sync_each-Every rest) (λ _ _. Every-pure _ _))

-- The head of a sync that goes on.
requested_head :
    (ref : String) (head : Option String)
    → is_exact_commit ref ≡ true
    → not (is_requested (some ref) head) ≡ false
    → head ≡ some (lower ref)
unfolding is_requested
requested_head ref none exact h = ground arith
requested_head ref (some head) exact h = ground (arith, eq_iff head (lower ref))

sync_each-Head :
    (host : Host) (deploy_env ref : String) (head : Option String) (services : List String)
    → head ≡ some (lower ref)
    → Every (Isolated deploy_env (lower ref)) (sync_each host deploy_env head services)
sync_each-Head host deploy_env ref head services h = rw h (
    subst
      (λ c. Every (Isolated deploy_env c) (sync_each host deploy_env (some (lower ref)) services))
      (lower-lower ref) (sync_each-Every host deploy_env (lower ref) services))

-- If the ref of a sync is an exact commit, then every task it runs is run with the variables of the
-- environment asked for, which is an accepted one, and with that commit, in lower case, as the ref of
-- the infrastructure code.
pub sync_services-Isolated :
    (host : Host) (services : List String) (ref deploy_env : String)
    → is_exact_commit ref ≡ true
    → Every (Isolated deploy_env (lower ref)) (sync_services host services (some ref) deploy_env)
unfolding sync_services
sync_services-Isolated host services ref deploy_env exact =
    let P : Invocation → Type 0 = Isolated deploy_env (lower ref) in
    Every-bind P _ _ (head_before-Every P host) (λ current _.
      Every-bind P _ _ (update_repo-Every P host.git host.git_branch (some ref)) (λ updated _.
        Every-if P (not updated) _ _ (λ _. Every-pure P _)
          (λ _. Every-call P _ _ (λ head _.
            Every-if P (not (is_requested (some ref) (head_of head))) _ _ (λ _. Every-pure P _)
              (λ same.
                Every-bind P _ _ (selected_services-Every P host services current (head_of head))
                  (λ selected _.
                    Every-bind P _ _
                      (sync_each-Head host deploy_env ref (head_of head) (sorted selected)
                        (requested_head ref (head_of head) exact same))
                      (λ _ _. Every-pure P _)))))))
