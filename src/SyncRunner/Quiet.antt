-- ===== src/SyncRunner/Quiet.antt =====
-- bootstrap/06.iac_runner/sync_runner.py: what a sync does without running a task.
use infra.Prelude.{String, Bool, true, false, Option, none, some, List, [], ◌∷◌, str_eq}
use infra.Prelude.Effects.{Outcome, Run, pure, Every, Every-bind, Every-call, Every-pure, Every-if}
use infra.SyncRunner.{Invocation}
use infra.SyncRunner.Checkout.{
  Finished, Git, and_then, ensure_clone, first_resolved, resolve_checkout_ref, check_out,
  update_repo,
}
use infra.SyncRunner.Task.{Host}
use infra.SyncRunner.Sync.{head_before, selected_services, changed_services}

-- Git is no task.
module _ {κ} (P : Invocation → Type κ) (git : Git) where
  first_resolved-Every : (l : List String) → Every P (first_resolved git l)
  unfolding first_resolved
  first_resolved-Every [] = Every-pure P none
  first_resolved-Every (candidate ∷ rest) = Every-call P _ _ (λ result _.
      Every-if P result.success _ _ (λ _. Every-pure P _) (λ _. first_resolved-Every rest))

  and_then-Every :
      (command : Outcome Finished) (rest : Run Invocation Bool)
      → Every P rest
      → Every P (and_then command rest)
  unfolding and_then
  and_then-Every command rest h =
      Every-call P _ _
        (λ result _. Every-if P result.success rest (pure false) (λ _. h) (λ _. Every-pure P false))

  ensure_clone-Every : (rest : Run Invocation Bool) → Every P rest → Every P (ensure_clone git rest)
  unfolding ensure_clone
  ensure_clone-Every rest h =
      Every-if P git.is_cloned rest _ (λ _. h) (λ _. and_then-Every git.clone rest h)

  check_out-Every : (r : Option String) → Every P (check_out git r)
  unfolding check_out
  check_out-Every none = Every-pure P false
  check_out-Every (some r) =
      Every-if P (str_eq r "") (pure false) _ (λ _. Every-pure P false)
        (λ _. and_then-Every _ _ (and_then-Every _ _ (Every-pure P true)))

  pub update_repo-Every :
      (branch : String) (ref : Option String) → Every P (update_repo git branch ref)
  unfolding update_repo resolve_checkout_ref
  update_repo-Every branch ref = ensure_clone-Every _ (
      and_then-Every _ _ (
        and_then-Every _ _ (
          and_then-Every _ _
            (Every-bind P _ _ (first_resolved-Every _) (λ r _. check_out-Every r)))))

module _ {κ} (P : Invocation → Type κ) (host : Host) where
  changed_services-Every : (before now : Option String) → Every P (changed_services host before now)
  unfolding changed_services
  changed_services-Every (some before) (some now) =
      Every-if P (str_eq before now) _ _ (λ _. Every-pure P _)
        (λ _. Every-call P _ _ (λ _ _. Every-pure P _))
  changed_services-Every (some before) none = Every-pure P _
  changed_services-Every none now = Every-pure P _

  pub selected_services-Every :
      (services : List String) (before now : Option String)
      → Every P (selected_services host services before now)
  unfolding selected_services
  selected_services-Every [] before now = changed_services-Every before now
  selected_services-Every (service ∷ rest) before now = Every-pure P _

  pub head_before-Every : Every P (head_before host.git)
  unfolding head_before
  head_before-Every =
      Every-if P host.git.is_cloned _ _ (λ _. Every-call P _ _ (λ _ _. Every-pure P _))
        (λ _. Every-pure P _)
