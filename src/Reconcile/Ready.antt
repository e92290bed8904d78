-- ===== src/Reconcile/Ready.antt =====
-- tools/reconcile_iac_inputs.py: the services that a plan redeploys, and where.
use infra.Prelude.{
  String, true, false, Option, none, some, List, [], ◌∷◌, ◌++◌, ◌≡◌, refl, subst, ◌⊎◌, inl, inr,
  All, arith, Bool-cases,
}
use mathlib.Core.Option.{some-injective}
use infra.DeployDependencies.{Manifest}
use infra.Prelude.Dict.{Dict, keys}
use infra.Prelude.Text.Order.{sorted}
use infra.DeployContract.{ServiceSpec, ServiceMeta, service_spec}
use infra.Reconcile.{DeployCommand}
use infra.Reconcile.Plan.{
  ReconcilePlan, Release, Targets, add_target, targeted, targets_of, plan_with, plan_of, build_plan,
  command_of, command_for, build_deploy_commands,
}

-- A registered service that may go to production now.
pub record IsForProd (attrs : Dict ServiceMeta) (service : String) : Type 0 where
  pub spec : ServiceSpec
  pub registered : service_spec attrs service ≡ some spec
  pub released : spec.not_yet_in_production ≡ false

-- A registered service that has a staging.
pub record IsForStaging (attrs : Dict ServiceMeta) (service : String) : Type 0 where
  pub spec : ServiceSpec
  pub registered : service_spec attrs service ≡ some spec
  pub staged : (spec.not_yet_in_production ≡ true) ⊎ (spec.prod_only ≡ false)

pub record AreFit (attrs : Dict ServiceMeta) (t : Targets) : Type 0 where
  pub staging : All (IsForStaging attrs) t.staging
  pub prod : All (IsForProd attrs) t.prod

add_target-AreFit :
    (attrs : Dict ServiceMeta) (spec : ServiceSpec) (service : String) (t : Targets)
    → service_spec attrs service ≡ some spec
    → AreFit attrs t
    → AreFit attrs (add_target spec service t)
unfolding add_target
add_target-AreFit attrs spec service t registered fit =
    elim (Bool-cases spec.not_yet_in_production) [
      | inl early ↦ rw early (record {
        staging =
            (record { spec = spec; registered = registered; staged = inl early }, fit.staging);
        prod = fit.prod;
      })
      | inr released ↦ rw released (elim (Bool-cases spec.prod_only) [
        | inl only ↦ rw only (record {
          staging = fit.staging;
          prod = (record { spec = spec; registered = registered; released = released }, fit.prod);
        })
        | inr both ↦ rw both (record {
          staging =
              (record { spec = spec; registered = registered; staged = inr both }, fit.staging);
          prod = (record { spec = spec; registered = registered; released = released }, fit.prod);
        })
      ])
    ]

targeted-AreFit :
    (attrs : Dict ServiceMeta) (found : Option ServiceSpec) (service : String)
    (later : Option Targets) (t : Targets)
    → service_spec attrs service ≡ found
    → ((u : Targets) → later ≡ some u → AreFit attrs u)
    → targeted found service later ≡ some t
    → AreFit attrs t
targeted-AreFit attrs none service later t registered fit e = ground arith
targeted-AreFit attrs (some spec) service none t registered fit e = ground arith
targeted-AreFit attrs (some spec) service (some u) t registered fit e =
    subst (AreFit attrs) (some-injective _ _ e)
      (add_target-AreFit attrs spec service u registered (fit u refl))

targets_of-AreFit :
    (attrs : Dict ServiceMeta) (services : List String) (t : Targets)
    → targets_of attrs services ≡ some t
    → AreFit attrs t
unfolding targets_of
targets_of-AreFit attrs [] t e =
    subst (AreFit attrs) (some-injective _ _ e) (record { staging = tt; prod = tt })
targets_of-AreFit attrs (service ∷ rest) t e =
    targeted-AreFit attrs (service_spec attrs service) service (targets_of attrs rest) t refl
      (targets_of-AreFit attrs rest) e

-- The services of a plan are those of its targets.
pub record Planned (attrs : Dict ServiceMeta) (plan : ReconcilePlan) : Type 0 where
  pub staging : All (IsForStaging attrs) plan.staging_services
  pub prod : All (IsForProd attrs) plan.prod_services

plan_with-Planned :
    (attrs : Dict ServiceMeta) (files dropped : List String) (judged : Dict String × Dict String)
    (targets : Option Targets) (plan : ReconcilePlan)
    → ((t : Targets) → targets ≡ some t → AreFit attrs t)
    → plan_with files judged dropped targets ≡ some plan
    → Planned attrs plan
unfolding plan_with
plan_with-Planned attrs files dropped judged none plan fit e = ground arith
plan_with-Planned attrs files dropped (selected, ignored) (some t) plan fit e =
    subst (Planned attrs) (some-injective _ _ e)
      (record { staging = (fit t refl).staging; prod = (fit t refl).prod })

plan_of-Planned :
    (attrs : Dict ServiceMeta) (files dropped : List String) (judged : Dict String × Dict String)
    (plan : ReconcilePlan)
    → plan_of attrs files dropped judged ≡ some plan
    → Planned attrs plan
unfolding plan_of
plan_of-Planned attrs files dropped judged plan e =
    plan_with-Planned attrs files dropped judged (targets_of attrs (sorted (keys judged.0))) plan
      (λ t. targets_of-AreFit attrs (sorted (keys judged.0)) t) e

pub build_plan-Planned :
    (attrs : Dict ServiceMeta) (manifest : Manifest) (changed_files : List String)
    (plan : ReconcilePlan)
    → build_plan attrs manifest changed_files ≡ some plan
    → Planned attrs plan
unfolding build_plan
build_plan-Planned attrs manifest changed_files plan e = plan_of-Planned attrs _ _ _ plan e

-- The services that may be redeployed by a command of the type.
abbrev pub AreReady : Dict ServiceMeta → (deploy_type : String) → List String → Type 0
AreReady attrs deploy_type names =
    ((deploy_type ≡ "staging") × All (IsForStaging attrs) names)
    ⊎ ((deploy_type ≡ "prod") × All (IsForProd attrs) names)

-- A command that deploys such services from the release.
pub record IsOf (attrs : Dict ServiceMeta) (r : Release) (command : DeployCommand) : Type 0 where
  pub names : List String
  pub staging : List String
  pub built : command ≡ command_of r command.deploy_type names staging
  pub ready : AreReady attrs command.deploy_type names

command_for-IsOf :
    (attrs : Dict ServiceMeta) (r : Release) (deploy_type : String) (names staging : List String)
    → AreReady attrs deploy_type names
    → All (IsOf attrs r) (command_for r deploy_type names staging)
unfolding command_for command_of
command_for-IsOf attrs r deploy_type [] staging ready = tt
command_for-IsOf attrs r deploy_type (s ∷ rest) staging ready =
    (record { names = s ∷ rest; staging = staging; built = refl; ready = ready }, tt)

All-join : {A : Type 0} (P : A → Type 0) (xs ys : List A) → All P xs → All P ys → All P (xs ++ ys)
All-join P [] ys h k = k
All-join P (x ∷ xs) ys (p, h) k = (p, All-join P xs ys h k)

pub build_deploy_commands-IsOf :
    (attrs : Dict ServiceMeta) (plan : ReconcilePlan) (r : Release)
    → Planned attrs plan
    → All (IsOf attrs r) (build_deploy_commands plan r)
unfolding build_deploy_commands
build_deploy_commands-IsOf attrs plan r planned =
    All-join (IsOf attrs r) _ _
      (command_for-IsOf attrs r "staging" _ _ (inl (refl, planned.staging)))
      (command_for-IsOf attrs r "prod" _ _ (inr (refl, planned.prod)))
