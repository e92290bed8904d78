-- ===== src/Reconcile/Plan.antt =====
-- tools/reconcile_iac_inputs.py: `build_plan` and `build_deploy_commands`.
use infra.Prelude.{
  ℕ, String, ◌<>◌, Bool, false, not, ◌||◌, Option, none, some, List, [], ◌∷◌, ◌++◌, str_eq,
  if◌then◌else◌, keep_if,
}
use infra.Prelude.Decimal.{decimal}
use infra.Prelude.Dict.{Dict, lookup, insert, keys, contains}
use infra.Prelude.Text.Order.{sorted}
use infra.DeployContract.{ServiceSpec, ServiceMeta, services, iac_pinned_specs, service_spec}
use infra.DeployDependencies.{Manifest, add, add_all, set_default, explain_fanout}
use infra.Reconcile.{DeployCommand}

abbrev manifest_path : String
manifest_path = "docs/ssot/deploy-dependencies.yaml"

pub record ReconcilePlan : Type 0 where
  pub changed_files : List String
  pub selected : Dict String
  pub ignored : Dict String
  pub dropped : List String
  pub staging_services : List String
  pub prod_services : List String
  pub not_yet_in_production : List String

-- `sorted(d.items())`, whose keys are all different
abbrev items_of : List String → Dict String → Dict String
items_of [] d = []
items_of (k ∷ ks) d = elim (lookup k d) [ none ↦ items_of ks d | some v ↦ (k, v) ∷ items_of ks d ]

unfoldable pub sorted_items : Dict String → Dict String
unfolding sorted lookup
sorted_items d = items_of (sorted (keys d)) d

unfoldable pub all_service_keys : Dict ServiceMeta → List String
unfolding sorted iac_pinned_specs
all_service_keys attrs = sorted (keys services ++ keys (iac_pinned_specs attrs))

abbrev is_pinned : Option ServiceSpec → Bool
is_pinned none = false
is_pinned (some spec) = spec.iac_pinned

unfoldable pub iac_pinned_services : Dict ServiceMeta → List String
unfolding all_service_keys service_spec sorted
iac_pinned_services attrs =
    sorted (keep_if (λ s. is_pinned (service_spec attrs s)) (all_service_keys attrs))

abbrev select_all : List String → Dict String → Dict String
select_all [] selected = selected
select_all (service ∷ rest) selected =
    select_all rest
      (set_default service ("dependency manifest changed (" <> manifest_path <> ")") selected)

-- One service of the fan-out: it is selected or ignored.
abbrev judge :
    Option ServiceSpec
    → (service reason : String) → Dict String × Dict String
    → Dict String × Dict String
judge none service reason (selected, ignored) =
    (selected, insert service "not registered in deploy_v2 service registry" ignored)
judge (some spec) service reason (selected, ignored) =
    if spec.iac_pinned then (insert service reason selected, ignored) else (
      selected,
      insert service "not iac_pinned; fixed app deploys need an explicit version_ref" ignored,
    )

unfoldable pub judge_all :
    Dict ServiceMeta → Dict String → Dict String × Dict String → Dict String × Dict String
unfolding service_spec insert
judge_all attrs [] judged = judged
judge_all attrs ((service, reason) ∷ rest) judged =
    judge_all attrs rest (judge (service_spec attrs service) service reason judged)

-- The environments of the selected services: staging, prod, and staging only.
pub record Targets : Type 0 where
  pub staging : List String
  pub prod : List String
  pub staging_only : List String

unfoldable pub add_target : ServiceSpec → String → Targets → Targets
add_target spec service t =
    if spec.not_yet_in_production
    then record t { staging = service ∷ t.staging; staging_only = service ∷ t.staging_only }
    else if spec.prod_only
    then record t { prod = service ∷ t.prod }
    else record t { staging = service ∷ t.staging; prod = service ∷ t.prod }

abbrev pub targeted : Option ServiceSpec → String → Option Targets → Option Targets
targeted none service later = none
targeted (some spec) service none = none
targeted (some spec) service (some t) = some (add_target spec service t)

-- `none` is the `ValueError` of an unknown service.
unfoldable pub targets_of : Dict ServiceMeta → List String → Option Targets
unfolding add_target service_spec
targets_of attrs [] = some (record { staging = []; prod = []; staging_only = [] })
targets_of attrs (service ∷ rest) =
    let later = targets_of attrs rest in targeted (service_spec attrs service) service later

unfoldable pub plan_with :
    List String → Dict String × Dict String → List String → Option Targets → Option ReconcilePlan
unfolding sorted sorted_items
plan_with files judged dropped none = none
plan_with files (selected, ignored) dropped (some t) = some (record {
  changed_files = files;
  selected = sorted_items selected;
  ignored = sorted_items ignored;
  dropped = sorted dropped;
  staging_services = t.staging;
  prod_services = t.prod;
  not_yet_in_production = t.staging_only;
})

unfoldable pub plan_of :
    Dict ServiceMeta
    → (files dropped : List String) → Dict String × Dict String
    → Option ReconcilePlan
unfolding plan_with targets_of sorted
plan_of attrs files dropped judged =
    plan_with files judged dropped (targets_of attrs (sorted (keys judged.0)))

unfoldable pub build_plan : Dict ServiceMeta → Manifest → List String → Option ReconcilePlan
unfolding sorted explain_fanout iac_pinned_services judge_all sorted_items add
build_plan attrs manifest changed_files =
    let files = sorted (add_all (keep_if (λ f. not (str_eq f "")) changed_files) []) in
    let decision = explain_fanout files manifest in
    let first =
      if contains manifest_path files then select_all (iac_pinned_services attrs) [] else [] in
    let judged = judge_all attrs (sorted_items decision.selected) (first, []) in
    plan_of attrs files decision.dropped judged

unfoldable pub joined : List String → String
joined [] = ""
joined (s ∷ []) = s
joined (s ∷ t ∷ rest) = s <> "," <> joined (t ∷ rest)

abbrev meets : List String → List String → Bool
meets [] staging = false
meets (s ∷ rest) staging = contains s staging || meets rest staging

abbrev flags : (deploy_type : String) → (services staging : List String) → List String
flags deploy_type names staging =
    if str_eq deploy_type "prod"
    then "--code-reviewed" ∷ (if meets names staging then "--staging-validated" ∷ [] else [])
    else []

pub record Release : Type 0 where
  pub iac_ref : String
  pub domain : String
  pub timeout : ℕ
  pub python_executable : String

unfoldable pub command_of :
    Release → (deploy_type : String) → (services staging : List String) → DeployCommand
unfolding joined decimal
command_of r deploy_type names staging = record {
  service = joined names;
  deploy_type = deploy_type;
  argv =
      r.python_executable
      ∷ "-m"
      ∷ "tools.deploy_v2"
      ∷ "--service"
      ∷ joined names
      ∷ "--type"
      ∷ deploy_type
      ∷ "--version-ref"
      ∷ r.iac_ref
      ∷ "--iac-ref"
      ∷ r.iac_ref
      ∷ "--domain"
      ∷ r.domain
      ∷ "--timeout"
      ∷ decimal r.timeout
      ∷ flags deploy_type names staging;
}

unfoldable pub command_for :
    Release → (deploy_type : String) → (services staging : List String) → List DeployCommand
unfolding command_of
command_for r deploy_type [] staging = []
command_for r deploy_type (s ∷ rest) staging = command_of r deploy_type (s ∷ rest) staging ∷ []

unfoldable pub build_deploy_commands : ReconcilePlan → Release → List DeployCommand
unfolding command_for
build_deploy_commands plan r =
    command_for r "staging" plan.staging_services plan.staging_services
    ++ command_for r "prod" plan.prod_services plan.staging_services
