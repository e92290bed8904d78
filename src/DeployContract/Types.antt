-- ===== src/DeployContract/Types.antt =====
-- What a deploy type allows: the forms of its refs, and the targets that `make_target` returns.
use mathlib.Core.Option.{some-injective}
use infra.Prelude.{
  String, Option, none, some, [], ◌∷◌, Bool, true, false, not, ◌&&◌, ◌≡◌, sym, ◌∙◌, ap, subst,
  arith, eq_iff,
}
use infra.Prelude.Dict.{Dict, lookup}
use infra.Prelude.Errors.{◌>>=◌, ◌>>◌, require, bind-some, seq-some, require-true}
use infra.Prelude.Text.{lower, strip}
use infra.DeployEnv.{AliasValue}
use infra.DeployContract.{
  ServiceMeta, ServiceSpec, iac_pinned_specs, service_spec, sub_domain_for, DeployTarget,
  validate_deploy_target, make_deploy_target,
}
use infra.DeployContract.DeployTypes.{
  DeployTypeSpec, deploy_type_spec, validate_ref_form, validate_iac_ref_form, is_tag_only_iac_env,
  is_given, make_target,
}
use infra.DeployContract.Contract.{Agrees, validate_deploy_target-Agrees}

-- A type whose IaC must be a release tag takes a release tag and nothing else as its version too.
pub validate_ref_form-tag :
    (deploy_type form iac_form : String)
    → is_tag_only_iac_env deploy_type ≡ some true
    → validate_ref_form deploy_type form ≡ some tt
    → validate_iac_ref_form deploy_type iac_form ≡ some tt
    → (form ≡ "tag") × (iac_form ≡ "tag")
unfolding is_tag_only_iac_env validate_ref_form validate_iac_ref_form deploy_type_spec lookup
validate_ref_form-tag deploy_type form iac_form fixed ok iac_ok =
    ground (arith, eq_iff "tag" form, eq_iff form "tag", eq_iff iac_form "tag")

lookup_pinned-key :
    (attrs : Dict ServiceMeta) (service : String) (spec : ServiceSpec)
    → lookup service (iac_pinned_specs attrs) ≡ some spec
    → spec.key ≡ service
unfolding iac_pinned_specs lookup
lookup_pinned-key [] service spec e = ground arith
lookup_pinned-key ((sid, meta) ∷ rest) service spec e =
    ground (arith, lookup_pinned-key rest service spec, eq_iff sid service)

pub service_spec-key :
    (attrs : Dict ServiceMeta) (service : String) (spec : ServiceSpec)
    → service_spec attrs service ≡ some spec
    → spec.key ≡ service
unfolding service_spec lookup
service_spec-key attrs service spec e = ground (
  arith,
  lookup_pinned-key attrs service spec,
  eq_iff "finance_report/app" service,
  eq_iff "truealpha/app" service,
)

module _ (attrs : Dict ServiceMeta) (deploy_type service version iac_ref : String)
    (value : AliasValue) where
  -- What a target is made from.
  pub record Made (target : DeployTarget) : Type 0 where
    pub type : DeployTypeSpec
    pub spec : ServiceSpec
    pub known_type : deploy_type_spec deploy_type ≡ some type
    pub known_spec : service_spec attrs service ≡ some spec
    pub env : target.env ≡ type.env
    pub code_version : target.code_version ≡ lower (strip version)
    pub iac_pin : target.iac_ref ≡ lower (strip iac_ref)
    pub sub_domain : sub_domain_for spec type.env type.alias_kind value ≡ some target.sub_domain
    pub no_alias : type.alias_kind ≡ none → is_given value ≡ false
    pub agrees : Agrees target spec

  abbrev target_of : String → String → DeployTarget
  target_of env sub_domain = record {
    service = service;
    env = env;
    sub_domain = sub_domain;
    code_version = lower (strip version);
    iac_ref = lower (strip iac_ref);
  }

  abbrev takes_alias : DeployTypeSpec → Bool
  takes_alias type = not (is_given value && elim type.alias_kind [ none ↦ true | some _ ↦ false ])

  abbrev checked : DeployTypeSpec → ServiceSpec → String → Option DeployTarget
  checked type spec d =
      validate_deploy_target (target_of type.env d) spec >> some (target_of type.env d)

  abbrev placed : DeployTypeSpec → ServiceSpec → Option DeployTarget
  placed type spec = sub_domain_for spec type.env type.alias_kind value >>= checked type spec

  takes_alias-none :
      (type : DeployTypeSpec)
      → takes_alias type ≡ true
      → type.alias_kind ≡ none
      → is_given value ≡ false
  takes_alias-none type h e = ground arith

  -- A target that `make_target` returns is the one that the type, the service and the refs derive,
  -- with an alias only for a type that takes one, and it agrees with the whole contract.
  pub make_target-Made :
      (target : DeployTarget)
      → make_target attrs deploy_type service version iac_ref value ≡ some target
      → Made target
  unfolding make_target make_deploy_target
  make_target-Made target e =
      let (type, (known_type, e₁)) =
        bind-some (deploy_type_spec deploy_type)
          (λ type. require (takes_alias type) >> (service_spec attrs service >>= placed type))
          target e in
      let (alias_ok, e₂) =
        seq-some (require (takes_alias type)) (service_spec attrs service >>= placed type) target
          e₁ in
      let (spec, (known_spec, e₃)) =
        bind-some (service_spec attrs service) (placed type) target e₂ in
      let (d, (known_d, e₄)) =
        bind-some (sub_domain_for spec type.env type.alias_kind value) (checked type spec) target
          e₃ in
      let (valid, same) =
        seq-some (validate_deploy_target (target_of type.env d) spec) (some (target_of type.env d))
          target e₄ in
      let is_target : target_of type.env d ≡ target =
        some-injective (target_of type.env d) target same in
      record {
        type = type;
        spec = spec;
        known_type = known_type;
        known_spec = known_spec;
        env = sym (ap (λ (t : DeployTarget). t.env) is_target);
        code_version = sym (ap (λ (t : DeployTarget). t.code_version) is_target);
        iac_pin = sym (ap (λ (t : DeployTarget). t.iac_ref) is_target);
        sub_domain = known_d ∙ ap (λ (t : DeployTarget). some t.sub_domain) is_target;
        no_alias = takes_alias-none type (require-true _ alias_ok);
        agrees =
            subst (λ t. Agrees t spec) is_target
              ((validate_deploy_target-Agrees (target_of type.env d) spec).0 valid);
      }
