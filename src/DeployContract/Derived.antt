-- ===== src/DeployContract/Derived.antt =====
-- The sub-domain that `sub_domain_for` derives is one that `validate_deploy_target` accepts.
use mathlib.Core.Option.{some-injective}
use infra.Prelude.{
  String, ◌<>◌, Option, none, some, Bool, true, false, not, ◌||◌, ◌≡◌, ◌≢◌, sym, ◌∙◌, ap, arith,
  str_eq, if◌then◌else◌, ◌↔◌, inl, inr, Option-cases,
}
use infra.Prelude.Dict.{lookup}
use infra.Prelude.Errors.{◌>>=◌, require-some}
use infra.DeployEnv.{AliasValue, env_config, preview_alias}
use infra.DeployContract.{
  ServiceSpec, DeployTarget, is_sha, is_valid_preview_sub_domain, sub_domain_for,
  validate_deploy_target,
}
use infra.DeployContract.Aliases.{fits_slot}
use infra.DeployContract.Slots.{sub_domain_for-is_valid}
use infra.DeployContract.Contract.{
  Placed, env_config-cases, may_have, validate_deploy_target-Agrees,
}

module _ (spec : ServiceSpec) (kind : Option String) (value : AliasValue) (d : String) where
  derived-staging :
      sub_domain_for spec "staging" kind value ≡ some d
      → d ≡ (if spec.env_shared then spec.base_subdomain else spec.base_subdomain <> "-staging")
  unfolding sub_domain_for env_config lookup
  derived-staging e = sym (some-injective _ _ e)

  derived-prod :
      sub_domain_for spec "prod" kind value ≡ some d
      → d ≡ (if spec.env_shared then spec.base_subdomain else spec.base_subdomain <> "")
  unfolding sub_domain_for env_config lookup
  derived-prod e = sym (some-injective _ _ e)

-- The slot of a preview fits, by its kind.
abbrev pub fits : Option String → AliasValue → Bool
fits none value = false
fits (some k) value = fits_slot k value

derived-preview :
    (spec : ServiceSpec) (kind : Option String) (value : AliasValue) (d : String)
    → sub_domain_for spec "preview" kind value ≡ some d
    → (spec.prod_only ≡ false)
      × ((spec.env_shared ≡ false) × (is_valid_preview_sub_domain spec d ≡ fits kind value))
unfolding sub_domain_for env_config lookup
derived-preview spec none value d e = ground arith
derived-preview spec (some k) value d e =
    let (flags, _) =
      require-some (not (spec.prod_only || spec.env_shared))
        (preview_alias k value "finance-report-preview" >>= λ alias.
          some (spec.base_subdomain <> alias.env_suffix))
        d e in
    (ground arith, (ground arith, sub_domain_for-is_valid spec k value d e))

module _ (target : DeployTarget) (spec : ServiceSpec) (kind : Option String)
    (value : AliasValue) where
  -- An alias counts for a preview only.
  abbrev pub fits_env : Bool
  fits_env = if str_eq target.env "preview" then fits kind value else true

  module _ (derived : sub_domain_for spec target.env kind value ≡ some target.sub_domain) where
    at_env :
        (env : String)
        → target.env ≡ env
        → sub_domain_for spec env kind value ≡ some target.sub_domain
    at_env env here = ap (λ env. sub_domain_for spec env kind value) (sym here) ∙ derived

    known_env : env_config target.env ≢ none
    unfolding sub_domain_for
    known_env unknown = ground arith

    derived-Placed : (may_have target spec ≡ true) → (fits_env ≡ true) → Placed target spec
    derived-Placed may fit = elim (Option-cases (env_config target.env)) [
      | inl unknown ↦ absurd (known_env unknown)
      | inr (cfg, known) ↦ elim (env_config-cases target spec cfg known) [
        | inl (here, _) ↦ inr (
            inl (
              here,
              (
                ground (arith, ap (λ env. str_eq env "prod") here),
                derived-staging spec kind value target.sub_domain (at_env "staging" here),
              ),
            ))
        | inr (inl (here, _)) ↦
            inr (inr (here, derived-prod spec kind value target.sub_domain (at_env "prod" here)))
        | inr (inr (here, _)) ↦
            let (free, (own, same)) =
              derived-preview spec kind value target.sub_domain (at_env "preview" here) in
            inl (here, (free, (own, same ∙ ground (arith, ap (λ env. str_eq env "preview") here))))
      ]
    ]

    Placed-derived : Placed target spec → (may_have target spec ≡ true) × (fits_env ≡ true)
    Placed-derived (inl (here, (free, (own, valid)))) =
        let (_, (_, same)) =
          derived-preview spec kind value target.sub_domain (at_env "preview" here) in
        (ground arith, ground (arith, same))
    Placed-derived (inr (inl (here, (free, domain)))) =
        (ground arith, ground (arith, ap (λ env. str_eq env "preview") here))
    Placed-derived (inr (inr (here, domain))) = (
      ground (arith, ap (λ env. str_eq env "prod") here),
      ground (arith, ap (λ env. str_eq env "preview") here),
    )

  -- A target with a derived sub-domain is accepted exactly if the service is the spec's, both refs
  -- are full shas, a prod-only service goes to prod, and the alias of a preview is not of a branch
  -- whose name has an underscore.
  pub validate_deploy_target-derived :
      (derived : sub_domain_for spec target.env kind value ≡ some target.sub_domain)
      → (validate_deploy_target target spec ≡ some tt) ↔ (
          (spec.key ≡ target.service)
          × ((is_sha target.code_version ≡ true)
              × ((is_sha target.iac_ref ≡ true)
                  × ((may_have target spec ≡ true) × (fits_env ≡ true)))))
  validate_deploy_target-derived derived = (
    λ e.
        let a = (validate_deploy_target-Agrees target spec).0 e in
        (a.service, (a.code_version, (a.iac_ref, Placed-derived derived a.placed))),
    λ (service, (code, (iac, (may, fit)))). (validate_deploy_target-Agrees target spec).1 (record {
      service = service;
      code_version = code;
      iac_ref = iac;
      placed = derived-Placed derived may fit;
    }),
  )
