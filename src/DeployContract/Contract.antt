-- ===== src/DeployContract/Contract.antt =====
-- The contract that `validate_deploy_target` enforces, said without the order of its checks.
use mathlib.Core.Option.{some-injective}
use infra.Prelude.{
  String, ◌<>◌, Option, some, Bool, true, false, not, ◌&&◌, ◌||◌, ◌≡◌, refl, sym, ◌∙◌, ap, arith,
  str_eq, eq_iff, if◌then◌else◌, ◌↔◌, ◌⊎◌, inl, inr, Bool-cases,
}
use infra.Prelude.Dict.{lookup}
use infra.Prelude.Errors.{◌>>=◌, ◌>>◌, require, bind-some, seq-some, require-true, require-passes}
use infra.DeployEnv.{EnvConfig, env_config, staging_config, prod_config, preview_config}
use infra.DeployContract.{
  ServiceSpec, DeployTarget, is_sha, differs_from, check_preview, check_fixed, check_env,
  is_valid_preview_sub_domain, pinned_sub_domain, validate_deploy_target,
}
use infra.DeployContract.Slots.{is_valid_preview_sub_domain-ne-pinned_sub_domain}

module _ (target : DeployTarget) (spec : ServiceSpec) where
  abbrev pub fixed_domain : String → String
  fixed_domain suffix =
      if spec.env_shared then spec.base_subdomain else spec.base_subdomain <> suffix

  -- The environment and the sub-domain go together, and the service may have them.
  abbrev pub Placed : Type 0
  Placed =
      ((target.env ≡ "preview")
        × ((spec.prod_only ≡ false)
            × ((spec.env_shared ≡ false)
                × (is_valid_preview_sub_domain spec target.sub_domain ≡ true))))
      ⊎ (((target.env ≡ "staging")
            × ((spec.prod_only ≡ false) × (target.sub_domain ≡ fixed_domain "-staging")))
          ⊎ ((target.env ≡ "prod") × (target.sub_domain ≡ fixed_domain "")))

  pub record Agrees : Type 0 where
    pub service : spec.key ≡ target.service
    pub code_version : is_sha target.code_version ≡ true
    pub iac_ref : is_sha target.iac_ref ≡ true
    pub placed : Placed

  pinned-staging : pinned_sub_domain spec "staging" ≡ some (fixed_domain "-staging")
  unfolding env_config lookup pinned_sub_domain
  pinned-staging = refl

  pinned-prod : pinned_sub_domain spec "prod" ≡ some (fixed_domain "")
  unfolding env_config lookup pinned_sub_domain
  pinned-prod = refl

  -- What the check of a fixed environment says of the sub-domain, both ways.
  check_fixed-domain :
      (expected : String)
      → pinned_sub_domain spec target.env ≡ some expected
      → (check_fixed target spec ≡ some tt) ↔ (target.sub_domain ≡ expected)
  check_fixed-domain expected known = (
    λ e.
        let (found, (known', passed)) =
          bind-some (pinned_sub_domain spec target.env)
            (λ expected. require (str_eq target.sub_domain expected)) tt e in
        (eq_iff target.sub_domain found).0 (require-true _ passed)
        ∙ some-injective found expected (sym known' ∙ known),
    λ e. rw known (
        require-passes (str_eq target.sub_domain expected)
          ((eq_iff target.sub_domain expected).1 e)),
  )

  abbrev has_slots : Option (Unit {0})
  has_slots = require (not (spec.prod_only || spec.env_shared))

  abbrev is_slot : Option (Unit {0})
  is_slot = require (is_valid_preview_sub_domain spec target.sub_domain)

  abbrev is_not : String → Option (Unit {0})
  is_not env = differs_from (pinned_sub_domain spec env) target.sub_domain

  is_not-passes :
      (env expected : String)
      → pinned_sub_domain spec env ≡ some expected
      → is_valid_preview_sub_domain spec target.sub_domain ≡ true
      → is_not env ≡ some tt
  is_not-passes env expected known valid = rw known (
      require-passes (not (str_eq target.sub_domain expected))
        (elim (Bool-cases (str_eq target.sub_domain expected)) [
          | inl same ↦ absurd (
              is_valid_preview_sub_domain-ne-pinned_sub_domain spec env target.sub_domain valid
                (known ∙ ap some (sym ((eq_iff target.sub_domain expected).0 same))))
          | inr differ ↦ ground arith
        ]))

  -- The check of a preview: the tests for a collision never fail.
  check_preview-slot : (check_preview target spec ≡ some tt) ↔ (
      (spec.prod_only ≡ false)
      × ((spec.env_shared ≡ false) × (is_valid_preview_sub_domain spec target.sub_domain ≡ true)))
  check_preview-slot = (
    λ e.
        let (first₃, _) =
          seq-some (has_slots >> is_slot >> is_not "staging") (is_not "prod") tt e in
        let (first₂, _) = seq-some (has_slots >> is_slot) (is_not "staging") tt first₃ in
        let (slots, slot) = seq-some has_slots is_slot tt first₂ in
        (
          ground (arith, require-true _ slots),
          (ground (arith, require-true _ slots), require-true _ slot),
        ),
    λ h.
        rw
          (
            require-passes (not (spec.prod_only || spec.env_shared)) (ground arith),
            require-passes (is_valid_preview_sub_domain spec target.sub_domain) h.1.1,
            is_not-passes "staging" (fixed_domain "-staging") pinned-staging h.1.1,
            is_not-passes "prod" (fixed_domain "") pinned-prod h.1.1,
          )
          refl,
  )

  -- The environments are these three.
  pub env_config-cases :
      (cfg : EnvConfig)
      → env_config target.env ≡ some cfg
      → ((target.env ≡ "staging") × (cfg ≡ staging_config))
        ⊎ (((target.env ≡ "prod") × (cfg ≡ prod_config))
            ⊎ ((target.env ≡ "preview") × (cfg ≡ preview_config)))
  unfolding env_config lookup
  env_config-cases cfg known =
      ground
        (arith, eq_iff "staging" target.env, eq_iff "prod" target.env, eq_iff "preview" target.env)

  abbrev pub may_have : Bool
  may_have = not (spec.prod_only && not (str_eq target.env "prod"))

  -- The check in the environment with the configuration `cfg`.
  passed_fixed :
      (env suffix : String) (cfg : EnvConfig)
      → target.env ≡ env
      → cfg.dynamic ≡ false
      → pinned_sub_domain spec env ≡ some (fixed_domain suffix)
      → (check_env target spec cfg ≡ some tt)
        ↔ ((may_have ≡ true) × (target.sub_domain ≡ fixed_domain suffix))
  passed_fixed env suffix cfg here fixed known =
      let domain =
        check_fixed-domain (fixed_domain suffix) (ap (pinned_sub_domain spec) here ∙ known) in
      let same : check_env target spec cfg ≡ (require may_have >> check_fixed target spec) =
        rw fixed refl in
      (
        λ e.
            let (may, passed) =
              seq-some (require may_have) (check_fixed target spec) tt (sym same ∙ e) in
            (require-true may_have may, domain.0 passed),
        λ h. same ∙ rw (require-passes may_have h.0) (domain.1 h.1),
      )

  passed_preview :
      (check_env target spec preview_config ≡ some tt)
      ↔ ((may_have ≡ true) × (check_preview target spec ≡ some tt))
  passed_preview = (
    λ e.
        let (may, passed) = seq-some (require may_have) (check_preview target spec) tt e in
        (require-true may_have may, passed),
    λ h. rw (require-passes may_have h.0) h.1,
  )

  may_have-other :
      (env : String) → target.env ≡ env → str_eq env "prod" ≡ false → may_have ≡ not spec.prod_only
  may_have-other env here other = rw (here, other) (ground arith)

  check_env-Placed :
      (cfg : EnvConfig)
      → env_config target.env ≡ some cfg
      → check_env target spec cfg ≡ some tt
      → Placed
  check_env-Placed cfg known passed = elim (env_config-cases cfg known) [
    | inl (here, c) ↦
        let (may, domain) =
          (passed_fixed "staging" "-staging" staging_config here refl pinned-staging).0
            (ap (check_env target spec) (sym c) ∙ passed) in
        inr (inl (here, (ground (arith, may_have-other "staging" here refl), domain)))
    | inr (inl (here, c)) ↦ inr (
        inr (
          here,
          ((passed_fixed "prod" "" prod_config here refl pinned-prod).0
              (ap (check_env target spec) (sym c) ∙ passed)).1,
        ))
    | inr (inr (here, c)) ↦ inl (
      here,
      check_preview-slot.0 (passed_preview.0 (ap (check_env target spec) (sym c) ∙ passed)).1,
    )
  ]

  Placed-check_env : Placed → (env_config target.env >>= check_env target spec) ≡ some tt
  unfolding env_config lookup
  Placed-check_env (inl (here, placed)) =
      ap (λ env. env_config env >>= check_env target spec) here
      ∙ passed_preview.1
          (ground (arith, may_have-other "preview" here refl), check_preview-slot.1 placed)
  Placed-check_env (inr (inl (here, (free, domain)))) =
      ap (λ env. env_config env >>= check_env target spec) here
      ∙ (passed_fixed "staging" "-staging" staging_config here refl pinned-staging).1
          (ground (arith, may_have-other "staging" here refl), domain)
  Placed-check_env (inr (inr (here, domain))) =
      ap (λ env. env_config env >>= check_env target spec) here
      ∙ (passed_fixed "prod" "" prod_config here refl pinned-prod).1
          (ground (arith, ap (λ env. str_eq env "prod") here), domain)

  abbrev same_service : Option (Unit {0})
  same_service = require (str_eq spec.key target.service)

  -- `validate_deploy_target` accepts a target exactly if the service is the spec's, both refs are
  -- full shas, and the environment, the sub-domain and the kind of service agree. The tests for a
  -- collision with the fixed domains refuse nothing.
  pub validate_deploy_target-Agrees : (validate_deploy_target target spec ≡ some tt) ↔ Agrees
  unfolding validate_deploy_target
  validate_deploy_target-Agrees = (
    λ e.
        let (first₃, rest) =
          seq-some
            (same_service
              >> require (is_sha target.code_version)
              >> require (is_sha target.iac_ref))
            (env_config target.env >>= check_env target spec) tt e in
        let (first₂, iac) =
          seq-some (same_service >> require (is_sha target.code_version))
            (require (is_sha target.iac_ref)) tt first₃ in
        let (service, code) =
          seq-some same_service (require (is_sha target.code_version)) tt first₂ in
        let (cfg, (known, passed)) =
          bind-some (env_config target.env) (check_env target spec) tt rest in
        record {
          service = (eq_iff spec.key target.service).0 (require-true _ service);
          code_version = require-true (is_sha target.code_version) code;
          iac_ref = require-true (is_sha target.iac_ref) iac;
          placed = check_env-Placed cfg known passed;
        },
    λ a.
        rw
          (
            require-passes (str_eq spec.key target.service)
                ((eq_iff spec.key target.service).1 a.service),
            require-passes (is_sha target.code_version) a.code_version,
            require-passes (is_sha target.iac_ref) a.iac_ref,
          )
          (Placed-check_env a.placed),
  )
