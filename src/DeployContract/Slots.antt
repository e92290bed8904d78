-- ===== src/DeployContract/Slots.antt =====
-- The sub-domain that `sub_domain_for` derives, and the one that `validate_deploy_target` accepts.
use text.Mathlib.TextLemmas.{append-nil}
use mathlib.Core.Option.{some-injective}
use infra.Prelude.{
  String, ◌<>◌, Option, some, [], ◌∷◌, true, false, not, ◌||◌, ◌≡◌, ◌≢◌, refl, sym, ◌∙◌, ap, arith,
  str_eq, Bool-cases, inl, inr, Option-cases,
}
use infra.Prelude.Dict.{Dict, lookup}
use infra.Prelude.Text.{after_prefix}
use infra.DeployEnv.{
  AliasValue, EnvConfig, environments, env_config, normalize_alias, preview_alias, PreviewAlias,
  alias_of,
}
use infra.DeployContract.{
  ServiceSpec, after_is, matches_slot, is_valid_preview_sub_domain, pinned_sub_domain,
  sub_domain_for,
}
use infra.DeployContract.Aliases.{fits_slot, Normal-slot}
use infra.Prelude.Errors.{◌>>=◌, bind-some, require-some}
use infra.DeployEnv.Normal.{normalize_alias-Normal}
use infra.DeployContract.Prefixes.{after_is-append, is_valid_preview_sub_domain-append}

-- No suffix of an environment is a slot.
NoSlots : Dict EnvConfig → Type 0
NoSlots [] = Unit
NoSlots ((_, cfg) ∷ rest) = (after_is "-" matches_slot cfg.env_suffix ≡ false) × NoSlots rest

lookup-NoSlots :
    (env : String) (cfg : EnvConfig) (d : Dict EnvConfig)
    → NoSlots d
    → lookup env d ≡ some cfg
    → after_is "-" matches_slot cfg.env_suffix ≡ false
unfolding NoSlots lookup
lookup-NoSlots env cfg [] h e = ground arith
lookup-NoSlots env cfg ((key, c) ∷ rest) (h, hs) e = elim (Bool-cases (str_eq key env)) [
  | inl same ↦
      ap (λ (x : EnvConfig). after_is "-" matches_slot x.env_suffix)
        (some-injective cfg c (sym e ∙ ground arith))
      ∙ h
  | inr differ ↦ lookup-NoSlots env cfg rest hs (ground arith)
]

env_config-suffix :
    (env : String) (cfg : EnvConfig)
    → env_config env ≡ some cfg
    → after_is "-" matches_slot cfg.env_suffix ≡ false
unfolding env_config NoSlots after_prefix matches_slot
env_config-suffix env cfg = lookup-NoSlots env cfg environments (refl, (refl, (refl, tt)))

no_slot-base : (spec : ServiceSpec) → is_valid_preview_sub_domain spec spec.base_subdomain ≡ false
unfolding after_prefix
no_slot-base spec =
    ap (is_valid_preview_sub_domain spec) (sym (append-nil spec.base_subdomain))
    ∙ is_valid_preview_sub_domain-append spec ""

no_slot-suffix :
    (spec : ServiceSpec) (env : String) (cfg : EnvConfig)
    → env_config env ≡ some cfg
    → is_valid_preview_sub_domain spec (spec.base_subdomain <> cfg.env_suffix) ≡ false
no_slot-suffix spec env cfg known =
    is_valid_preview_sub_domain-append spec cfg.env_suffix ∙ env_config-suffix env cfg known

module _ (spec : ServiceSpec) (env : String) (cfg : EnvConfig)
    (known : env_config env ≡ some cfg) where
  pinned_shared : spec.env_shared ≡ true → pinned_sub_domain spec env ≡ some spec.base_subdomain
  unfolding pinned_sub_domain
  pinned_shared shared = ground arith

  pinned_own :
      spec.env_shared ≡ false
      → pinned_sub_domain spec env ≡ some (spec.base_subdomain <> cfg.env_suffix)
  unfolding pinned_sub_domain
  pinned_own own = ground arith

-- A sub-domain that is a preview slot of a service is the domain of no environment of it, whatever
-- the service: the collision that `validate_deploy_target` tests for does not occur.
pub is_valid_preview_sub_domain-ne-pinned_sub_domain :
    (spec : ServiceSpec) (env sub_domain : String)
    → is_valid_preview_sub_domain spec sub_domain ≡ true
    → pinned_sub_domain spec env ≢ some sub_domain
unfolding pinned_sub_domain
is_valid_preview_sub_domain-ne-pinned_sub_domain spec env sub_domain valid pinned =
    elim (Option-cases (env_config env)) [
      | inl unknown ↦ ground arith
      | inr (cfg, known) ↦ elim (Bool-cases spec.env_shared) [
        | inl shared ↦ ground (
          arith,
          no_slot-base spec,
          ap (is_valid_preview_sub_domain spec)
              (some-injective _ _ (sym (pinned_shared spec env cfg known shared) ∙ pinned)),
        )
        | inr own ↦ ground (
          arith,
          no_slot-suffix spec env cfg known,
          ap (is_valid_preview_sub_domain spec)
              (some-injective _ _ (sym (pinned_own spec env cfg known own) ∙ pinned)),
        )
      ]
    ]

module _ (spec : ServiceSpec) (kind : String) (value : AliasValue) where
  preview_alias-slot :
      (prefix : String) (alias : PreviewAlias)
      → preview_alias kind value prefix ≡ some alias
      → after_is "-" matches_slot alias.env_suffix ≡ fits_slot kind value
  unfolding preview_alias
  preview_alias-slot prefix alias e =
      let (n, (normal, same)) =
        bind-some (normalize_alias kind value) (λ n. some (alias_of prefix n)) alias e in
      ap (λ (a : PreviewAlias). after_is "-" matches_slot a.env_suffix)
        (sym (some-injective (alias_of prefix n) alias same))
      ∙ after_is-append "-" matches_slot _
      ∙ Normal-slot kind value n (normalize_alias-Normal kind value n normal)

  abbrev suffixed : Option String
  suffixed = preview_alias kind value "finance-report-preview" >>= λ alias.
      some (spec.base_subdomain <> alias.env_suffix)

  -- The sub-domain of a preview, if there is one, is accepted as a preview slot of the service,
  -- except for a branch whose name has an underscore, which is not.
  pub sub_domain_for-is_valid :
      (sub_domain : String)
      → sub_domain_for spec "preview" (some kind) value ≡ some sub_domain
      → is_valid_preview_sub_domain spec sub_domain ≡ fits_slot kind value
  unfolding sub_domain_for env_config lookup
  sub_domain_for-is_valid sub_domain e =
      let (_, made) =
        require-some (not (spec.prod_only || spec.env_shared)) suffixed sub_domain e in
      let (alias, (known, same)) =
        bind-some (preview_alias kind value "finance-report-preview")
          (λ alias. some (spec.base_subdomain <> alias.env_suffix)) sub_domain made in
      ap (is_valid_preview_sub_domain spec) (sym (some-injective _ _ same))
      ∙ is_valid_preview_sub_domain-append spec alias.env_suffix
      ∙ preview_alias-slot "finance-report-preview" alias known
