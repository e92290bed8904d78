-- ===== src/DeployContract.antt =====
-- libs/deploy_contract.py: the services, the deploy types, and the targets that a deploy may have.
-- `none` is a `ValueError`.
pub mod Prefixes
pub mod Aliases
pub mod Slots
pub mod Contract
pub mod Derived
pub mod DeployTypes
pub mod Types
pub mod Examples
use Prim.Native.Char.{Char, code}
use Prim.Native.String.{count}
use mathlib.Core.Option
use infra.Prelude.{
  String, ◌<>◌, Bool, true, false, not, ◌&&◌, ◌||◌, Option, none, some, List, [], ◌∷◌, ◌==◌, str_eq,
  if◌then◌else◌,
}
use infra.Prelude.Dict.{Dict, lookup, keys, contains}
use infra.Prelude.Text.{
  lower, strip, replace_char, split_once, all_chars, first_then, is_digit, is_lower_alnum, is_hex,
  or_text, numbers, is_version, after_prefix,
}
use infra.Prelude.Errors.{◌>>=◌, ◌>>◌, require}
use infra.DeployEnv.{AliasValue, absent, EnvConfig, env_config, preview_alias, PreviewAlias}

pub record ServiceSpec : Type 0 where
  pub key : String
  pub base_subdomain : String
  pub web_facing : Bool
  pub prod_only : Bool
  pub not_yet_in_production : Bool
  pub env_shared : Bool
  pub iac_pinned : Bool
  pub image_repositories : List String
  pub identity_service_name : String
  pub identity_component : String
  pub supports_preview : Bool

unfoldable pub resolved_identity_service_name : ServiceSpec → String
resolved_identity_service_name spec =
    let (before, after) = split_once b'/' spec.key in
    or_text spec.identity_service_name (replace_char b'_' "-" (Option.get_or after before))

abbrev pub app_spec : ServiceSpec
app_spec = record {
  key = "finance_report/app";
  base_subdomain = "report";
  web_facing = true;
  prod_only = false;
  not_yet_in_production = false;
  env_shared = false;
  iac_pinned = false;
  image_repositories =
      "ghcr.io/wangzitian0/finance_report-backend" ∷ "ghcr.io/wangzitian0/finance_report-frontend"
      ∷ [];
  identity_service_name = "finance-report-backend";
  identity_component = "app";
  supports_preview = true;
}

abbrev pub truealpha_spec : ServiceSpec
truealpha_spec = record app_spec {
  key = "truealpha/app";
  base_subdomain = "truealpha";
  image_repositories =
      "ghcr.io/wangzitian0/truealpha-app-web" ∷ "ghcr.io/wangzitian0/truealpha-llm-service" ∷ [];
  identity_service_name = "truealpha-app";
}

-- `SERVICES`
abbrev pub services : Dict ServiceSpec
services = ("finance_report/app", app_spec) ∷ ("truealpha/app", truealpha_spec) ∷ []

-- What the registry knows of a service from its deploy.py.
pub record ServiceMeta : Type 0 where
  pub service : String
  pub subdomain : Option String
  pub prod_only : Bool
  pub not_yet_in_production : Bool

abbrev pub pinned_spec : String → ServiceMeta → ServiceSpec
pinned_spec sid meta = record {
  key = sid;
  base_subdomain = elim meta.subdomain [ none ↦ meta.service | some s ↦ or_text s meta.service ];
  web_facing = elim meta.subdomain [ none ↦ false | some _ ↦ true ];
  prod_only = meta.prod_only;
  not_yet_in_production = meta.not_yet_in_production;
  env_shared = false;
  iac_pinned = true;
  image_repositories = [];
  identity_service_name = "";
  identity_component = "app";
  supports_preview = true;
}

-- `_iac_pinned_specs`, from what `service_attrs` returns.
unfoldable pub iac_pinned_specs : Dict ServiceMeta → Dict ServiceSpec
iac_pinned_specs [] = []
iac_pinned_specs ((sid, meta) ∷ rest) =
    let others = iac_pinned_specs rest in
    if contains sid (keys services) then others else (sid, pinned_spec sid meta) ∷ others

unfoldable pub service_spec : Dict ServiceMeta → String → Option ServiceSpec
unfolding lookup iac_pinned_specs
service_spec attrs service = elim (lookup service services) [
  | some spec ↦ some spec
  | none ↦ lookup service (iac_pinned_specs attrs)
]

-- `_pinned_sub_domain`
unfoldable pub pinned_sub_domain : ServiceSpec → String → Option String
unfolding env_config
pinned_sub_domain spec env = env_config env >>= λ cfg.
    some (if spec.env_shared then spec.base_subdomain else spec.base_subdomain <> cfg.env_suffix)

-- `sub_domain_for`; `alias_kind` may be `None`.
unfoldable pub sub_domain_for : ServiceSpec → String → Option String → AliasValue → Option String
unfolding env_config preview_alias
sub_domain_for spec env alias_kind alias_value = env_config env >>= λ cfg.
    let pinned =
      if spec.env_shared then spec.base_subdomain else spec.base_subdomain <> cfg.env_suffix in
    let slot =
      require (not (spec.prod_only || spec.env_shared))
      >> (alias_kind >>= λ kind.
          preview_alias kind alias_value "finance-report-preview" >>= λ alias.
          some (spec.base_subdomain <> alias.env_suffix)) in
    if cfg.dynamic then slot else some pinned

pub record DeployTarget : Type 0 where
  pub service : String
  pub env : String
  pub sub_domain : String
  pub code_version : String
  pub iac_ref : String

-- `_SHA_RE`
abbrev pub is_sha : String → Bool
is_sha s = count s == 40 && all_chars is_hex s

abbrev pub after_is : String → (String → Bool) → String → Bool
after_is prefix p s = elim (after_prefix prefix s) [ none ↦ false | some rest ↦ p rest ]

-- The group of the pattern of a preview slot.
unfoldable pub matches_slot : String → Bool
unfolding after_prefix
matches_slot slot =
    after_is "branch-"
      (first_then (λ c. is_lower_alnum c || code c == b'-')
        (λ c. is_lower_alnum c || code c == b'-'))
      slot
    || after_is "pr-" (first_then (λ c. is_digit c && not (code c == b'0')) is_digit) slot
    || after_is "commit-" (λ s. count s == 7 && all_chars is_hex s) slot
    || after_is "tag-" (is_version b'-') slot

-- `_is_valid_preview_sub_domain`
unfoldable pub is_valid_preview_sub_domain : ServiceSpec → String → Bool
unfolding matches_slot
is_valid_preview_sub_domain spec sub_domain =
    after_is spec.base_subdomain (after_is "-" matches_slot) sub_domain

abbrev pub differs_from : Option String → String → Option (Unit {0})
differs_from pinned s = pinned >>= λ p. require (not (str_eq s p))

-- The checks of `validate_deploy_target` that read the environment.
abbrev pub check_preview : DeployTarget → ServiceSpec → Option (Unit {0})
check_preview target spec =
    require (not (spec.prod_only || spec.env_shared))
    >> require (is_valid_preview_sub_domain spec target.sub_domain)
    >> differs_from (pinned_sub_domain spec "staging") target.sub_domain
    >> differs_from (pinned_sub_domain spec "prod") target.sub_domain

abbrev pub check_fixed : DeployTarget → ServiceSpec → Option (Unit {0})
check_fixed target spec =
    pinned_sub_domain spec target.env >>= λ expected. require (str_eq target.sub_domain expected)

abbrev pub check_env : DeployTarget → ServiceSpec → EnvConfig → Option (Unit {0})
check_env target spec cfg =
    require (not (spec.prod_only && not (str_eq target.env "prod")))
    >> (if cfg.dynamic then check_preview target spec else check_fixed target spec)

unfoldable pub validate_deploy_target : DeployTarget → ServiceSpec → Option (Unit {0})
unfolding env_config is_valid_preview_sub_domain pinned_sub_domain
validate_deploy_target target spec =
    require (str_eq spec.key target.service)
    >> require (is_sha target.code_version)
    >> require (is_sha target.iac_ref)
    >> (env_config target.env >>= check_env target spec)

-- `make_deploy_target`, with what the registry knows.
unfoldable pub make_deploy_target :
    Dict ServiceMeta
    → (service env code_version iac_ref : String) (alias_kind : Option String)
      (alias_value : AliasValue)
    → Option DeployTarget
unfolding service_spec sub_domain_for validate_deploy_target
make_deploy_target attrs service env code_version iac_ref alias_kind alias_value =
    service_spec attrs service >>= λ spec.
    sub_domain_for spec env alias_kind alias_value >>= λ sub_domain.
    let target : DeployTarget = record {
      service = service;
      env = env;
      sub_domain = sub_domain;
      code_version = lower (strip code_version);
      iac_ref = lower (strip iac_ref);
    } in
    validate_deploy_target target spec >> some target
