-- ===== src/DeployEnv.antt =====
-- libs/deploy_env_config.py: the regime of each environment, and the names of a preview alias.
-- `none` is a `ValueError`. A digit and a letter are those of ASCII. Not here: the URLs, the CORS
-- list and the list of compose targets.
pub mod Slugs
pub mod Normal
pub mod Composes
use Prim.Native.Char.{Char, code}
use Prim.Native.String.{count}
use mathlib.Core.Option
use infra.Prelude.{
  ℕ, String, ◌<>◌, Bool, true, false, not, ◌&&◌, ◌||◌, Option, none, some, List, [], ◌∷◌, ◌==◌, leb,
  str_eq, if◌then◌else◌,
}
use infra.Prelude.Dict.{Dict, lookup}
use infra.Prelude.Decimal.{decimal}
use infra.Prelude.Text.{
  lower, strip, replace_char, take_chars, all_chars, first_then, is_digit, is_lower_letter,
  is_lower_alnum, is_hex, or_text, is_version,
}
use infra.Prelude.Errors.{◌>>=◌, ◌>>◌, require}

pub record EnvConfig : Type 0 where
  pub name : String
  pub compose_id : Option String
  pub env_suffix : String
  pub app_url_pattern : String
  pub data_default : String
  pub gates_prod : Bool
  pub requires_staging_first : Bool
  pub dynamic : Bool

abbrev pub staging_config : EnvConfig
staging_config = record {
  name = "staging";
  compose_id = some "A6V-hbJlgHMwgPDoTDnhH";
  env_suffix = "-staging";
  app_url_pattern = "https://report-staging.{domain}";
  data_default = "staging";
  gates_prod = true;
  requires_staging_first = false;
  dynamic = false;
}

abbrev pub prod_config : EnvConfig
prod_config = record {
  name = "prod";
  compose_id = some "lNn9gVS1Zyw79Jzw5dlbu";
  env_suffix = "";
  app_url_pattern = "https://report.{domain}";
  data_default = "prod";
  gates_prod = false;
  requires_staging_first = true;
  dynamic = false;
}

abbrev pub preview_config : EnvConfig
preview_config = record {
  name = "preview";
  compose_id = none;
  env_suffix = "";
  app_url_pattern = "https://report-pr-{number}.{domain}";
  data_default = "staging";
  gates_prod = false;
  requires_staging_first = false;
  dynamic = true;
}

-- `_ENVIRONMENTS`
abbrev pub environments : Dict EnvConfig
environments =
    ("staging", staging_config) ∷ ("prod", prod_config) ∷ ("preview", preview_config) ∷ []

unfoldable pub env_config : String → Option EnvConfig
unfolding lookup
env_config env = lookup env environments

-- `value: int | str | None` of an alias. No negative number makes an alias.
pub data AliasValue : Type 0 where
  absent : AliasValue
  number : ℕ → AliasValue
  text : String → AliasValue

-- `str(value)`
abbrev pub text_of : AliasValue → String
text_of absent = "None"
text_of (number n) = decimal n
text_of (text s) = s

abbrev pub is_branch_char : Char → Bool
is_branch_char c =
    (leb b'A' (code c) && leb (code c) b'Z')
    || is_lower_alnum c
    || code c == b'.'
    || code c == b'_'
    || code c == b'/'
    || code c == b'-'

-- `_PR_VALUE_RE`
abbrev pub is_pr_value : String → Bool
is_pr_value = first_then (λ c. is_digit c && not (code c == b'0')) is_digit

-- `_SHA7_RE`
abbrev pub is_sha7 : String → Bool
is_sha7 s = leb 7 (count s) && leb (count s) 40 && all_chars is_hex s

-- `_TAG_VALUE_RE`
abbrev pub is_tag_value : String → Bool
is_tag_value = is_version b'.'

-- `_BRANCH_VALUE_RE`
abbrev pub is_branch_value : String → Bool
is_branch_value = first_then is_branch_char is_branch_char

abbrev pub branch_text : AliasValue → String
branch_text absent = "main"
branch_text v = or_text (strip (text_of v)) "main"

-- `_normalize_alias`
unfoldable pub normalize_alias : String → AliasValue → Option (String × String)
normalize_alias kind value =
    if str_eq kind "branch"
    then require (is_branch_value (branch_text value)) >> some ("branch", branch_text value)
    else if str_eq kind "pr"
    then require (is_pr_value (strip (text_of value))) >> some ("pr", strip (text_of value))
    else if str_eq kind "commit"
    then require (is_sha7 (lower (strip (text_of value))))
      >> some ("commit", take_chars 7 (lower (strip (text_of value))))
    else if str_eq kind "tag"
    then require (is_tag_value (strip (text_of value))) >> some ("tag", strip (text_of value))
    else none

pub record PreviewAlias : Type 0 where
  pub kind : String
  pub value : String
  pub alias : String
  pub env_suffix : String
  pub domain_suffix : String
  pub compose_name : String
  pub deployment_environment : String

-- The value as a DNS label.
unfoldable pub slug_of : String → String → String
slug_of kind value =
    if str_eq kind "tag" || str_eq kind "branch"
    then replace_char b'/' "-" (replace_char b'.' "-" (lower value))
    else value

-- The alias of a normalized kind and value.
abbrev pub alias_of : String → String × String → PreviewAlias
alias_of slug_prefix norm =
    let alias = norm.0 <> "-" <> slug_of norm.0 norm.1 in
    record {
      kind = norm.0;
      value = norm.1;
      alias = alias;
      env_suffix = "-" <> alias;
      domain_suffix = "-" <> alias;
      compose_name = slug_prefix <> "-" <> alias;
      deployment_environment = alias;
    }

unfoldable pub preview_alias : String → AliasValue → String → Option PreviewAlias
unfolding normalize_alias
preview_alias kind value slug_prefix =
    normalize_alias kind value >>= λ norm. some (alias_of slug_prefix norm)

-- `for_env_suffix`; `number` may be `None`.
unfoldable pub for_env_suffix : String → Option ℕ → Option String
unfolding env_config
for_env_suffix env pr = env_config env >>= λ cfg. some (elim pr [
  | none ↦ cfg.env_suffix
  | some n ↦ if cfg.dynamic then "-pr-" <> decimal n else cfg.env_suffix
])

unfoldable pub with_compose_id : String → String → Option EnvConfig
unfolding env_config
with_compose_id env compose_id =
    env_config env >>= λ cfg. some (record cfg { compose_id = some compose_id })
