-- ===== src/SyncRunner/Environments.antt =====
-- bootstrap/06.iac_runner/sync_runner.py: the variables that keep the environments apart.
use Prim.Native.Char.{code}
use Prim.Native.String.{String, [], ◌∷◌}
use infra.Prelude.{Bool, false, not, ◌||◌, Option, some, ◌==◌, str_eq, if◌then◌else◌}
use infra.Prelude.Text.{lower, strip, replace_char}
use infra.Prelude.Errors.{◌>>◌, require}

pub record Overrides : Type 0 where
  pub deploy_env : String
  pub env_suffix : String
  pub env_domain_suffix : String

-- `prod` is another name of `production`.
abbrev pub env_name_of : String → String
env_name_of name = if str_eq name "prod" || str_eq name "production" then "production" else name

-- Characters that no name of an environment has.
unfoldable pub has_separator : String → Bool
has_separator [] = false
has_separator (c ∷ s) = code c == b'-' || code c == b'/' || has_separator s

abbrev pub suffix_of : String → String
suffix_of env_name =
    if str_eq env_name "production" then "" else "-" ∷ replace_char b'_' "-" env_name

abbrev pub overrides_of : String → Overrides
overrides_of env_name = record {
  deploy_env = env_name;
  env_suffix = suffix_of env_name;
  env_domain_suffix = suffix_of env_name;
}

-- `deploy_env_overrides`: `none` is a `ValueError`.
unfoldable pub deploy_env_overrides : String → Option Overrides
unfolding lower strip has_separator
deploy_env_overrides deploy_env =
    let name = lower (strip deploy_env) in
    require (not (str_eq name ""))
    >> require (not (has_separator name))
    >> some (overrides_of (env_name_of name))
