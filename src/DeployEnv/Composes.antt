-- ===== src/DeployEnv/Composes.antt =====
-- libs/deploy_env_config.py: the composes of an app in each environment, and the previews' settings.
use infra.Prelude.{String, Option, none, some, [], ◌∷◌}
use infra.Prelude.Dict.{Dict, lookup}
use infra.Prelude.Errors.{◌>>=◌}
use infra.DeployEnv.{EnvConfig, env_config}

pub record ComposeOverride : Type 0 where
  pub compose_id : Option String
  pub app_url_pattern : String

-- `_APP_COMPOSE_OVERRIDES`
abbrev pub app_compose_overrides : Dict (Dict ComposeOverride)
app_compose_overrides =
    (
      "truealpha/app",
      (
        "staging",
        record {
          compose_id = some "w4zo_fm9d2PnUY8ULzNO7";
          app_url_pattern = "https://truealpha-staging.{domain}";
        },
      )
          ∷ (
            "prod",
            record {
              compose_id = some "j-gIAk0GfF0bGOitZN-og";
              app_url_pattern = "https://truealpha.{domain}";
            },
          )
          ∷ [],
    )
    ∷ []

unfoldable pub app_compose_env_config : String → String → Option EnvConfig
unfolding env_config lookup
app_compose_env_config service env = env_config env >>= λ base.
    elim (lookup service app_compose_overrides) [
      | none ↦ some base
      | some overrides ↦ lookup env overrides >>= λ o.
          some (record base { compose_id = o.compose_id; app_url_pattern = o.app_url_pattern })
    ]

pub record PreviewServiceConfig : Type 0 where
  pub project : String
  pub slug_prefix : String
  pub compose_path : String
  pub db_name : String
  pub base_subdomain : String
  pub secret_env : String

-- `_PREVIEW_SERVICE_CONFIGS`
abbrev pub preview_service_configs : Dict PreviewServiceConfig
preview_service_configs =
    (
      "finance_report/app",
      record {
        project = "finance_report";
        slug_prefix = "finance-report-preview";
        compose_path = "finance_report/finance_report/preview/compose.yaml";
        db_name = "finance_report";
        base_subdomain = "report";
        secret_env = "staging";
      },
    )
    ∷ (
      "truealpha/app",
      record {
        project = "truealpha";
        slug_prefix = "truealpha-preview";
        compose_path = "truealpha/truealpha/preview/compose.yaml";
        db_name = "truealpha";
        base_subdomain = "truealpha";
        secret_env = "staging";
      },
    )
    ∷ []

unfoldable pub preview_service_config : String → Option PreviewServiceConfig
unfolding lookup
preview_service_config service = lookup service preview_service_configs
