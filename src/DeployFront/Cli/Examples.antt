-- ===== src/DeployFront/Cli/Examples.antt =====
-- Runs of the command line.
use infra.DeployFront.Images.{Seconds, ticks}
use infra.Prelude.{String, Option, str_eq, if◌then◌else◌, true, none, some, [], ◌∷◌, ◌≡◌, refl}
use infra.DeployFront.Cli.{service_names}
use infra.DeployFront.Cli.Options.{parse_args, defaults}

-- A `float` that reads one text, in tenths of a second.
abbrev half : String → Option Seconds
half s = if str_eq s "0.5" then some (ticks 5) else none

parse_runs :
    parse_args half (
      "--type" ∷ "prod" ∷ "--no-wait" ∷ "--iac-ref" ∷ "v1.0.0" ∷ "--domain" ∷ "x.y" ∷ "--timeout"
      ∷ "30" ∷ "--image-poll-seconds" ∷ "0.5" ∷ [])
    ≡ some (record defaults {
      deploy_type = "prod";
      no_wait = true;
      iac_ref = "v1.0.0";
      domain = "x.y";
      timeout = 30;
      image_poll_seconds = some (ticks 5);
    })
unfolding parse_args
parse_runs = refl

no_domain_runs : parse_args half ("--type" ∷ "prod" ∷ "--iac-ref" ∷ "v1.0.0" ∷ []) ≡ none
unfolding parse_args
no_domain_runs = refl

missing_value_runs : parse_args half ("--type" ∷ "--down" ∷ []) ≡ none
unfolding parse_args
missing_value_runs = refl

names_run : service_names " a/b, ,c/d" ≡ "a/b" ∷ "c/d" ∷ []
unfolding service_names
names_run = refl
