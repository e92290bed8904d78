-- ===== src/Reconcile/Examples.antt =====
-- A release that changes redis and the manifest: the witness of the gates.
use infra.Prelude.Effects.{cause}
use infra.DeployDependencies.{service_key_from_path}
use infra.Reconcile.Plan.{plan_of}
use infra.Prelude.Effects.{value}
use infra.Prelude.Effects.{check}
use infra.Prelude.Effects.{◌>>◌}
use infra.Prelude.Effects.{◌>>=◌}
use infra.Prelude.{String, Bool, true, false, none, [], ◌∷◌, map, ◌≡◌, refl}
use infra.Prelude.Effects.{Every}
use infra.DeployContract.{ServiceMeta}
use infra.DeployDependencies.{glob_matches}
use infra.Prelude.Text.Split.{split}
use infra.Prelude.Text.{split_once}
use infra.Reconcile.Main.{Repository, Args, main}
use infra.Reconcile.Gates.{Gated, main-Gated}

abbrev meta : String → Bool → Bool → ServiceMeta
meta service prod_only early = record {
  service = service;
  subdomain = none;
  prod_only = prod_only;
  not_yet_in_production = early;
}

abbrev repository : Repository
repository = record {
  rev_parse = λ _. record { success = true; stdout = "c0ffee\n"; stderr = "" };
  is_ancestor = λ _. 0;
  diff = λ _ _. record {
    success = true;
    stdout = "platform/02.redis/compose.yaml\nREADME.md\n";
    stderr = "";
  };
  diff_tree = λ _. record { success = true; stdout = ""; stderr = "" };
  attrs =
      ("platform/redis", meta "redis" false false)
      ∷ ("platform/signoz", meta "signoz" true false)
      ∷ [];
  manifest = ("platform/signoz", "README.md" ∷ []) ∷ [];
  deploy = λ _. record { success = true; stdout = "{}"; stderr = "" };
}

abbrev args : Args
args = record {
  before = "v1.0.0";
  release = record {
    iac_ref = "v1.0.1";
    domain = "example.org";
    timeout = 600;
    python_executable = "python";
  };
  dry_run = false;
  promote_prod = true;
  changed_file = [];
}

-- The command of prod has both services.
both_run : map (λ c. c.service) (main repository args).0 ≡ "platform/redis,platform/signoz" ∷ []
unfolding main ◌>>=◌ ◌>>◌ check value plan_of glob_matches service_key_from_path split split_once
    cause
both_run = refl

main-Gated_example : Every (Gated repository args) (main repository args)
main-Gated_example = main-Gated repository args
