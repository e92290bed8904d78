-- ===== src/DeployRequest/Arguments.antt =====
-- libs/app_deploy_request.py and tools/deploy_v2.py: the front door reads the arguments of a plan as
-- they are meant.
use infra.Prelude.{
  ℕ, String, Bool, true, false, Option, none, some, List, [], ◌∷◌, ◌++◌, ◌≡◌, refl, ap, ◌∙◌, arith,
  if◌then◌else◌,
}
use infra.Prelude.Decimal.{decimal}
use infra.Prelude.Decimal.Parse.{int_of, read_digits, int_of-decimal}
use infra.Prelude.Errors.{◌>>=◌}
use infra.DeployFront.Images.{Seconds}
use infra.DeployFront.Cli.{Args}
use infra.DeployFront.Cli.Options.{
  Parsed, defaults, nothing_parsed, is_value, takes_value, set_value, set_flag, read_text,
  read_texts, complete, parse_args,
}
use infra.DeployRequest.{DeployType, is_production}
use infra.DeployRequest.Plan.{DeployPlan, deploy_v2_args}

-- What the arguments of a plan say.
abbrev pub args_of : (DeployType → String) → DeployPlan → Args
args_of value_of plan = record {
  service = plan.request.service;
  deploy_type = value_of plan.request.deploy_type;
  version_ref = plan.request.version_ref;
  iac_ref = plan.iac_ref;
  domain = plan.domain;
  no_wait = false;
  down = plan.request.is_remove;
  staging_validated = is_production plan.request.deploy_type;
  break_glass = false;
  code_reviewed = is_production plan.request.deploy_type;
  skip_vault_check = false;
  no_verify_config = false;
  verify_ingestion = false;
  timeout = plan.timeout;
  expected_sha = if plan.request.is_remove then none else some plan.request.source_sha;
  repo = none;
  image_wait_seconds = none;
  image_poll_seconds = none;
}

-- A number is never taken for an option.
is_value-number : (s : String) (n : ℕ) → int_of s ≡ some n → is_value s ≡ true
unfolding int_of read_digits
is_value-number String.[] n e = refl
is_value-number (String.◌∷◌ c s) n e = ground (arith, e)

-- An option with its value.
read_option :
    (float_of : String → Option Seconds) (opt v : String) (p q : Parsed) (rest : List String)
    → takes_value opt ≡ true
    → is_value v ≡ true
    → set_value float_of opt v p ≡ some q
    → read_texts float_of (none, p) (opt ∷ v ∷ rest) ≡ read_texts float_of (none, q) rest
unfolding read_texts read_text
read_option float_of opt v p q rest takes is e = rw (takes, is, e) refl

read_flag :
    (float_of : String → Option Seconds) (opt : String) (p q : Parsed) (rest : List String)
    → takes_value opt ≡ false
    → set_flag opt p ≡ some q
    → read_texts float_of (none, p) (opt ∷ rest) ≡ read_texts float_of (none, q) rest
unfolding read_texts read_text
read_flag float_of opt p q rest takes e = rw (takes, e) refl

module _ (float_of : String → Option Seconds) (value_of : DeployType → String)
    (plan : DeployPlan) where
  abbrev given : Args
  given = record defaults {
    service = plan.request.service;
    deploy_type = value_of plan.request.deploy_type;
    version_ref = plan.request.version_ref;
    iac_ref = plan.iac_ref;
    domain = plan.domain;
    timeout = plan.timeout;
  }

  abbrev after_common : Parsed
  after_common = record { args = given; has_type = true; has_iac_ref = true; has_domain = true }

  -- No text of the plan looks like an option.
  pub record Plain : Type 0 where
    pub service : is_value plan.request.service ≡ true
    pub deploy_type : is_value (value_of plan.request.deploy_type) ≡ true
    pub version_ref : is_value plan.request.version_ref ≡ true
    pub iac_ref : is_value plan.iac_ref ≡ true
    pub domain : is_value plan.domain ≡ true
    pub source_sha : is_value plan.request.source_sha ≡ true

  read_common :
      (plain : Plain) (rest : List String)
      → read_texts float_of
          (none, nothing_parsed)
          ("--service"
            ∷ plan.request.service
            ∷ "--type"
            ∷ value_of plan.request.deploy_type
            ∷ "--version-ref"
            ∷ plan.request.version_ref
            ∷ "--iac-ref"
            ∷ plan.iac_ref
            ∷ "--domain"
            ∷ plan.domain
            ∷ "--timeout"
            ∷ decimal plan.timeout
            ∷ rest)
        ≡ read_texts float_of (none, after_common) rest
  read_common plain rest =
      read_option float_of "--service" _ _ _ _ refl plain.service refl
      ∙ read_option float_of "--type" _ _ _ _ refl plain.deploy_type refl
      ∙ read_option float_of "--version-ref" _ _ _ _ refl plain.version_ref refl
      ∙ read_option float_of "--iac-ref" _ _ _ _ refl plain.iac_ref refl
      ∙ read_option float_of "--domain" _ _ _ _ refl plain.domain refl
      ∙ read_option float_of "--timeout" (decimal plan.timeout) _ after_common rest refl
          (is_value-number (decimal plan.timeout) plan.timeout (int_of-decimal plan.timeout))
          (rw (int_of-decimal plan.timeout) refl)

  abbrev tail_of : (remove prod : Bool) → List String
  tail_of remove prod =
      (if remove then "--down" ∷ [] else "--expected-sha" ∷ plan.request.source_sha ∷ [])
      ++ (if prod then "--staging-validated" ∷ "--code-reviewed" ∷ [] else [])

  abbrev after_all : (remove prod : Bool) → Parsed
  after_all remove prod = record after_common {
    args = record given {
      down = remove;
      staging_validated = prod;
      code_reviewed = prod;
      expected_sha = if remove then none else some plan.request.source_sha;
    };
  }

  read_none : (p : Parsed) → read_texts float_of (none, p) [] ≡ some (none, p)
  unfolding read_texts
  read_none p = refl

  read_gates :
      (p : Parsed)
      → read_texts float_of (none, p) ("--staging-validated" ∷ "--code-reviewed" ∷ [])
        ≡ some (
          none,
          record p { args = record p.args { staging_validated = true; code_reviewed = true } },
        )
  read_gates p =
      read_flag float_of "--staging-validated" _ _ _ refl refl
      ∙ read_flag float_of "--code-reviewed" _ _ _ refl refl
      ∙ read_none _

  read_tail :
      (plain : Plain) (remove prod : Bool)
      → read_texts float_of (none, after_common) (tail_of remove prod)
        ≡ some (none, after_all remove prod)
  read_tail plain true true = read_flag float_of "--down" _ _ _ refl refl ∙ read_gates _
  read_tail plain true false = read_flag float_of "--down" _ _ _ refl refl ∙ read_none _
  read_tail plain false true =
      read_option float_of "--expected-sha" _ _ _ _ refl plain.source_sha refl ∙ read_gates _
  read_tail plain false false =
      read_option float_of "--expected-sha" _ _ _ _ refl plain.source_sha refl ∙ read_none _

  -- If no text of a plan looks like an option, the front door reads its arguments as the plan means
  -- them: the request's service, type, version and sha, the IaC ref, the domain and the timeout, a
  -- teardown exactly for a removal, and the two production gates exactly for production.
  pub parse_args-deploy_v2_args :
      (plain : Plain)
      → parse_args float_of (deploy_v2_args value_of plan) ≡ some (args_of value_of plan)
  unfolding parse_args deploy_v2_args
  parse_args-deploy_v2_args plain =
      let remove = plan.request.is_remove in
      let prod = is_production plan.request.deploy_type in
      ap (λ o. o >>= complete)
        (read_common plain (tail_of remove prod) ∙ read_tail plain remove prod)
