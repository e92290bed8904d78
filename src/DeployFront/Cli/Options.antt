-- ===== src/DeployFront/Cli/Options.antt =====
-- tools/deploy_v2.py, `main`: the options that the parser declares.
use Prim.Native.Char.{code}
use infra.Prelude.{
  ◌==◌, String, Bool, true, false, not, ◌&&◌, ◌||◌, Option, none, some, List, [], ◌∷◌, str_eq,
  if◌then◌else◌,
}
use infra.Prelude.Decimal.Parse.{int_of}
use infra.Prelude.Errors.{◌>>=◌}
use infra.DeployFront.{app_service}
use infra.DeployFront.Images.{Seconds}
use infra.DeployFront.Cli.{Args}

-- The namespace while the parser reads; a required option may still be missing.
pub record Parsed : Type 0 where
  pub args : Args
  pub has_type : Bool
  pub has_iac_ref : Bool
  pub has_domain : Bool

-- The defaults.
abbrev pub defaults : Args
defaults = record {
  service = app_service;
  deploy_type = "";
  version_ref = "";
  iac_ref = "";
  domain = "";
  no_wait = false;
  down = false;
  staging_validated = false;
  break_glass = false;
  code_reviewed = false;
  skip_vault_check = false;
  no_verify_config = false;
  verify_ingestion = false;
  timeout = 600;
  expected_sha = none;
  repo = none;
  image_wait_seconds = none;
  image_poll_seconds = none;
}

abbrev pub nothing_parsed : Parsed
nothing_parsed = record {
  args = defaults;
  has_type = false;
  has_iac_ref = false;
  has_domain = false;
}

abbrev with_args : Parsed → Args → Parsed
with_args p args = record p { args = args }

-- The actions of the flags.
abbrev pub set_flag : String → Parsed → Option Parsed
set_flag opt p =
    let a = p.args in
    if str_eq opt "--no-wait"
    then some (with_args p (record a { no_wait = true }))
    else if str_eq opt "--down"
    then some (with_args p (record a { down = true }))
    else if str_eq opt "--staging-validated"
    then some (with_args p (record a { staging_validated = true }))
    else if str_eq opt "--break-glass"
    then some (with_args p (record a { break_glass = true }))
    else if str_eq opt "--code-reviewed"
    then some (with_args p (record a { code_reviewed = true }))
    else if str_eq opt "--skip-vault-check"
    then some (with_args p (record a { skip_vault_check = true }))
    else if str_eq opt "--no-verify-config"
    then some (with_args p (record a { no_verify_config = true }))
    else if str_eq opt "--verify-ingestion"
    then some (with_args p (record a { verify_ingestion = true }))
    else none

-- The options that take a value.
abbrev pub takes_value : String → Bool
takes_value opt =
    str_eq opt "--service"
    || str_eq opt "--type"
    || str_eq opt "--version-ref"
    || str_eq opt "--iac-ref"
    || str_eq opt "--domain"
    || str_eq opt "--timeout"
    || str_eq opt "--expected-sha"
    || str_eq opt "--repo"
    || str_eq opt "--image-wait-seconds"
    || str_eq opt "--image-poll-seconds"

-- The actions of these options; `float_of` is `float`.
abbrev pub set_value :
    (float_of : String → Option Seconds) (opt v : String) → Parsed → Option Parsed
set_value float_of opt v p =
    let a = p.args in
    if str_eq opt "--service"
    then some (with_args p (record a { service = v }))
    else if str_eq opt "--type"
    then some (record p { args = record a { deploy_type = v }; has_type = true })
    else if str_eq opt "--version-ref"
    then some (with_args p (record a { version_ref = v }))
    else if str_eq opt "--iac-ref"
    then some (record p { args = record a { iac_ref = v }; has_iac_ref = true })
    else if str_eq opt "--domain"
    then some (record p { args = record a { domain = v }; has_domain = true })
    else if str_eq opt "--timeout"
    then (int_of v >>= λ n. some (with_args p (record a { timeout = n })))
    else if str_eq opt "--expected-sha"
    then some (with_args p (record a { expected_sha = some v }))
    else if str_eq opt "--repo"
    then some (with_args p (record a { repo = some v }))
    else if str_eq opt "--image-wait-seconds"
    then (float_of v >>= λ s. some (with_args p (record a { image_wait_seconds = some s })))
    else if str_eq opt "--image-poll-seconds"
    then (float_of v >>= λ s. some (with_args p (record a { image_poll_seconds = some s })))
    else none

-- A text that can be the value of an option.
abbrev pub is_value : String → Bool
is_value String.[] = true
is_value (String.◌∷◌ c _) = not (code c == b'-')

-- What the parser knows between two texts: the option that waits for its value.
abbrev pub State : Type 0
State = Option String × Parsed

abbrev expect : String → Parsed → Option State
expect opt p =
    if takes_value opt then some (some opt, p) else set_flag opt p >>= λ q. some (none, q)

module _ (float_of : String → Option Seconds) where
  unfoldable pub read_text : State → String → Option State
  unfolding int_of
  read_text (none, p) t = expect t p
  read_text (some opt, p) t =
      if is_value t then (set_value float_of opt t p >>= λ q. some (none, q)) else none

  unfoldable pub read_texts : State → List String → Option State
  unfolding read_text
  read_texts s [] = some s
  read_texts s (t ∷ rest) = read_text s t >>= λ s'. read_texts s' rest

abbrev pub complete : State → Option Args
complete (some opt, p) = none
complete (none, p) = if p.has_type && p.has_iac_ref && p.has_domain then some p.args else none

-- `parser.parse_args`; `none` is the exit with a usage message.
unfoldable pub parse_args : (String → Option Seconds) → List String → Option Args
unfolding read_texts
parse_args float_of texts = read_texts float_of (none, nothing_parsed) texts >>= complete
