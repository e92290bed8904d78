-- ===== src/ServiceIdentity.antt =====
-- libs/service_identity.py: the identity that every operational plane carries. `none` is a
-- `ValueError`; its message is not modelled, since no caller reads it.
pub mod Valid
pub mod Examples
use Prim.Native.Char.{Char, code}
use Prim.Native.String.{count}
use mathlib.Core.Option
use infra.Prelude.{
  String, ◌<>◌, Bool, false, not, ◌&&◌, ◌||◌, Option, none, some, [], ◌∷◌, ◌==◌, str_eq,
  if◌then◌else◌, keep_if, map,
}
use infra.Prelude.Dict.{Dict}
use infra.Prelude.Errors.{◌>>=◌, ◌>>◌, require}
use infra.Prelude.Text.{
  lower, strip, replace_char, split_once, all_chars, first_then, is_lower_alnum, is_hex, or_text,
}

abbrev is_word : Char → Bool
is_word c = is_lower_alnum c || code c == b'_'

abbrev is_dashed : Char → Bool
is_dashed c = is_word c || code c == b'-'

abbrev is_dotted : Char → Bool
is_dotted c = is_dashed c || code c == b'.'

-- `_SERVICE_ID_RE.fullmatch`. No class of it has the slash, so the first slash is the one.
unfoldable pub matches_service_id : String → Bool
matches_service_id s =
    let (namespace, service) = split_once b'/' s in
    first_then is_word is_word namespace
    && elim service [ none ↦ false | some name ↦ first_then is_lower_alnum is_dashed name ]

-- `_TOKEN_RE.fullmatch`, and `_ENVIRONMENT_RE.fullmatch`
unfoldable pub matches_token : String → Bool
matches_token = first_then is_lower_alnum is_dotted

-- `_SHA40_RE.fullmatch`
unfoldable pub matches_sha40 : String → Bool
matches_sha40 s = count s == 40 && all_chars is_hex s

pub record ServiceIdentity : Type 0 where
  pub service_id : String
  pub environment : String
  pub component : String
  pub service_name : String
  pub version : String
  pub iac_ref : String

unfoldable pub canonical_token : String → Option String
canonical_token value =
    let token = replace_char b'_' "-" (lower (strip value)) in
    if matches_token token then some token else none

optional_token : String → Option String
optional_token value = if str_eq (strip value) "" then some "" else canonical_token value

unfoldable pub optional_value : String → Option String
optional_value value =
    let candidate = lower (strip value) in
    if all_chars (λ c. not (code c == b',' || code c == 10 || code c == 13)) candidate
    then some candidate
    else none

-- `ServiceIdentity.build`. `component` and `service_name` may be `None`.
unfoldable pub build :
    (service_id environment : String) (component service_name : Option String)
    (version iac_ref : String)
    → Option ServiceIdentity
unfolding matches_service_id matches_token matches_sha40 canonical_token optional_value
build service_id environment component service_name version iac_ref = do
  let canonical_id = strip service_id
  require (matches_service_id canonical_id)
  let service = Option.get_or (split_once b'/' canonical_id).1 ""
  let canonical_environment = lower (strip environment)
  require (matches_token canonical_environment)
  canonical_component ← canonical_token (or_text (Option.get_or component "") service)
  canonical_service_name ←
      canonical_token (or_text (Option.get_or service_name "") (replace_char b'_' "-" service))
  canonical_version ← optional_value version
  let canonical_iac_ref = lower (strip iac_ref)
  require (str_eq canonical_iac_ref "" || matches_sha40 canonical_iac_ref)
  some (record {
    service_id = canonical_id;
    environment = canonical_environment;
    component = canonical_component;
    service_name = canonical_service_name;
    version = canonical_version;
    iac_ref = canonical_iac_ref;
  })

unfoldable pub namespace : ServiceIdentity → String
namespace i = replace_char b'_' "-" (split_once b'/' i.service_id).0

-- The items whose value is not empty.
abbrev pub with_value : Dict String → Dict String
with_value = keep_if (λ (_, value). not (str_eq value ""))

unfoldable pub docker_labels : ServiceIdentity → Dict String
unfolding namespace
docker_labels i =
    map (λ (key, value). ("party.zitian.infra." <> key, value))
      (with_value (
        ("identity-schema", "v1")
        ∷ ("managed-by", "infra2")
        ∷ ("service-id", i.service_id)
        ∷ ("service-namespace", namespace i)
        ∷ ("service-name", i.service_name)
        ∷ ("component", i.component)
        ∷ ("environment", i.environment)
        ∷ ("service-version", i.version)
        ∷ ("iac-ref", i.iac_ref)
        ∷ []))

unfoldable pub alert_labels :
    ServiceIdentity → (severity failure_domain : String) → Option (Dict String)
unfolding namespace optional_token canonical_token matches_token
alert_labels i severity failure_domain = do
  canonical_severity ← canonical_token severity
  domain ← optional_token failure_domain
  some (
      with_value (
        ("identity_schema", "v1")
        ∷ ("managed_by", "infra2")
        ∷ ("service_id", i.service_id)
        ∷ ("service_namespace", namespace i)
        ∷ ("service", i.service_name)
        ∷ ("component", i.component)
        ∷ ("environment", i.environment)
        ∷ ("severity", canonical_severity)
        ∷ ("failure_domain", domain)
        ∷ ("service_version", i.version)
        ∷ ("iac_ref", i.iac_ref)
        ∷ []))
