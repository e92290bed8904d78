-- ===== src/DeployFront/Images/Registry.antt =====
-- tools/deploy_v2.py: whether a registry has an image, by the manifest API and its Bearer challenge.
use infra.Prelude.{
  ℕ, String, ◌<>◌, Bool, true, false, not, ◌&&◌, Option, none, some, List, [], ◌∷◌, ◌==◌, leb, ltb,
  str_eq, if◌then◌else◌,
}
use infra.Prelude.Dict.{Dict, lookup, insert}
use infra.Prelude.Text.{lower, strip, split_once, strip_of, or_text}
use infra.Prelude.Text.Split.{split}
use infra.Prelude.Effects.{value_error, runtime_error, Outcome, ok, raised}

-- `_registry_image_parts`: `none` is a `ValueError`.
unfoldable pub registry_image_parts : String → Option (String × String)
unfolding split_once
registry_image_parts image =
    let (registry, after) = split_once b'/' image in
    elim after [
      | none ↦ none
      | some repository ↦
          if not (str_eq registry "") && not (str_eq repository "")
          then some (registry, repository)
          else none
    ]

-- One parameter of the challenge in front of the others, which are written later.
abbrev add_param : String → Dict String → Dict String
add_param item params =
    let (key, value) = split_once b'=' (strip item) in
    elim value [ none ↦ params | some text ↦ insert key (strip_of b'"' (strip text)) params ]

unfoldable pub params_of : List String → Dict String → Dict String
unfolding split_once strip strip_of insert
params_of [] params = params
params_of (item ∷ rest) params = params_of rest (add_param item params)

abbrev or_empty : Option String → String
or_empty none = ""
or_empty (some s) = s

-- `_parse_bearer_authenticate`: `none` is a `RuntimeError`.
unfoldable pub parse_bearer_authenticate : String → Option (Dict String)
unfolding split_once lower params_of split
parse_bearer_authenticate header =
    let (scheme, rest) = split_once b' ' header in
    if str_eq (lower scheme) "bearer"
    then some (params_of (split b',' (or_empty rest)) [])
    else none

-- An answer to a request for a manifest.
pub record Response : Type 0 where
  pub status_code : ℕ
  pub www_authenticate : String

-- The keys of a token answer, if they are there; other values than texts do not occur.
pub record Tokens : Type 0 where
  pub token : Option String
  pub access_token : Option String

-- The registry: what it answers for a URL and a token, and for a realm and its parameters. The
-- answers of the realm are those of status 2xx.
pub record Client : Type 0 where
  pub manifest : String → Option String → Outcome Response
  pub bearer : String → Dict String → Outcome Tokens

abbrev given : String → Dict String → Dict String → Dict String
given key params rest =
    let value = or_empty (lookup key params) in
    if str_eq value "" then rest else (key, value) ∷ rest

abbrev token_params : Dict String → Dict String
token_params params = given "service" params (given "scope" params [])

abbrev token_of : Outcome Tokens → Outcome String
token_of (raised failure) = raised failure
token_of (ok t) =
    let token = or_text (or_empty t.token) (or_empty t.access_token) in
    if str_eq token "" then raised runtime_error else ok token

abbrev ask_realm : Client → Dict String → Outcome String
ask_realm client params =
    let realm = or_empty (lookup "realm" params) in
    let token = token_of (client.bearer realm (token_params params)) in
    if str_eq realm "" then raised runtime_error else token

-- `_registry_bearer_token`
unfoldable pub registry_bearer_token : Client → (authenticate_header : String) → Outcome String
unfolding parse_bearer_authenticate lookup
registry_bearer_token client authenticate_header =
    elim (parse_bearer_authenticate authenticate_header) [
      | none ↦ raised runtime_error
      | some params ↦ ask_realm client params
    ]

-- What a status code says of the image.
abbrev pub status_verdict : ℕ → Outcome Bool
status_verdict code =
    if leb 200 code && ltb code 300
    then ok true
    else if code == 404
    then ok false
    else raised runtime_error

abbrev verdict_of : Outcome Response → Outcome Bool
verdict_of (raised failure) = raised failure
verdict_of (ok response) = status_verdict response.status_code

abbrev with_token : Client → String → Outcome String → Outcome Response
with_token client url (raised failure) = raised failure
with_token client url (ok token) = client.manifest url (some token)

-- The second request, if the first one was answered with a challenge.
abbrev challenged : Client → String → Outcome Response → Outcome Response
challenged client url (raised failure) = raised failure
challenged client url (ok response) =
    let again = with_token client url (registry_bearer_token client response.www_authenticate) in
    if response.status_code == 401 then again else ok response

abbrev manifest_url : (registry repository image_ref : String) → String
manifest_url registry repository image_ref =
    "https://" <> registry <> "/v2/" <> repository <> "/manifests/" <> image_ref

-- `_image_manifest_exists`
unfoldable pub image_manifest_exists : Client → (image image_ref : String) → Outcome Bool
unfolding registry_image_parts registry_bearer_token
image_manifest_exists client image image_ref = elim (registry_image_parts image) [
  | none ↦ raised value_error
  | some (registry, repository) ↦
      let url = manifest_url registry repository image_ref in
      verdict_of (challenged client url (client.manifest url none))
]
