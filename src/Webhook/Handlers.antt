-- ===== src/Webhook/Handlers.antt =====
-- bootstrap/06.iac_runner/webhook_server.py: `version_deploy` and `deployment_status`.
use Prim.Native.String.{count}
use infra.Prelude.{
  ℕ, String, Bool, true, false, ◌&&◌, ◌||◌, Option, none, some, List, [], ◌∷◌, ◌==◌, str_eq,
  if◌then◌else◌,
}
use infra.Prelude.Dict.{contains}
use infra.Prelude.Text.{strip, lower, all_chars, is_hex}
use infra.Webhook.{Config, Signed, verify_iac_signature}
use infra.Webhook.Deploys.{
  Key, Response, Server, deployment_key, in_progress_response, Admission, known, in_progress,
  started, admit,
}

-- The values of the payload that the handlers tell apart.
pub data Services : Type 0 where
  no_services : Services
  texts : List String → Services
  malformed : Services

pub data Wait : Type 0 where
  no_wait : Wait
  flag : Bool → Wait
  word : String → Wait
  other_wait : Wait

pub record Payload : Type 0 where
  pub env : Option String
  pub ref : Option String
  pub tag : Option String
  pub triggered_by : Option String
  pub wait : Wait
  pub services : Services
  pub deployment_id : Option String

-- `validate_deploy_ref`
unfoldable pub validate_deploy_ref : Option String → Option String
unfolding lower strip all_chars
validate_deploy_ref none = none
validate_deploy_ref (some ref) =
    let normalized = lower (strip ref) in
    if count normalized == 40 && all_chars is_hex normalized then some normalized else none

-- `parse_bool`: `none` is a `ValueError`.
unfoldable pub parse_bool : Wait → Option Bool
unfolding lower strip
parse_bool no_wait = some false
parse_bool (flag b) = some b
parse_bool other_wait = none
parse_bool (word w) =
    let normalized = lower (strip w) in
    if contains normalized ("1" ∷ "true" ∷ "yes" ∷ "y" ∷ "on" ∷ [])
    then some true
    else if contains normalized ("0" ∷ "false" ∷ "no" ∷ "n" ∷ "off" ∷ "" ∷ [])
    then some false
    else none

-- The bodies of the answers.
pub data Body : Type 0 where
  error : String → Body
  deployment : Response → Body
  ambiguous : List String → Body
  mismatch : String → Body
  not_found : (deployment_id env ref : String) → Body

pub data Reply : Type 0 where
  answered : ℕ → Body → Reply
  -- The request runs the deployment itself, and answers when it is over.
  runs : Key → Reply

-- The settings that the handlers read.
pub record Settings : Type 0 where
  pub config : Config
  pub recent_ttl : ℕ
  pub hash : String → String

-- What a request asks for, once its payload is checked.
pub record Wanted : Type 0 where
  pub key : Key
  pub triggered_by : String
  pub wait : Bool

abbrev pub or_default : Option String → String → String
or_default none s = s
or_default (some s) _ = s

-- `payload.get("ref") or payload.get("tag")`
abbrev pub or_tag : Option String → Option String → Option String
or_tag none tag = tag
or_tag (some ref) tag = if str_eq ref "" then tag else some ref

unfoldable pub some_blank : List String → Bool
unfolding strip
some_blank [] = false
some_blank (s ∷ rest) = str_eq (strip s) "" || some_blank rest

-- The services of a payload, or what is wrong with them.
abbrev pub services_of : Services → Option (Option (List String))
services_of no_services = some none
services_of malformed = none
services_of (texts []) = none
services_of (texts (s ∷ rest)) = if some_blank (s ∷ rest) then none else some (some (s ∷ rest))

abbrev pub is_env : String → Bool
is_env env = contains env ("staging" ∷ "production" ∷ [])

-- The checks of the payload of `/deploy`; `none` is an answer 400.
abbrev wanted_with :
    Payload → Option Bool → Option String → Option (Option (List String)) → Option Wanted
wanted_with p (some wait) (some ref) (some services) =
    let env = or_default p.env "staging" in
    if is_env env
    then some (record {
      key = deployment_key env ref services;
      triggered_by = or_default p.triggered_by "unknown";
      wait = wait;
    })
    else none
wanted_with p _ _ _ = none

unfoldable pub wanted_of : Payload → Option Wanted
unfolding parse_bool validate_deploy_ref some_blank
wanted_of p =
    wanted_with p (parse_bool p.wait) (validate_deploy_ref (or_tag p.ref p.tag))
      (services_of p.services)

-- The status code of a finished deployment, for a caller that waits.
abbrev pub waited_code : Response → ℕ
waited_code response = if str_eq response.status "completed" then 200 else 500

abbrev pub reply_to : Settings → Wanted → Admission → Reply
reply_to s want (known response) =
    answered (if want.wait then waited_code response else 200)
      (deployment (record response { cached = true }))
reply_to s want in_progress =
    answered 202 (deployment (in_progress_response s.hash want.key want.triggered_by true))
reply_to s want started =
    if want.wait
    then runs want.key
    else answered 202 (deployment (in_progress_response s.hash want.key want.triggered_by false))

abbrev pub started_key : Wanted → Admission → Option Key
started_key want started = some want.key
started_key want _ = none

-- After the signature and the payload: the answer, the state, and the deployment that starts.
abbrev pub serve : Settings → (mono : ℕ) → Option Wanted → Server → Reply × (Server × Option Key)
serve s mono none server = (answered 400 (error "invalid payload"), (server, none))
serve s mono (some want) server =
    let (admission, after) = admit s.recent_ttl mono want.key server in
    (reply_to s want admission, (after, started_key want admission))

-- `version_deploy`
unfoldable pub version_deploy :
    Settings → (now mono : ℕ) → Signed → Payload → Server → Reply × (Server × Option Key)
unfolding verify_iac_signature wanted_of admit
version_deploy s now mono signed payload server =
    let (valid, nonces) = verify_iac_signature s.config now signed server.nonces in
    let checked = record server { nonces = nonces } in
    if valid
    then serve s mono (wanted_of payload) checked
    else (answered 401 (error "Invalid signature"), (checked, none))
