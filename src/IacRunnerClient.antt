-- ===== src/IacRunnerClient.antt =====
-- libs/iac_runner_client.py: the trigger of a platform deploy and the poll of its status. What the
-- runner answers is a parameter; the signature of a request is not modelled.
pub mod Polls
pub mod Examples
use infra.Prelude.{
  ℕ, zero, suc, max, String, Bool, true, false, not, ◌&&◌, ◌||◌, Option, none, some, List, [], ◌∷◌,
  ◌==◌, leb, ltb, map, str_eq, if◌then◌else◌,
}
use infra.Prelude.Dict.{contains}
use infra.Prelude.Text.{strip, lower, is_hex, all_chars}
use infra.Prelude.Text.Order.{sorted}
use infra.Prelude.Effects.{
  Failure, value_error, runtime_error, http_error, timeout_error, Outcome, ok, raised, Run, check,
  cause, ◌>>◌,
}
use infra.DeployContract.{is_sha}
use Prim.Native.String.{count}

-- The keys that the program reads in an answer of the runner; `none` is a key that is missing.
pub record Reply : Type 0 where
  pub status : Option String
  pub deployment_id : Option String

abbrev no_reply : Reply
no_reply = record { status = none; deployment_id = none }

pub data Body : Type 0 where
  empty : Body
  not_json : Body
  object : Reply → Body

-- What a request gets: nothing, or a status code and a body.
pub data Answer : Type 0 where
  unreachable : Answer
  replied : ℕ → Body → Answer

-- The payload of `/deploy`.
pub record Trigger : Type 0 where
  pub env : String
  pub ref : String
  pub triggered_by : String
  pub wait : Bool
  pub services : List String

-- The payload of `/deploy/status`.
pub record StatusQuery : Type 0 where
  pub env : String
  pub ref : String
  pub triggered_by : String
  pub services : Option (List String)
  pub deployment_id : Option String

-- `{s for s in services}` before it is sorted
distinct : List String → List String
distinct [] = []
distinct (s ∷ rest) = let others = distinct rest in if contains s rest then others else s ∷ others

unfoldable pub normalized : List String → List String
unfolding distinct sorted strip
normalized services = sorted (distinct (map strip services))

-- `not normalized_services or any(not service for service in normalized_services)`
abbrev is_refused : List String → Bool
is_refused [] = true
is_refused services = contains "" services

-- `_validate_request`
abbrev pub may_sign : (env ref secret base_url : String) → Bool
may_sign env ref secret base_url =
    contains env ("staging" ∷ "production" ∷ [])
    && is_sha ref
    && not (str_eq secret "")
    && not (str_eq base_url "")

-- `raise_for_status`
abbrev is_success : ℕ → Bool
is_success code = leb 200 code && ltb code 300

-- `resp.json() if resp.content else {}`; text that is not JSON is a `ValueError`.
abbrev reply_of : Body → Outcome Reply
reply_of empty = ok no_reply
reply_of not_json = raised value_error
reply_of (object r) = ok r

abbrev pub read : Answer → Outcome Reply
read unreachable = raised http_error
read (replied code body) = if is_success code then reply_of body else raised http_error

-- `trigger_platform_deploy`: the request that is posted is an event.
unfoldable pub trigger_platform_deploy {ℓ} :
    {E : Type ℓ} (posted : Trigger → E) (answer : Trigger → Answer) (env ref : String)
    (services : List String) (base_url secret triggered_by : String) (wait : Bool)
    → Run E Reply
unfolding normalized
trigger_platform_deploy posted answer env ref services base_url secret triggered_by wait =
    check (may_sign env ref secret base_url) value_error
    >> check (not (is_refused (normalized services))) value_error
    >> (let request : Trigger = record {
      env = env;
      ref = ref;
      triggered_by = triggered_by;
      wait = wait;
      services = normalized services;
    } in
        cause (posted request) (read (answer request)))

-- `str(last.get("status", "")).lower()`
abbrev pub status_of : Reply → String
status_of r = lower (elim r.status [ none ↦ "" | some s ↦ s ])

abbrev is_deployment_id : String → Bool
is_deployment_id s = count s == 16 && all_chars is_hex s

-- `terminal_excluded`
abbrev pub is_terminal : Reply → Bool
is_terminal r =
    not
      (contains (status_of r) ("running" ∷ "pending" ∷ "in_progress" ∷ "queued" ∷ "accepted" ∷ []))

-- The deploy is not visible to the runner yet.
abbrev is_not_found : Answer → Bool
is_not_found (replied code (object r)) = code == 404 && str_eq (status_of r) "not_found"
is_not_found _ = false

-- What one answer means for the loop: to go on, or the end of it.
abbrev pub settle : Outcome Reply → Option (Outcome Reply)
settle (ok r) = if is_terminal r then some (ok r) else none
settle (raised failure) = some (raised failure)

abbrev pub step : Answer → Option (Outcome Reply)
step answer = if is_not_found answer then none else settle (read answer)

abbrev or_else : Option (Outcome Reply) → Outcome Reply → Outcome Reply
or_else (some o) later = o
or_else none later = later

-- The loop, with the number of attempts that are left and the answer to each attempt.
unfoldable pub poll_loop : (left attempt : ℕ) → (ℕ → Answer) → Outcome Reply
unfolding lower
poll_loop zero attempt answers = raised timeout_error
poll_loop (suc left) attempt answers =
    let later = poll_loop left (suc attempt) answers in or_else (step (answers attempt)) later

abbrev are_refused : Option (List String) → Bool
are_refused none = false
are_refused (some services) = is_refused services

abbrev all_normalized : Option (List String) → Option (List String)
all_normalized none = none
all_normalized (some services) = some (normalized services)

abbrev may_ask_for : Option String → Bool
may_ask_for none = true
may_ask_for (some id) = is_deployment_id id

abbrev pub verdict : Bool → Outcome Reply → Outcome Reply
verdict true o = o
verdict false o = raised value_error

-- What is checked before the first request.
abbrev pub may_poll : StatusQuery → (secret base_url : String) → Bool
may_poll query secret base_url =
    may_sign query.env query.ref secret base_url
    && not (are_refused query.services)
    && may_ask_for query.deployment_id

abbrev pub query_of :
    (env ref : String) (services : Option (List String)) (deployment_id : Option String)
    (triggered_by : String)
    → StatusQuery
query_of env ref services deployment_id triggered_by = record {
  env = env;
  ref = ref;
  triggered_by = triggered_by;
  services = all_normalized services;
  deployment_id = deployment_id;
}

-- `poll_platform_deploy_status`
unfoldable pub poll_platform_deploy_status :
    (answers : StatusQuery → ℕ → Answer) (env ref : String) (services : Option (List String))
    (deployment_id : Option String) (base_url secret triggered_by : String) (attempts : ℕ)
    → Outcome Reply
unfolding normalized all_chars poll_loop
poll_platform_deploy_status answers env ref services deployment_id base_url secret triggered_by
      attempts =
    let query = query_of env ref services deployment_id triggered_by in
    verdict (may_poll query secret base_url) (poll_loop (max 1 attempts) 0 (answers query))
