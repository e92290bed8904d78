-- ===== src/Webhook/Deploys.antt =====
-- bootstrap/06.iac_runner/webhook_server.py: the deployments that the server knows: those in flight,
-- and the results of the recent ones. Seconds of the monotonic clock are natural numbers.
use infra.Prelude.{
  ℕ, ◌-◌, String, ◌<>◌, Bool, true, false, ◌&&◌, ◌||◌, Option, none, some, List, [], ◌∷◌, ltb,
  str_eq, if◌then◌else◌,
}
use infra.Prelude.Dict.{Dict}
use infra.IacRunnerClient.{normalized}

-- `DeploymentKey`
pub record Key : Type 0 where
  pub env : String
  pub ref : String
  pub services : List String

abbrev pub same_texts : List String → List String → Bool
same_texts [] [] = true
same_texts (s ∷ l) (t ∷ m) = str_eq s t && same_texts l m
same_texts _ _ = false

unfoldable pub same_key : Key → Key → Bool
same_key j k = str_eq j.env k.env && str_eq j.ref k.ref && same_texts j.services k.services

-- `_normalize_services`
unfoldable pub normalize_services : Option (List String) → List String
unfolding normalized
normalize_services none = "__all__" ∷ []
normalize_services (some services) = normalized services

-- `_deployment_key`
abbrev pub deployment_key : (env ref : String) → Option (List String) → Key
deployment_key env ref services = record {
  env = env;
  ref = ref;
  services = normalize_services services;
}

-- `",".join(services)`
abbrev joined : List String → String
joined [] = ""
joined (s ∷ []) = s
joined (s ∷ t ∷ l) = s <> "," <> joined (t ∷ l)

-- `_deployment_id`, with the first 16 hex digits of a hash.
unfoldable pub deployment_id : (hash : String → String) → Key → String
deployment_id hash key = hash (key.env <> ":" <> key.ref <> ":" <> joined key.services)

-- What a deployment has come to, or that it is in progress.
pub record Response : Type 0 where
  pub status : String
  pub deployment_id : String
  pub env : String
  pub ref : String
  pub triggered_by : String
  pub requested_services : List String
  pub error : String
  pub cached : Bool
  pub duplicate : Bool

-- The module's state.
pub record Server : Type 0 where
  pub nonces : Dict ℕ
  pub in_flight : List Key
  pub recent : List (Key × (ℕ × Response))

abbrev pub is_in : Key → List Key → Bool
is_in key [] = false
is_in key (k ∷ rest) = same_key k key || is_in key rest

-- `_in_flight_deploys.discard(key)`
unfoldable pub discard : Key → List Key → List Key
discard key [] = []
discard key (k ∷ rest) =
    let others = discard key rest in if same_key k key then others else k ∷ others

abbrev pub Recent : Type 0
Recent = List (Key × (ℕ × Response))

unfoldable pub find_recent : Key → Recent → Option (ℕ × Response)
find_recent key [] = none
find_recent key ((k, item) ∷ rest) =
    let later = find_recent key rest in if same_key k key then some item else later

unfoldable pub forget : Key → Recent → Recent
forget key [] = []
forget key ((k, item) ∷ rest) =
    let others = forget key rest in if same_key k key then others else (k, item) ∷ others

-- `_recent_deploys[key] = ...`
unfoldable pub store : Key → ℕ × Response → Recent → Recent
unfolding forget
store key item recent = (key, item) ∷ forget key recent

-- `_recent_result`, with what is left of the recent results.
abbrev pub judged_recent :
    (ttl now : ℕ) → Key → Recent → Option (ℕ × Response) → Option Response × Recent
judged_recent ttl now key recent none = (none, recent)
judged_recent ttl now key recent (some (completed_at, response)) =
    if ltb ttl (now - completed_at) then (none, forget key recent) else (some response, recent)

unfoldable pub recent_result : (ttl now : ℕ) → Key → Recent → Option Response × Recent
recent_result ttl now key recent = judged_recent ttl now key recent (find_recent key recent)

-- `_in_progress_response`
abbrev pub in_progress_response :
    (hash : String → String) → Key → (triggered_by : String) → (duplicate : Bool) → Response
in_progress_response hash key triggered_by duplicate = record {
  status = "in_progress";
  deployment_id = deployment_id hash key;
  env = key.env;
  ref = key.ref;
  triggered_by = triggered_by;
  requested_services = key.services;
  error = "";
  cached = false;
  duplicate = duplicate;
}

-- How the sync of a deployment ends: with a result that is a success or not, or with an exception.
pub data Ending : Type 0 where
  synced : Bool → Ending
  failed_with : String → Ending

-- `_completed_response`, and the response of `_run_deployment` to an exception.
abbrev pub ended_response :
    (hash : String → String) → Key → (triggered_by : String) → Ending → Response
ended_response hash key triggered_by (synced success) =
    record (in_progress_response hash key triggered_by false) {
      status = if success then "completed" else "failed";
    }
ended_response hash key triggered_by (failed_with error) =
    record (in_progress_response hash key triggered_by false) { status = "failed"; error = error }

-- The end of `_run_deployment`.
unfoldable pub finish_deployment : (now : ℕ) → Key → Response → Server → Server
unfolding store discard
finish_deployment now key response server = record server {
  in_flight = discard key server.in_flight;
  recent = store key (now, response) server.recent;
}

-- What the server does with a deployment that is asked for, under the lock.
pub data Admission : Type 0 where
  known : Response → Admission
  in_progress : Admission
  started : Admission

abbrev pub admitted : Key → Server → Option Response × Recent → Admission × Server
admitted key server (some response, recent) = (known response, record server { recent = recent })
admitted key server (none, recent) =
    if is_in key server.in_flight
    then (in_progress, record server { recent = recent })
    else (started, record server { recent = recent; in_flight = key ∷ server.in_flight })

unfoldable pub admit : (ttl now : ℕ) → Key → Server → Admission × Server
unfolding recent_result
admit ttl now key server = admitted key server (recent_result ttl now key server.recent)
