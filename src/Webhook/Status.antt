-- ===== src/Webhook/Status.antt =====
-- bootstrap/06.iac_runner/webhook_server.py: `deployment_status`.
use Prim.Native.String.{count}
use infra.Prelude.{
  ℕ, ◌-◌, String, Bool, true, false, not, ◌&&◌, ◌||◌, Option, none, some, List, [], ◌∷◌, ◌++◌, map,
  ltb, ◌==◌, str_eq, if◌then◌else◌,
}
use infra.Prelude.Text.{all_chars, is_hex}
use infra.Prelude.Text.Order.{later}
use infra.Webhook.{Signed, verify_iac_signature}
use infra.Webhook.Deploys.{
  Key, Response, Server, Recent, recent_result, is_in, deployment_key, deployment_id,
  in_progress_response,
}
use infra.Webhook.Handlers.{
  Settings, Payload, Reply, answered, error, deployment, ambiguous, mismatch, not_found, or_default,
  or_tag, services_of, is_env, validate_deploy_ref,
}

-- `_recent_result` for every key: the results that are left.
unfoldable pub active : (ttl now : ℕ) → Recent → Recent
active ttl now [] = []
active ttl now ((key, (completed_at, response)) ∷ rest) =
    let others = active ttl now rest in
    if ltb ttl (now - completed_at) then others else (key, (completed_at, response)) ∷ others

abbrev pub recent_keys : Recent → List Key
recent_keys [] = []
recent_keys ((key, _) ∷ rest) = key ∷ recent_keys rest

abbrev later_texts : List String → List String → Bool
later_texts [] m = false
later_texts (s ∷ l) [] = true
later_texts (s ∷ l) (t ∷ m) = later s t || (str_eq s t && later_texts l m)

-- Keys of the same environment and ref are sorted by their services.
insert_key : Key → List Key → List Key
insert_key key [] = key ∷ []
insert_key key (k ∷ rest) =
    let others = insert_key key rest in
    if later_texts key.services k.services then k ∷ others else key ∷ k ∷ rest

-- The keys of a set with the environment and the ref, in order.
unfoldable pub candidates_of : (env ref : String) → List Key → List Key
unfolding insert_key
candidates_of env ref [] = []
candidates_of env ref (key ∷ rest) =
    let others = candidates_of env ref rest in
    if str_eq key.env env && str_eq key.ref ref && not (is_in key rest)
    then insert_key key others
    else others

abbrev is_deployment_id : String → Bool
is_deployment_id s = count s == 16 && all_chars is_hex s

abbrev is_id : Option String → Bool
is_id none = true
is_id (some s) = is_deployment_id s

-- The key that a query means: the one of its services, or the only one with its environment and ref.
abbrev pub meant_key : (env ref : String) → Option (List String) → List Key → Option Key
meant_key env ref (some services) candidates = some (deployment_key env ref (some services))
meant_key env ref none [] = some (deployment_key env ref none)
meant_key env ref none (key ∷ []) = some key
meant_key env ref none _ = none

abbrev is_meant : Option String → String → Bool
is_meant none expected = true
is_meant (some id) expected = str_eq id expected

abbrev pub status_of_key :
    Settings → (triggered_by : String) → Key → Option Response → List Key → Reply
status_of_key s triggered_by key (some response) in_flight = answered 200 (deployment response)
status_of_key s triggered_by key none in_flight =
    if is_in key in_flight
    then answered 200 (deployment (in_progress_response s.hash key triggered_by false))
    else answered 404 (not_found (deployment_id s.hash key) key.env key.ref)

abbrev ids_of : Settings → List Key → List String
ids_of s keys = map (λ key. deployment_id s.hash key) keys

-- A query without services looks at every recent result, which forgets the expired ones.
abbrev seen_recent : (ttl now : ℕ) → Option (List String) → Recent → Recent
seen_recent ttl now none recent = active ttl now recent
seen_recent ttl now (some _) recent = recent

abbrev pub answer_for :
    Settings → (mono : ℕ) → Payload → (triggered_by : String) → Key → Server → Reply × Server
answer_for s mono p triggered_by key server =
    let expected = deployment_id s.hash key in
    let (response, recent) = recent_result s.recent_ttl mono key server.recent in
    if is_meant p.deployment_id expected
    then (
      status_of_key s triggered_by key response server.in_flight,
      record server { recent = recent },
    )
    else (answered 409 (mismatch expected), server)

abbrev pub answer_meant :
    Settings → (mono : ℕ) → Payload → List Key → Server → Option Key → Reply × Server
answer_meant s mono p candidates server none =
    (answered 409 (ambiguous (ids_of s candidates)), server)
answer_meant s mono p candidates server (some key) =
    answer_for s mono p (or_default p.triggered_by "unknown") key server

abbrev pub answer_query :
    Settings
    → (mono : ℕ) → Payload
    → (env ref : String) → Option (List String)
    → Server
    → Reply × Server
answer_query s mono p env ref services server =
    let recent = seen_recent s.recent_ttl mono services server.recent in
    let candidates = candidates_of env ref (server.in_flight ++ recent_keys recent) in
    answer_meant s mono p candidates (record server { recent = recent })
      (meant_key env ref services candidates)

abbrev pub query :
    Settings
    → (mono : ℕ) → Payload
    → Option String
    → Option (Option (List String))
    → Server
    → Reply × Server
query s mono p (some ref) (some services) server =
    let env = or_default p.env "staging" in
    let answer = answer_query s mono p env ref services server in
    if is_env env && is_id p.deployment_id
    then answer
    else (answered 400 (error "invalid payload"), server)
query s mono p _ _ server = (answered 400 (error "invalid payload"), server)

-- `deployment_status`
unfoldable pub deployment_status :
    Settings → (now mono : ℕ) → Signed → Payload → Server → Reply × Server
unfolding verify_iac_signature validate_deploy_ref recent_result active candidates_of
deployment_status s now mono signed p server =
    let (valid, nonces) = verify_iac_signature s.config now signed server.nonces in
    let checked = record server { nonces = nonces } in
    if valid
    then query s mono p (validate_deploy_ref (or_tag p.ref p.tag)) (services_of p.services) checked
    else (answered 401 (error "Invalid signature"), checked)
