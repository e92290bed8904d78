-- ===== src/Webhook/Hooks.antt =====
-- bootstrap/06.iac_runner/webhook_server.py: the health check, the push hook and the legacy sync.
-- What the hooks start is an output: the services of a `sync_services` in a thread of its own.
use infra.Prelude.{
  ℕ, ◌-◌, ◌<◌, ltb, String, ◌<>◌, Bool, true, false, not, ◌&&◌, Option, none, some, List, [], ◌∷◌,
  ◌++◌, ◌≡◌, ◌⊎◌, inl, inr, arith, str_eq, if◌then◌else◌, Bool-cases, ltb→lt,
}
use infra.Prelude.Dict.{Dict, contains}
use infra.Prelude.Text.{strip, lower, take_chars}
use infra.DeployDependencies.{Manifest, add, add_all}
use infra.SyncRunner.Sync.{get_changed_services_from_files}
use infra.Webhook.{Config, Signed, verify_signature, verify_iac_signature}

-- `_op_health_cache`: `none` before the first call.
pub record OpHealth : Type 0 where
  pub at : ℕ
  pub works : Bool

-- The answer, the cache after it, and whether `op whoami` was called. The clock is monotonic.
unfoldable pub op_service_account_works :
    (ttl : ℕ) (token : String) (now : ℕ) (whoami : Bool)
    → Option OpHealth
    → Bool × Option OpHealth × Bool
unfolding strip
op_service_account_works ttl token now whoami none =
    if str_eq (strip token) ""
    then (false, none, false)
    else (whoami, some (record { at = now; works = whoami }), true)
op_service_account_works ttl token now whoami (some cache) =
    if str_eq (strip token) ""
    then (false, some cache, false)
    else if ltb (now - cache.at) ttl
    then (cache.works, some cache, false)
    else (whoami, some (record { at = now; works = whoami }), true)

-- What the health check looks at, but for the token of 1Password.
pub record Surroundings : Type 0 where
  pub has_secrets : Bool
  pub git_repo_url : String
  pub webhook_secret : String
  pub dokploy_api_key : String
  pub modules : Dict Bool
  pub binaries : Dict Bool
  pub has_workspace : Bool

abbrev prefixed : String → Dict Bool → Dict Bool
prefixed prefix [] = []
prefixed prefix ((name, found) ∷ rest) = (prefix <> name, found) ∷ prefixed prefix rest

unfoldable pub all_checks : Dict Bool → Bool
all_checks [] = true
all_checks ((_, passed) ∷ rest) = passed && all_checks rest

abbrev checks_of : Surroundings → (op_works : Bool) → Dict Bool
checks_of s op_works =
    ("http", true)
    ∷ ("vault_secrets", s.has_secrets)
    ∷ ("git_repo_url", not (str_eq s.git_repo_url ""))
    ∷ ("webhook_secret", not (str_eq s.webhook_secret ""))
    ∷ ("op_service_account_token", op_works)
    ∷ ("dokploy_api_key", not (str_eq (strip s.dokploy_api_key) ""))
    ∷ (prefixed "python:" s.modules
        ++ prefixed "binary:" s.binaries
        ++ (("git_workspace", s.has_workspace) ∷ []))

-- `health`: the status code and the checks.
unfoldable pub health : Surroundings → (op_works : Bool) → ℕ × Dict Bool
unfolding strip all_checks
health s op_works =
    let checks = checks_of s op_works in (if all_checks checks then 200 else 503, checks)

-- The files of a commit of a push; a key that is missing is the empty list.
pub record Commit : Type 0 where
  pub added : List String
  pub modified : List String
  pub removed : List String

unfoldable pub changed_files : List Commit → List String
changed_files [] = []
changed_files (commit ∷ rest) =
    commit.added ++ commit.modified ++ commit.removed ++ changed_files rest

pub record Push : Type 0 where
  pub event : String
  pub ref : String
  pub commits : List Commit
  pub after : String

pub data HookReply : Type 0 where
  refused : ℕ → String → HookReply
  ignored : String → HookReply
  no_changes : HookReply
  accepted : List String → (commit : Option String) → HookReply

abbrev hooked : List String → Option String → HookReply × Option (List String)
hooked [] commit = (no_changes, none)
hooked services commit = (accepted services commit, some services)

-- `webhook`; the manifest is that of the checkout, if it can be read.
unfoldable pub webhook :
    Config
    → (branch : String) → Option Manifest
    → (payload signature : String) → Push
    → HookReply × Option (List String)
unfolding verify_signature changed_files get_changed_services_from_files take_chars
webhook config branch manifest payload signature push =
    if not (verify_signature config payload signature)
    then (refused 401 "Invalid signature", none)
    else if not (str_eq push.event "push")
    then (ignored push.event, none)
    else if not (str_eq push.ref ("refs/heads/" <> branch))
    then (ignored ("Not " <> branch <> " branch"), none)
    else hooked (get_changed_services_from_files manifest (changed_files push.commits))
        (some (take_chars 8 push.after))

abbrev synced : List String → HookReply × Option (List String)
synced [] = (refused 400 "No services specified", none)
synced services = (accepted services none, some services)

abbrev is_enabled : String → Bool
is_enabled enable = contains (lower enable) ("1" ∷ "true" ∷ "yes" ∷ [])

-- `manual_sync`: `all` says that the payload has a true `all`; the dict is that of the nonces.
unfoldable pub manual_sync :
    Config
    → (enable : String) → (now : ℕ) → Signed
    → (all : Bool) → (services : List String) → Dict ℕ
    → (HookReply × Option (List String)) × Dict ℕ
unfolding lower verify_iac_signature add
manual_sync config enable now signed all services seen =
    let (valid, after) = verify_iac_signature config now signed seen in
    if not (is_enabled enable)
    then ((refused 404 "Legacy sync endpoint disabled", none), seen)
    else if not valid
    then ((refused 401 "Invalid signature", none), after)
    else (synced (if all then "__all__" ∷ [] else add_all services []), after)

-- A token that is reported to work has worked in a call less than the time to live ago, or now.
pub op_service_account_works-fresh :
    (ttl : ℕ) (token : String) (now : ℕ) (whoami : Bool) (cache : OpHealth)
    → (op_service_account_works ttl token now whoami (some cache)).0 ≡ true
    → ((cache.works ≡ true) × (now - cache.at < ttl)) ⊎ (whoami ≡ true)
unfolding op_service_account_works
op_service_account_works-fresh ttl token now whoami cache works =
    elim (Bool-cases (ltb (now - cache.at) ttl)) [
      | inl recent ↦ elim (Bool-cases (str_eq (strip token) "")) [
        | inl missing ↦ ground arith
        | inr given ↦ inl (ground arith, ltb→lt (now - cache.at) ttl recent)
      ]
      | inr stale ↦ inr (ground arith)
    ]
