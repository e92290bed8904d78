-- ===== src/SyncRunner/Diagnosis.antt =====
-- bootstrap/06.iac_runner/sync_runner.py: `diagnose_failure` and what it searches for.
use Prim.Native.Char.{Char, code}
use Prim.Native.String.{[], ◌∷◌}
use infra.Prelude.{
  String, ◌<>◌, Bool, true, false, not, ◌&&◌, ◌||◌, Option, none, some, List, ◌==◌, str_eq,
  if◌then◌else◌,
}
use infra.Prelude.Text.{lower, strip, is_space, after_prefix, contains_text}
use infra.Prelude.Text.Split.{splitlines}

pub record Diagnostic : Type 0 where
  pub error_kind : String
  pub summary : String
  pub next_action : String

is_quote : Char → Bool
is_quote c = code c == b'\'' || code c == b'"'

-- `([^'"]+)['"]`
quoted : String → Option String
unfolding is_quote
quoted [] = none
quoted (c ∷ s) =
    let more = quoted s in
    if is_quote c then some [] else elim more [ none ↦ none | some name ↦ some (c ∷ name) ]

not_empty : Option String → Option String
not_empty none = none
not_empty (some s) = if str_eq s "" then none else some s

-- `\s+No module named ['"]([^'"]+)['"]`; the flag says that white space came before.
module_name : Bool → String → Option String
unfolding is_space after_prefix quoted is_quote not_empty
module_name spaced [] = none
module_name spaced (c ∷ s) =
    let later = module_name true s in
    if is_space c
    then later
    else if spaced
    then elim (after_prefix "No module named " (c ∷ s)) [
      | none ↦ none
      | some [] ↦ none
      | some (q ∷ rest) ↦ if is_quote q then not_empty (quoted rest) else none
    ]
    else none

-- The rest of the line.
line_of : String → String
line_of [] = []
line_of (c ∷ s) = let rest = line_of s in if code c == 10 then [] else c ∷ rest

-- `\s*([^\n]+)`, stripped: white space up to the end of the text leaves the group some of it, unless it
-- is made of line feeds. The flag says that it is not.
secret_path : Bool → String → Option String
unfolding is_space line_of strip
secret_path spaced [] = if spaced then some "" else none
secret_path spaced (c ∷ s) =
    let later = secret_path (spaced || not (code c == 10)) s in
    if is_space c then later else some (strip (line_of (c ∷ s)))

-- `re.search` of a text and what follows it
search : String → (String → Option String) → String → Option String
unfolding after_prefix
search prefix group [] = none
search prefix group (c ∷ s) =
    let later = search prefix group s in
    let here : Option String = elim (after_prefix prefix (c ∷ s)) [
      | none ↦ none
      | some rest ↦ group rest
    ] in
    elim here [ none ↦ later | some found ↦ some found ]

abbrev any_in : List String → String → Bool
any_in List.[] line = false
any_in (List.◌∷◌ pattern patterns) line = contains_text pattern line || any_in patterns line

last_line : List String → String
last_line List.[] = ""
last_line (List.◌∷◌ line List.[]) = line
last_line (List.◌∷◌ line (List.◌∷◌ next rest)) = last_line (List.◌∷◌ next rest)

matching_line : List String → List String → Option String
matching_line patterns List.[] = none
matching_line patterns (List.◌∷◌ line lines) =
    let later = matching_line patterns lines in if any_in patterns line then some line else later

unfoldable pub first_matching_line : String → List String → String
unfolding matching_line last_line strip splitlines
first_matching_line text patterns = elim (matching_line patterns (splitlines text)) [
  | some line ↦ strip line
  | none ↦ if str_eq (strip text) "" then "" else strip (last_line (splitlines (strip text)))
]

abbrev is_dokploy : String → Bool
is_dokploy lowered =
    contains_text "no github provider" lowered
    || contains_text "no git provider" lowered
    || (contains_text "dokploy" lowered
        && (contains_text "unauthorized" lowered || contains_text "401" lowered))

abbrev is_onepassword : String → Bool
is_onepassword combined =
    contains_text "Service Account" combined
    || (contains_text "1Password" combined && contains_text "sync failed" combined)

abbrev diagnostic : (error_kind summary next_action : String) → Diagnostic
diagnostic error_kind summary next_action = record {
  error_kind = error_kind;
  summary = summary;
  next_action = next_action;
}

abbrev or_unknown : String → String
or_unknown summary =
    if str_eq summary "" then "Invoke task failed without a recognizable diagnostic." else summary

-- What no pattern of a group classifies.
by_words : String → Diagnostic
unfolding lower first_matching_line
by_words combined =
    let lowered = lower combined in
    if contains_text "VAULT_ROOT_TOKEN not set" combined
    then diagnostic "vault_token_missing" "Child invoke task could not find VAULT_ROOT_TOKEN."
        "Check the IaC Runner AppRole login: VAULT_ROLE_ID/VAULT_SECRET_ID must be present in the runner env and `vault write auth/approle/login` must succeed (re-run setup-approle if the secret_id was wiped)."
    else if is_dokploy lowered
    then diagnostic "dokploy_auth_failed"
        "Dokploy deploy could not resolve a GitHub provider — either an empty/invalid DOKPLOY_API_KEY or no GitHub provider configured."
        "Check in order: (1) the runner's DOKPLOY_API_KEY is populated — its Dokploy compose env can be wiped on redeploy; (2) a GitHub provider exists in Dokploy (github.githubProviders). Fix whichever is missing and redeploy the runner."
    else if contains_text "permission denied" lowered && contains_text "vault" lowered
    then diagnostic "vault_permission_denied" "Vault rejected the token for the requested path."
        "Check the IaC Runner Vault policy and target env secret path."
    else if is_onepassword combined
    then diagnostic "onepassword_auth_failed"
        (first_matching_line combined
          (List.◌∷◌ "Service Account" (List.◌∷◌ "1Password to Vault sync failed" List.[])))
        "OP_SERVICE_ACCOUNT_TOKEN is invalid (e.g. the 1Password service account was deleted). Recreate the service account, update the iac-runner's OP_SERVICE_ACCOUNT_TOKEN secret, and redeploy it."
    else if contains_text "Timeout after" combined
    then diagnostic "invoke_timeout"
        (first_matching_line combined (List.◌∷◌ "Timeout after" List.[]))
        "Inspect the service deploy logs and Dokploy deployment status for the timed-out task."
    else diagnostic "unknown_invoke_failure"
        (or_unknown (
          first_matching_line combined (
            List.◌∷◌ "Traceback" (
              List.◌∷◌ "Error:" (
                List.◌∷◌ "ERROR:" (
                  List.◌∷◌ "ValueError:"
                    (List.◌∷◌ "RuntimeError:" (List.◌∷◌ "Exception:" List.[]))))))))
        "Inspect this service stderr tail and the corresponding container/Dokploy logs."

abbrev by_secret : String → Option String → Diagnostic
by_secret combined none = by_words combined
by_secret combined (some path) =
    diagnostic "vault_secret_missing" ("Vault secret path is missing: " <> path)
      ("Create or repair secret/data/" <> path <> " before rerunning deploy.")

abbrev by_module : String → Option String → Diagnostic
by_module combined (some name) =
    diagnostic "missing_python_dependency" ("IaC Runner runtime is missing Python module: " <> name)
      "Rebuild or redeploy bootstrap/iac-runner from the current requirements.txt, then rerun the deployment."
by_module combined none =
    if contains_text "Non-production requires DATA_PATH or ENV_SUFFIX" combined
    then diagnostic "missing_environment_isolation"
        "Child invoke task is missing DATA_PATH or ENV_SUFFIX for a non-production deploy."
        "Check IaC Runner child env: DEPLOY_ENV, ENV_SUFFIX, and ENV_DOMAIN_SUFFIX."
    else by_secret combined (search "Secret not found:" (secret_path false) combined)

unfoldable pub diagnose_failure : (stderr stdout : String) → Diagnostic
unfolding search module_name secret_path by_words contains_text
diagnose_failure stderr stdout =
    let combined = stderr <> "\n" <> stdout in
    by_module combined (search "ModuleNotFoundError:" (module_name false) combined)
