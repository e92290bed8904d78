-- ===== src/Webhook/Examples.antt =====
-- Runs of the server on signed requests. The digest of a text is a constant here.
use infra.Webhook.Deploys.{normalize_services}
use infra.Webhook.Deploys.{same_key}
use infra.Webhook.Keys.{Once}
use infra.Webhook.Deploys.{find_recent}
use infra.Prelude.Dict.{insert}
use infra.Webhook.{unexpired}
use infra.Webhook.{is_signed}
use infra.Webhook.{int_of}
use infra.Prelude.{String, true, false, none, some, List, [], ◌∷◌, ◌≡◌, refl, arith}
use infra.Prelude.Decimal.Parse.{int_of}
use infra.Webhook.{Config, Signed, verify_iac_signature}
use infra.Webhook.Once.{after_calls, verify_iac_signature-once}
use infra.Webhook.Deploys.{Key, synced}
use infra.Webhook.Handlers.{Settings, Payload, texts, no_wait, word, version_deploy, parse_bool}
use infra.Webhook.Exclusive.{World, Move, asked, ended, moves, Exclusive, moves-Exclusive}

abbrev config : Config
config = record { secret = "secret"; signature_ttl = 300; hexdigest = λ _ _. "ff" }

-- A request that is signed at the time 1000.
abbrev signed : Signed
signed = record { payload = "{}"; signature = "sha256=ff"; timestamp = "1000"; nonce = "nonce-001" }

abbrev other : Signed
other = record signed { nonce = "nonce-002" }

accepted_runs : verify_iac_signature config 1100 signed [] ≡ (true, ("1000:nonce-001", 1100) ∷ [])
unfolding verify_iac_signature is_signed unexpired insert
accepted_runs = refl

stale_runs : (verify_iac_signature config 1301 signed []).0 ≡ false
unfolding verify_iac_signature is_signed
stale_runs = refl

replay_runs :
    (verify_iac_signature config 1200 signed (verify_iac_signature config 1100 signed []).1).0
    ≡ false
unfolding verify_iac_signature is_signed unexpired insert
replay_runs = refl

-- A request that is dated ahead of the server's clock is accepted a second time, when its nonce has
-- expired and its timestamp has not.
ahead_runs :
    (verify_iac_signature config 1001 signed (verify_iac_signature config 700 signed []).1).0 ≡ true
unfolding verify_iac_signature is_signed unexpired insert
ahead_runs = refl

accepted : (verify_iac_signature config 1100 signed []).0 ≡ true
unfolding verify_iac_signature is_signed unexpired
accepted = refl

timestamp_reads : int_of "1000" ≡ some 1000
unfolding int_of
timestamp_reads = refl

verify_iac_signature-once_example :
    (verify_iac_signature config 1290
      (record signed { payload = "{\"a\":1}" })
      (after_calls config ((1250, other) ∷ []) (verify_iac_signature config 1100 signed []).1)).0
    ≡ false
verify_iac_signature-once_example =
    verify_iac_signature-once config signed (record signed { payload = "{\"a\":1}" }) 1100 1290 1000
      [] ((1250, other) ∷ []) refl refl timestamp_reads (omega arith) (omega arith)
      (omega arith, tt) accepted

abbrev settings : Settings
settings = record { config = config; recent_ttl = 600; hash = λ s. s }

abbrev commit : String
commit = "bbbbbbbbbbbbbbbbbbbbbbbbbbbbbbbbbbbbbbbb"

abbrev payload : Payload
payload = record {
  env = some "staging";
  ref = some "BBBBBBBBBBBBBBBBBBBBBBBBBBBBBBBBBBBBBBBB";
  tag = none;
  triggered_by = none;
  wait = no_wait;
  services = texts ("platform/redis" ∷ []);
  deployment_id = none;
}

abbrev key : Key
key = record { env = "staging"; ref = commit; services = "platform/redis" ∷ [] }

abbrev idle : World
idle = record { server = record { nonces = []; in_flight = []; recent = [] }; running = [] }

word_runs : parse_bool (word " Yes ") ≡ some true
unfolding parse_bool
word_runs = refl

-- A request, a second one for the same deployment, and a third one when it is over.
abbrev first_two : List Move
first_two = asked 1000 5 signed payload ∷ asked 1001 6 other payload ∷ []

two_requests_run : (moves settings first_two idle).running ≡ key ∷ []
unfolding moves version_deploy is_signed unexpired find_recent insert same_key normalize_services
two_requests_run = refl

all_over_runs :
    (moves settings
      (ended 9 key "unknown" (synced true) ∷ [])
      (moves settings first_two idle)).running
    ≡ []
unfolding moves version_deploy is_signed unexpired find_recent insert same_key normalize_services
all_over_runs = refl

idle-Exclusive : Exclusive idle
unfolding Once
idle-Exclusive = record { once = tt; in_flight = λ _. refl }

moves-Exclusive_example : Exclusive (moves settings first_two idle)
moves-Exclusive_example = moves-Exclusive settings first_two idle idle-Exclusive
