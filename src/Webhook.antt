-- ===== src/Webhook.antt =====
-- bootstrap/06.iac_runner/webhook_server.py: the signature of a request, and that it is used once.
-- Seconds are natural numbers, and a timestamp is a text of digits; the HMAC is a parameter.
pub mod Once
pub mod Deploys
pub mod Handlers
pub mod Status
pub mod Hooks
pub mod Keys
pub mod InFlight
pub mod Exclusive
pub mod Examples
use Prim.Native.Char.{Char, code}
use Prim.Native.String.{count}
use infra.Prelude.{
  ℕ, ◌+◌, ◌-◌, String, ◌<>◌, Bool, true, false, not, ◌&&◌, ◌||◌, Option, none, some, List, [], ◌∷◌,
  ◌==◌, leb, ltb, str_eq, starts_with, if◌then◌else◌,
}
use infra.Prelude.Dict.{Dict, insert, keys, contains}
use infra.Prelude.Decimal.Parse.{int_of}
use infra.Prelude.Text.{all_chars, is_digit, is_lower_letter}

-- `WEBHOOK_SECRET`, `SIGNATURE_TTL_SECONDS`, and the hex digest of a text under the secret.
pub record Config : Type 0 where
  pub secret : String
  pub signature_ttl : ℕ
  pub hexdigest : (secret payload : String) → String

-- `verify_signature`
unfoldable pub verify_signature : Config → (payload signature : String) → Bool
verify_signature config payload signature =
    not (str_eq config.secret "")
    && not (str_eq signature "")
    && starts_with signature "sha256="
    && str_eq ("sha256=" <> config.hexdigest config.secret payload) signature

-- A signed request.
pub record Signed : Type 0 where
  pub payload : String
  pub signature : String
  pub timestamp : String
  pub nonce : String

abbrev is_nonce_char : Char → Bool
is_nonce_char c =
    is_digit c
    || is_lower_letter c
    || (leb b'A' (code c) && leb (code c) b'Z')
    || code c == b'.'
    || code c == b'_'
    || code c == b':'
    || code c == b'-'

abbrev is_nonce : String → Bool
is_nonce s = leb 8 (count s) && leb (count s) 128 && all_chars is_nonce_char s

-- `abs(now - timestamp_int) > SIGNATURE_TTL_SECONDS`
abbrev pub is_stale : (ttl now timestamp : ℕ) → Bool
is_stale ttl now timestamp = ltb ttl ((now - timestamp) + (timestamp - now))

abbrev is_stale_text : (ttl now : ℕ) → Option ℕ → Bool
is_stale_text ttl now none = true
is_stale_text ttl now (some timestamp) = is_stale ttl now timestamp

-- The checks that read no nonce, in the order of the source.
unfoldable pub is_signed : Config → (now : ℕ) → Signed → Bool
unfolding int_of all_chars
is_signed config now r =
    not (str_eq config.secret "")
    && not (str_eq r.timestamp "")
    && not (str_eq r.nonce "")
    && is_nonce r.nonce
    && not (is_stale_text config.signature_ttl now (int_of r.timestamp))
    && not (str_eq r.signature "")
    && str_eq
        ("sha256="
          <> config.hexdigest config.secret (r.timestamp <> "." <> r.nonce <> "." <> r.payload))
        r.signature

abbrev pub nonce_key : Signed → String
nonce_key r = r.timestamp <> ":" <> r.nonce

-- `_seen_nonces` without the expired ones
unfoldable pub unexpired : (ttl now : ℕ) → Dict ℕ → Dict ℕ
unexpired ttl now [] = []
unexpired ttl now ((key, seen_at) ∷ rest) =
    let others = unexpired ttl now rest in
    if ltb ttl (now - seen_at) then others else (key, seen_at) ∷ others

-- The part of `verify_iac_signature` under the lock.
abbrev pub use_nonce : (now : ℕ) → (key : String) → Dict ℕ → Bool × Dict ℕ
use_nonce now key seen =
    if contains key (keys seen) then (false, seen) else (true, insert key now seen)

-- `verify_iac_signature`: the verdict, and the nonces that are kept.
unfoldable pub verify_iac_signature : Config → (now : ℕ) → Signed → Dict ℕ → Bool × Dict ℕ
verify_iac_signature config now r seen =
    let used = use_nonce now (nonce_key r) (unexpired config.signature_ttl now seen) in
    if is_signed config now r then used else (false, seen)
