-- ===== src/Webhook/Once.antt =====
-- bootstrap/06.iac_runner/webhook_server.py: a nonce is used once.
use infra.Prelude.{
  ℕ, ◌-◌, ◌≤◌, String, ◌<>◌, Bool, true, false, some, List, [], ◌∷◌, ◌≡◌, refl, sym, ap, ◌∙◌, inl,
  inr, arith, ltb, str_eq, eq_iff, if◌then◌else◌, Bool-cases, All, subst,
}
use infra.Prelude.Dict.{Dict, insert, keys, contains}
use infra.Prelude.Decimal.Parse.{int_of}
use infra.Webhook.{
  Config, Signed, is_stale, is_stale_text, is_signed, nonce_key, unexpired, use_nonce,
  verify_iac_signature,
}

module _ (ttl : ℕ) (key : String) where
  -- The key is there, and would still be at the time `bound`.
  Kept : ℕ → Dict ℕ → Type 0
  Kept bound seen = contains key (keys (unexpired ttl bound seen)) ≡ true

  Kept-unexpired :
      (bound now : ℕ) (seen : Dict ℕ)
      → now ≤ bound
      → Kept bound seen
      → Kept bound (unexpired ttl now seen)
  unfolding Kept unexpired
  Kept-unexpired bound now [] h k = k
  Kept-unexpired bound now ((j, at) ∷ rest) h k =
      ground (arith, Kept-unexpired bound now rest h, k, h)

  Kept-contains : (bound : ℕ) (seen : Dict ℕ) → Kept bound seen → contains key (keys seen) ≡ true
  unfolding Kept unexpired
  Kept-contains bound [] k = k
  Kept-contains bound ((j, at) ∷ rest) k = ground (arith, Kept-contains bound rest, k)

  Kept-insert_other :
      (bound now : ℕ) (j : String) (seen : Dict ℕ)
      → str_eq j key ≡ false
      → Kept bound seen
      → Kept bound (insert j now seen)
  unfolding Kept unexpired insert
  Kept-insert_other bound now j [] other k = ground arith
  Kept-insert_other bound now j ((i, at) ∷ rest) other k = ground (
    arith,
    Kept-insert_other bound now j rest other,
    k,
    other,
    eq_iff i j,
    eq_iff i key,
    eq_iff j key,
  )

  Kept-insert :
      (bound now : ℕ) (seen : Dict ℕ)
      → ltb ttl (bound - now) ≡ false
      → Kept bound (insert key now seen)
  unfolding Kept unexpired insert
  Kept-insert bound now [] h = ground (arith, h, eq_iff key key)
  Kept-insert bound now ((i, at) ∷ rest) h =
      ground (arith, Kept-insert bound now rest h, h, eq_iff i key, eq_iff key key)

abbrev pub Call : Type 0
Call = ℕ × Signed

-- The nonces after some more requests.
unfoldable pub after_calls : Config → List Call → Dict ℕ → Dict ℕ
after_calls config [] seen = seen
after_calls config ((now, r) ∷ rest) seen =
    after_calls config rest (verify_iac_signature config now r seen).1

module _ (config : Config) (key : String) (bound : ℕ) where
  abbrev Stays : Dict ℕ → Type 0
  Stays seen = Kept config.signature_ttl key bound seen

  if-Kept :
      (test : Bool) (x y : Bool × Dict ℕ)
      → (test ≡ true → Stays x.1)
      → (test ≡ false → Stays y.1)
      → Stays (if test then x else y).1
  if-Kept true x y h k = h refl
  if-Kept false x y h k = k refl

  fresh-other :
      (j : String) (seen : Dict ℕ)
      → contains j (keys seen) ≡ false
      → Stays seen
      → str_eq j key ≡ false
  fresh-other j seen fresh k = elim (Bool-cases (str_eq j key)) [
    | inl same ↦
        let there : contains j (keys seen) ≡ true =
          ap (λ x. contains x (keys seen)) ((eq_iff j key).0 same)
          ∙ Kept-contains config.signature_ttl key bound seen k in
        ground (arith, there, fresh)
    | inr other ↦ other
  ]

  use_nonce-Kept :
      (now : ℕ) (j : String) (seen : Dict ℕ) → Stays seen → Stays (use_nonce now j seen).1
  use_nonce-Kept now j seen k =
      if-Kept (contains j (keys seen)) (false, seen) (true, insert j now seen) (λ _. k)
        (λ fresh.
          Kept-insert_other config.signature_ttl key bound now j seen (fresh-other j seen fresh k)
            k)

  verify-Kept :
      (now : ℕ) (r : Signed) (seen : Dict ℕ)
      → now ≤ bound
      → Stays seen
      → Stays (verify_iac_signature config now r seen).1
  unfolding verify_iac_signature
  verify-Kept now r seen h k =
      let left = unexpired config.signature_ttl now seen in
      if-Kept (is_signed config now r) (use_nonce now (nonce_key r) left) (false, seen)
        (λ _.
          use_nonce-Kept now (nonce_key r) left
            (Kept-unexpired config.signature_ttl key bound now seen h k))
        (λ _. k)

  after_calls-Kept :
      (calls : List Call) (seen : Dict ℕ)
      → All (λ (call : Call). call.0 ≤ bound) calls
      → Stays seen
      → Stays (after_calls config calls seen)
  unfolding after_calls
  after_calls-Kept [] seen early k = k
  after_calls-Kept ((now, r) ∷ rest) seen (h, early) k =
      after_calls-Kept rest (verify_iac_signature config now r seen).1 early
        (verify-Kept now r seen h k)

  -- A request that is accepted leaves its nonce, and one with a nonce that stays is refused.
  accepted-Kept :
      (now : ℕ) (r : Signed) (seen : Dict ℕ)
      → nonce_key r ≡ key
      → ltb config.signature_ttl (bound - now) ≡ false
      → (verify_iac_signature config now r seen).0 ≡ true
      → Stays (verify_iac_signature config now r seen).1
  unfolding verify_iac_signature
  accepted-Kept now r seen is near e =
      let left = unexpired config.signature_ttl now seen in
      elim (Bool-cases (is_signed config now r)) [
        | inr refused ↦
            let no : (verify_iac_signature config now r seen).0 ≡ false = rw refused refl in
            ground (arith, no, e)
        | inl signed ↦ elim (Bool-cases (contains (nonce_key r) (keys left))) [
          | inl there ↦
              let no : (verify_iac_signature config now r seen).0 ≡ false =
                rw (signed, there) refl in
              ground (arith, no, e)
          | inr fresh ↦
              let same : verify_iac_signature config now r seen
                  ≡ (true, insert (nonce_key r) now left) =
                rw (signed, fresh) refl in
              subst (λ (p : Bool × Dict ℕ). Stays p.1) (sym same)
                (subst (λ k. Stays (insert k now left)) (sym is)
                  (Kept-insert config.signature_ttl key bound now left near))
        ]
      ]

  known-refused :
      (r : Signed) (seen : Dict ℕ)
      → nonce_key r ≡ key
      → Stays seen
      → (verify_iac_signature config bound r seen).0 ≡ false
  unfolding verify_iac_signature Kept
  known-refused r seen is k = elim (Bool-cases (is_signed config bound r)) [
    | inl signed ↦
        let there : contains (nonce_key r) (keys (unexpired config.signature_ttl bound seen))
            ≡ true =
          ap (λ x. contains x (keys (unexpired config.signature_ttl bound seen))) is ∙ k in
        rw (signed, there) refl
    | inr refused ↦ rw refused refl
  ]

-- What a signed request says of its own time.
is_signed-near :
    (config : Config) (now timestamp : ℕ) (r : Signed)
    → int_of r.timestamp ≡ some timestamp
    → is_signed config now r ≡ true
    → is_stale config.signature_ttl now timestamp ≡ false
unfolding is_signed
is_signed-near config now timestamp r is e =
    ground (arith, e, ap (λ o. is_stale_text config.signature_ttl now o) is)

unsigned-refused :
    (config : Config) (now : ℕ) (r : Signed) (seen : Dict ℕ)
    → is_signed config now r ≡ false
    → (verify_iac_signature config now r seen).0 ≡ false
unfolding verify_iac_signature
unsigned-refused config now r seen refused = rw refused refl

-- After a request that is not dated in the future was accepted, no request with its timestamp and its
-- nonce is accepted, whatever requests come in between, as long as the clock does not go back.
pub verify_iac_signature-once :
    (config : Config) (first again : Signed) (now₁ now₂ timestamp : ℕ) (seen : Dict ℕ)
    (calls : List Call)
    → again.timestamp ≡ first.timestamp
    → again.nonce ≡ first.nonce
    → int_of first.timestamp ≡ some timestamp
    → timestamp ≤ now₁
    → now₁ ≤ now₂
    → All (λ (call : Call). call.0 ≤ now₂) calls
    → (verify_iac_signature config now₁ first seen).0 ≡ true
    → (verify_iac_signature config now₂ again
        (after_calls config calls (verify_iac_signature config now₁ first seen).1)).0
      ≡ false
verify_iac_signature-once config first again now₁ now₂ timestamp seen calls same_time same_nonce is
      past order early accepted =
    let between = after_calls config calls (verify_iac_signature config now₁ first seen).1 in
    elim (Bool-cases (is_signed config now₂ again)) [
      | inr refused ↦ unsigned-refused config now₂ again between refused
      | inl signed ↦
          let fresh : is_stale config.signature_ttl now₂ timestamp ≡ false =
            is_signed-near config now₂ timestamp again (ap int_of same_time ∙ is) signed in
          let near : ltb config.signature_ttl (now₂ - now₁) ≡ false =
            ground (arith, fresh, past, order) in
          let same_key : nonce_key again ≡ nonce_key first =
            ap (λ t. t <> ":" <> again.nonce) same_time
            ∙ ap (λ n. first.timestamp <> ":" <> n) same_nonce in
          known-refused config (nonce_key first) now₂ again between same_key (
            after_calls-Kept config (nonce_key first) now₂ calls
              (verify_iac_signature config now₁ first seen).1 early
              (accepted-Kept config (nonce_key first) now₂ now₁ first seen refl near accepted))
    ]
