-- ===== src/Webhook/InFlight.antt =====
-- bootstrap/06.iac_runner/webhook_server.py: what requests and queries do to the deployments in flight.
use infra.Prelude.{
  ℕ, String, Bool, true, false, Option, none, some, List, ◌∷◌, ◌≡◌, refl, inl, inr, if◌then◌else◌,
  Bool-cases,
}
use infra.Webhook.{Signed, verify_iac_signature}
use infra.Webhook.Deploys.{Key, Response, Server, Recent, recent_result, is_in, admit, admitted}
use infra.Webhook.Handlers.{
  started_key, validate_deploy_ref, or_tag, services_of, Settings, Payload, Reply, Wanted,
  wanted_of, serve, version_deploy,
}
use infra.Webhook.Status.{answer_meant, query, deployment_status}

-- What a request may do to the deployments in flight.
unfoldable pub Fits : List Key → Server × Option Key → Type 0
Fits before (server, none) = server.in_flight ≡ before
Fits before (server, some key) = (is_in key before ≡ false) × (server.in_flight ≡ key ∷ before)

module _ (s : Settings) where
  admitted-Fits :
      (want : Wanted) (server : Server) (found : Option Response × Recent)
      → Fits server.in_flight (
          let (admission, after) = admitted want.key server found in
          (after, started_key want admission))
  unfolding Fits
  admitted-Fits want server (some response, recent) = refl
  admitted-Fits want server (none, recent) = elim (Bool-cases (is_in want.key server.in_flight)) [
    | inl there ↦ rw there refl
    | inr free ↦ rw free (free, refl)
  ]

  serve-Fits :
      (mono : ℕ) (want : Option Wanted) (server : Server)
      → Fits server.in_flight (serve s mono want server).1
  unfolding Fits admit
  serve-Fits mono none server = refl
  serve-Fits mono (some want) server =
      admitted-Fits want server (recent_result s.recent_ttl mono want.key server.recent)

  pub version_deploy-Fits :
      (now mono : ℕ) (signed : Signed) (payload : Payload) (server : Server)
      → Fits server.in_flight (version_deploy s now mono signed payload server).1
  unfolding Fits version_deploy
  version_deploy-Fits now mono signed payload server =
      elim (Bool-cases (verify_iac_signature s.config now signed server.nonces).0) [
        | inl valid ↦ rw valid (serve-Fits mono (wanted_of payload) _)
        | inr refused ↦ rw refused refl
      ]

  if-in_flight :
      (before : List Key) (test : Bool) (x y : Reply × Server)
      → x.1.in_flight ≡ before
      → y.1.in_flight ≡ before
      → (if test then x else y).1.in_flight ≡ before
  if-in_flight before true x y h k = h
  if-in_flight before false x y h k = k

  answer_meant-in_flight :
      (mono : ℕ) (p : Payload) (candidates : List Key) (server : Server) (meant : Option Key)
      → (answer_meant s mono p candidates server meant).1.in_flight ≡ server.in_flight
  answer_meant-in_flight mono p candidates server none = refl
  answer_meant-in_flight mono p candidates server (some key) =
      if-in_flight server.in_flight _ _ _ refl refl

  query-in_flight :
      (mono : ℕ) (p : Payload) (ref : Option String) (services : Option (Option (List String)))
      (server : Server)
      → (query s mono p ref services server).1.in_flight ≡ server.in_flight
  query-in_flight mono p none services server = refl
  query-in_flight mono p (some ref) none server = refl
  query-in_flight mono p (some ref) (some services) server =
      if-in_flight server.in_flight _ _ _ (answer_meant-in_flight mono p _ _ _) refl

  pub deployment_status-in_flight :
      (now mono : ℕ) (signed : Signed) (p : Payload) (server : Server)
      → (deployment_status s now mono signed p server).1.in_flight ≡ server.in_flight
  unfolding deployment_status
  deployment_status-in_flight now mono signed p server =
      if-in_flight server.in_flight _ _ _
        (query-in_flight mono p (validate_deploy_ref (or_tag p.ref p.tag)) (services_of p.services)
          _)
        refl
