-- ===== src/Webhook/Exclusive.antt =====
-- bootstrap/06.iac_runner/webhook_server.py: the server and the deployments that run, as requests, queries
-- and ends of deployments come in.
use infra.Prelude.{
  ℕ, String, not, ◌&&◌, ◌||◌, Option, none, some, List, [], ◌∷◌, ◌≡◌, refl, sym, ap, ◌∙◌, inl, inr,
  if◌then◌else◌, Bool-cases, subst,
}
use infra.Webhook.{Signed}
use infra.Webhook.Deploys.{
  Key, same_key, Response, Server, is_in, Ending, ended_response, finish_deployment,
}
use infra.Webhook.Handlers.{Settings, Payload, version_deploy}
use infra.Webhook.Status.{deployment_status}
use infra.Webhook.Keys.{land, Once, is_in-land, is_in-discard, land-Once}
use infra.Webhook.InFlight.{Fits, version_deploy-Fits, deployment_status-in_flight}

-- The server, and the deployments that run: threads, and requests that wait.
pub record World : Type 0 where
  pub server : Server
  pub running : List Key

-- What happens next: a request, a query, or a deployment that is over.
pub data Move : Type 0 where
  asked : (now mono : ℕ) → Signed → Payload → Move
  queried : (now mono : ℕ) → Signed → Payload → Move
  ended : (mono : ℕ) → Key → (triggered_by : String) → Ending → Move

abbrev launch : Option Key → List Key → List Key
launch none running = running
launch (some key) running = key ∷ running

module _ (s : Settings) where
  unfoldable pub move : Move → World → World
  unfolding land
  move (asked now mono signed payload) w =
      let (_, (server, start)) = version_deploy s now mono signed payload w.server in
      record { server = server; running = launch start w.running }
  move (queried now mono signed payload) w = record w {
    server = (deployment_status s now mono signed payload w.server).1;
  }
  move (ended mono key triggered_by ending) w =
      if is_in key w.running
      then record {
        server =
            finish_deployment mono key (ended_response s.hash key triggered_by ending) w.server;
        running = land key w.running;
      }
      else w

  unfoldable pub moves : List Move → World → World
  unfolding move
  moves [] w = w
  moves (m ∷ rest) w = moves rest (move m w)

-- The deployments that run are those in flight, each of them once.
pub record Exclusive (w : World) : Type 0 where
  pub once : Once w.running
  pub in_flight : (key : Key) → is_in key w.running ≡ is_in key w.server.in_flight

module _ (s : Settings) where
  launched :
      (before : List Key) (running : List Key) (result : Server × Option Key)
      → Fits before result
      → Once running
      → ((key : Key) → is_in key running ≡ is_in key before)
      → Exclusive (record { server = result.0; running = launch result.1 running })
  unfolding Fits Once
  launched before running (server, none) fits once same = record {
    once = once;
    in_flight = λ key. same key ∙ ap (is_in key) (sym fits);
  }
  launched before running (server, some key) (free, fits) once same = record {
    once = (same key ∙ free, once);
    in_flight = λ j. ap (λ b. same_key key j || b) (same j) ∙ ap (is_in j) (sym fits);
  }

  ended-Exclusive :
      (w : World) (mono : ℕ) (key : Key) (response : Response)
      → Exclusive w
      → Exclusive (record {
        server = finish_deployment mono key response w.server;
        running = land key w.running;
      })
  unfolding finish_deployment
  ended-Exclusive w mono key response e = record {
    once = land-Once key w.running e.once;
    in_flight = λ j.
        is_in-land key j w.running e.once
        ∙ ap (λ b. b && not (same_key key j)) (e.in_flight j)
        ∙ sym (is_in-discard key j w.server.in_flight);
  }

  move-Exclusive : (m : Move) (w : World) → Exclusive w → Exclusive (move s m w)
  unfolding move
  move-Exclusive (asked now mono signed payload) w e =
      launched w.server.in_flight w.running (version_deploy s now mono signed payload w.server).1
        (version_deploy-Fits s now mono signed payload w.server) e.once e.in_flight
  move-Exclusive (queried now mono signed payload) w e = record {
    once = e.once;
    in_flight = λ key.
        e.in_flight key
        ∙ ap (is_in key) (sym (deployment_status-in_flight s now mono signed payload w.server));
  }
  move-Exclusive (ended mono key triggered_by ending) w e =
      elim (Bool-cases (is_in key w.running)) [
        | inl runs ↦
            subst Exclusive (sym (rw runs refl))
              (ended-Exclusive w mono key (ended_response s.hash key triggered_by ending) e)
        | inr idle ↦ subst Exclusive (sym (rw idle refl)) e
      ]

  -- Whatever requests, queries and ends of deployments come, in whatever order, the deployments that
  -- run are those in flight, and none of them runs twice at the same time.
  pub moves-Exclusive : (ms : List Move) (w : World) → Exclusive w → Exclusive (moves s ms w)
  unfolding moves
  moves-Exclusive [] w e = e
  moves-Exclusive (m ∷ rest) w e = moves-Exclusive rest (move s m w) (move-Exclusive m w e)
