-- ===== src/DeployFront/Batch.antt =====
-- tools/deploy_v2.py, `_deploy_platform_batch`: several platform services in one call of the runner.
use infra.Prelude.{
  String, Bool, true, false, none, some, List, [], ◌∷◌, ◌≡◌, refl, sym, ap, ◌∙◌, ◌⊎◌, inl, inr,
  arith, All, subst, if◌then◌else◌,
}
use infra.Prelude.Dict.{Dict, insert, contains}
use infra.Prelude.Text.Order.{sorted}
use infra.Prelude.Effects.{
  Run, value_error, value, check, pure, ◌>>=◌, ◌>>◌, Caused, Every, Every-bind, Every-value,
  Every-check, Every-passed, Every-pure, Every-Caused,
}
use infra.Prelude.Effects.Returns.{
  Returns, Returns-bind, Returns-value, Returns-check, Returns-passed, Returns-pure, Returns-ok,
}
use infra.DeployEnv.{absent}
use infra.DeployContract.{
  ServiceSpec, DeployTarget, service_spec, make_deploy_target, validate_deploy_target,
}
use infra.DeployContract.DeployTypes.{DeployTypeSpec, deploy_type_spec}
use infra.RefResolver.{resolve_to_sha}
use infra.IacRunnerClient.{Trigger, normalized}
use infra.DeployFront.{infra2_repo}
use infra.DeployFront.Calls.{
  World, Coordinate, Event, triggered, Detail, runner_detail, enforce_data_lane_red_lines,
}
use infra.DeployFront.Dispatch.{fire, is_fixed, runner_env}
use infra.DeployFront.Production.{fixed-cases}
use infra.DeployFront.Platform.{
  fire-Every, make_deploy_target-env, enforce_data_lane_red_lines-reviewed,
}

-- One target of the batch, with its data lane.
abbrev pub batch_target :
    World → Coordinate → (env iac_sha service : String) → Run Event (DeployTarget × String)
batch_target w c env iac_sha service = value (service_spec w.attrs service) >>= λ spec.
    check spec.iac_pinned value_error
    >> value (make_deploy_target w.attrs service env iac_sha iac_sha none absent)
    >>= λ target.
        value (validate_deploy_target target spec)
        >> value (enforce_data_lane_red_lines target c.code_reviewed)
        >>= λ data_lane. pure (target, data_lane)

-- The loop over the services.
unfoldable pub batch_targets :
    World
    → Coordinate
    → (env iac_sha : String) → List String
    → Run Event (List (DeployTarget × String))
unfolding service_spec make_deploy_target validate_deploy_target enforce_data_lane_red_lines
batch_targets w c env iac_sha [] = pure []
batch_targets w c env iac_sha (service ∷ rest) =
    let others = batch_targets w c env iac_sha rest in
    batch_target w c env iac_sha service >>= λ target. others >>= λ targets. pure (target ∷ targets)

-- `{target.service: target.sub_domain for target in targets}`
unfoldable pub sub_domains : List (DeployTarget × String) → Dict String → Dict String
unfolding insert
sub_domains [] d = d
sub_domains ((target, _) ∷ rest) d = sub_domains rest (insert target.service target.sub_domain d)

-- The set of data lanes.
unfoldable pub lanes : List (DeployTarget × String) → List String
lanes [] = []
lanes ((_, lane) ∷ rest) =
    let others = lanes rest in if contains lane others then others else lane ∷ others

pub record BatchResult : Type 0 where
  pub services : List String
  pub env : String
  pub sub_domain : Dict String
  pub data_lane : List String
  pub detail : Detail

abbrev some_service : List String → Bool
some_service [] = false
some_service _ = true

-- `_deploy_platform_batch`; of the coordinate it has the type, the IaC ref and the options.
unfoldable pub deploy_platform_batch : World → Coordinate → List String → Run Event BatchResult
unfolding deploy_type_spec resolve_to_sha batch_targets sub_domains lanes sorted
deploy_platform_batch w c names =
    check (some_service names) value_error
    >> value (deploy_type_spec c.deploy_type)
    >>= λ type_spec.
        check (is_fixed type_spec.env) value_error
        >> value (resolve_to_sha w.ls_remote infra2_repo c.iac_ref)
        >>= λ iac_sha. batch_targets w c type_spec.env iac_sha names >>= λ targets.
            let env = runner_env type_spec.env in
            fire w c env iac_sha names >>= λ (reply, final). pure (record {
              services = names;
              env = type_spec.env;
              sub_domain = sub_domains targets [];
              data_lane = sorted (lanes targets);
              detail = runner_detail env iac_sha names reply final;
            })

module _ (w : World) (c : Coordinate) where
  -- A platform service that may go to the environment, at the commit.
  pub record Deployable (env iac_sha service : String) : Type 0 where
    pub spec : ServiceSpec
    pub registered : service_spec w.attrs service ≡ some spec
    pub pinned : spec.iac_pinned ≡ true
    pub target : DeployTarget
    pub made : make_deploy_target w.attrs service env iac_sha iac_sha none absent ≡ some target
    pub valid : validate_deploy_target target spec ≡ some tt
    pub data_lane : String
    pub lane : enforce_data_lane_red_lines target c.code_reviewed ≡ some data_lane

  -- What the one request of a batch comes after.
  pub record Batched (names : List String) (t : Trigger) : Type 0 where
    pub spec : DeployTypeSpec
    pub known : deploy_type_spec c.deploy_type ≡ some spec
    pub env : t.env ≡ runner_env spec.env
    pub commit : resolve_to_sha w.ls_remote infra2_repo c.iac_ref ≡ some t.ref
    pub services : t.services ≡ normalized names
    pub each : All (Deployable spec.env t.ref) names
    pub reviewed : (t.env ≡ "staging") ⊎ (c.code_reviewed ≡ some true)

  Deploys : (env iac_sha : String) → List String → List (DeployTarget × String) → Type 0
  Deploys env iac_sha names _ = All (Deployable env iac_sha) names

  batch_target-Returns :
      (env iac_sha service : String)
      → Returns (λ _. Deployable env iac_sha service) (batch_target w c env iac_sha service)
  batch_target-Returns env iac_sha service = Returns-value _ _ _ (λ spec registered.
      Returns-check _ _ _ _ (λ pinned. Returns-value _ _ _ (λ target made.
        Returns-passed _ _ _ (λ valid. Returns-value _ _ _ (λ data_lane lane.
          Returns-pure Event _ _ (record {
            spec = spec;
            registered = registered;
            pinned = pinned;
            target = target;
            made = made;
            valid = valid;
            data_lane = data_lane;
            lane = lane;
          }))))))

  batch_targets-Returns :
      (env iac_sha : String) (names : List String)
      → Returns (Deploys env iac_sha names) (batch_targets w c env iac_sha names)
  unfolding batch_targets Deploys
  batch_targets-Returns env iac_sha [] = Returns-pure Event _ _ tt
  batch_targets-Returns env iac_sha (service ∷ rest) =
      Returns-bind (λ _. Deployable env iac_sha service) _ _ _
        (batch_target-Returns env iac_sha service)
        (λ target first.
          Returns-bind (Deploys env iac_sha rest) _ _ _ (batch_targets-Returns env iac_sha rest)
            (λ targets others. Returns-pure Event _ _ (first, others)))

  batch_targets-Every :
      (P : Event → Type 0) (env iac_sha : String) (names : List String)
      → Every P (batch_targets w c env iac_sha names)
  unfolding batch_targets
  batch_targets-Every P env iac_sha [] = Every-pure P _
  batch_targets-Every P env iac_sha (service ∷ rest) =
      Every-bind P _ _
        (Every-value P _ _ (λ _ _. Every-check P _ _ _ (λ _.
          Every-value P _ _
            (λ _ _. Every-passed P _ _ (λ _. Every-value P _ _ (λ _ _. Every-pure P _))))))
        (λ _ _. Every-bind P _ _ (batch_targets-Every P env iac_sha rest) (λ _ _. Every-pure P _))

  each-reviewed :
      (spec : DeployTypeSpec) (iac_sha : String) (names : List String)
      → some_service names ≡ true
      → is_fixed spec.env ≡ true
      → All (Deployable spec.env iac_sha) names
      → (runner_env spec.env ≡ "staging") ⊎ (c.code_reviewed ≡ some true)
  each-reviewed spec iac_sha [] no_name fixed each = ground arith
  each-reviewed spec iac_sha (service ∷ rest) some_name fixed (d, each) =
      elim (fixed-cases spec.env fixed) [
        | inl staging ↦ inl (ap runner_env staging)
        | inr prod ↦ inr (
            enforce_data_lane_red_lines-reviewed d.target c.code_reviewed d.data_lane d.lane (
              make_deploy_target-env w.attrs service spec.env iac_sha iac_sha none absent d.target
                d.made
              ∙ prod))
      ]

  -- A batch causes nothing but a request for all its services, at the commit of the IaC ref, after
  -- each of them was found to be a platform service that may go to the environment; and to
  -- production only with the review signal.
  pub deploy_platform_batch-Batched :
      (names : List String) (e : Event)
      → Caused e (deploy_platform_batch w c names)
      → (t : Trigger) × ((e ≡ triggered t) × Batched names t)
  unfolding deploy_platform_batch Deploys
  deploy_platform_batch-Batched names e caused =
      Every-Caused (λ e. (t : Trigger) × ((e ≡ triggered t) × Batched names t)) e
        (deploy_platform_batch w c names)
        (Every-check _ _ _ _ (λ some_name. Every-value _ _ _ (λ spec known.
          Every-check _ _ _ _ (λ fixed. Every-value _ _ _ (λ sha commit.
            Every-bind _ _ _ (batch_targets-Every _ spec.env sha names) (λ targets returned.
              let each =
                Returns-ok (Deploys spec.env sha names) _ targets
                  (batch_targets-Returns spec.env sha names) returned in
              Every-bind _ _ _
                (fire-Every _ w c (runner_env spec.env) sha names (λ t env ref services. (
                  t,
                  (
                    refl,
                    record {
                      spec = spec;
                      known = known;
                      env = env;
                      commit = commit ∙ ap some (sym ref);
                      services = services;
                      each = subst (λ sha. All (Deployable spec.env sha) names) (sym ref) each;
                      reviewed = elim (each-reviewed spec sha names some_name fixed each) [
                        | inl staging ↦ inl (env ∙ staging)
                        | inr signal ↦ inr signal
                      ];
                    },
                  ),
                )))
                (λ _ _. Every-pure _ _)))))))
        caused
