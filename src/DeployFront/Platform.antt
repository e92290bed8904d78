-- ===== src/DeployFront/Platform.antt =====
-- tools/deploy_v2.py, `_deploy_platform`: what its trigger says, and what holds by then.
use mathlib.Core.Option.{some-injective}
use infra.Prelude.{
  String, Bool, true, Option, none, some, List, [], ◌∷◌, ◌≡◌, refl, sym, ap, ◌∙◌, arith,
}
use infra.Prelude.Dict.{Dict, lookup}
use infra.Prelude.Text.{lower, strip}
use infra.Prelude.Errors.{◌>>=◌, ◌>>◌, bind-some, seq-some}
use infra.Prelude.Effects.{
  Every, Every-bind, Every-value, Every-call, Every-check, Every-if, Every-pure, Every-end,
  Every-passed,
}
use infra.DeployEnv.{absent, env_config, AliasValue}
use infra.DeployContract.{
  ServiceMeta, ServiceSpec, DeployTarget, service_spec, sub_domain_for, make_deploy_target,
  validate_deploy_target,
}
use infra.DeployContract.DeployTypes.{DeployTypeSpec, deploy_type_spec}
use infra.RefResolver.{resolve_to_sha}
use infra.IacRunnerClient.{Trigger, Reply, normalized, trigger_platform_deploy}
use infra.DeployFront.{infra2_repo}
use infra.DeployFront.Calls.{World, Coordinate, Event, triggered, enforce_data_lane_red_lines}
use infra.DeployFront.Dispatch.{deploy_platform, fire, settled, is_fixed, runner_env}

module _ (attrs : Dict ServiceMeta) (service env code iac : String) (kind : Option String)
    (alias_value : AliasValue) where
  made_at : String → DeployTarget
  made_at d = record {
    service = service;
    env = env;
    sub_domain = d;
    code_version = lower (strip code);
    iac_ref = lower (strip iac);
  }

  made_in : ServiceSpec → String → Option DeployTarget
  made_in spec d = validate_deploy_target (made_at d) spec >> some (made_at d)

  -- The environment of a target is the one that it was made for.
  pub make_deploy_target-env :
      (target : DeployTarget)
      → make_deploy_target attrs service env code iac kind alias_value ≡ some target
      → target.env ≡ env
  unfolding make_deploy_target made_in made_at
  make_deploy_target-env target e =
      let (spec, (_, e₁)) =
        bind-some (service_spec attrs service)
          (λ spec. sub_domain_for spec env kind alias_value >>= made_in spec) target e in
      let (d, (_, e₂)) =
        bind-some (sub_domain_for spec env kind alias_value) (made_in spec) target e₁ in
      let (_, same) =
        seq-some (validate_deploy_target (made_at d) spec) (some (made_at d)) target e₂ in
      sym (ap (λ (t : DeployTarget). t.env) (some-injective (made_at d) target same))

-- A target in prod has passed the red lines only with the signal.
pub enforce_data_lane_red_lines-reviewed :
    (target : DeployTarget) (code_reviewed : Option Bool) (data_lane : String)
    → enforce_data_lane_red_lines target code_reviewed ≡ some data_lane
    → target.env ≡ "prod"
    → code_reviewed ≡ some true
unfolding enforce_data_lane_red_lines env_config lookup
enforce_data_lane_red_lines-reviewed target code_reviewed data_lane e here =
    ground (arith, e, ap (λ env. env_config env) here)

module _ (w : World) (c : Coordinate) where
  -- What `_deploy_platform` has settled when it fires.
  pub record Fired (svc : ServiceSpec) (t : Trigger) : Type 0 where
    pub spec : DeployTypeSpec
    pub known : deploy_type_spec c.deploy_type ≡ some spec
    pub fixed : is_fixed spec.env ≡ true
    pub env : t.env ≡ runner_env spec.env
    pub commit : resolve_to_sha w.ls_remote infra2_repo c.iac_ref ≡ some t.ref
    pub names : t.services ≡ normalized (c.service ∷ [])
    pub target : DeployTarget
    pub at_env : target.env ≡ spec.env
    pub valid : validate_deploy_target target svc ≡ some tt
    pub data_lane : String
    pub lane : enforce_data_lane_red_lines target c.code_reviewed ≡ some data_lane

module _ (P : Event → Type 0) (w : World) (c : Coordinate) where
  settled-Every :
      (env ref : String) (names : List String) (reply : Reply)
      → Every P (settled w c env ref names reply)
  settled-Every env ref names reply =
      Every-if P c.wait _ _
        (λ _. Every-call P _ _ (λ final _. Every-check P _ _ _ (λ _. Every-pure P _)))
        (λ _. Every-pure P none)

  pub fire-Every :
      (env ref : String) (names : List String)
      → ((t : Trigger)
          → t.env ≡ env
          → t.ref ≡ ref
          → t.services ≡ normalized names
          → P (triggered t))
      → Every P (fire w c env ref names)
  unfolding trigger_platform_deploy
  fire-Every env ref names p =
      Every-bind P _ _
        (Every-check P _ _ _ (λ _. Every-check P _ _ _ (λ _. Every-end P _ _ (p _ refl refl refl))))
        (λ reply _.
          Every-bind P _ _ (settled-Every env ref names reply) (λ final _. Every-pure P _))

  pub deploy_platform-Every :
      (svc : ServiceSpec)
      → ((t : Trigger) → Fired w c svc t → P (triggered t))
      → Every P (deploy_platform w c svc)
  unfolding deploy_platform
  deploy_platform-Every svc p = Every-value P _ _ (λ spec known. Every-check P _ _ _ (λ fixed.
      Every-value P _ _ (λ sha commit. Every-value P _ _ (λ target made.
        Every-passed P _ _ (λ valid. Every-value P _ _ (λ data_lane lane.
          Every-bind P _ _
            (fire-Every (runner_env spec.env) sha (c.service ∷ []) (λ t env ref names. p t (record {
              spec = spec;
              known = known;
              fixed = fixed;
              env = env;
              commit = commit ∙ ap some (sym ref);
              names = names;
              target = target;
              at_env =
                  make_deploy_target-env w.attrs c.service spec.env sha sha none absent target made;
              valid = valid;
              data_lane = data_lane;
              lane = lane;
            })))
            (λ _ _. Every-pure P _)))))))
