-- ===== src/DeployFront/Apps.antt =====
-- tools/deploy_v2.py: what holds of an app service when one of its backends is called.
use infra.Prelude.{String, true, false, Option, some, ◌≡◌}
use infra.Prelude.Dict.{keys, contains}
use infra.Prelude.Effects.{
  ok, Every, Every-bind, Every-value, Every-check, Every-if, Every-pure, Every-cause, Every-passed,
  Every-returned,
}
use infra.Prelude.Effects.Returns.{
  Returns, Returns-value, Returns-check, Returns-passed, Returns-pure, Returns-ok,
}
use infra.DeployEnv.{EnvConfig, env_config}
use infra.DeployContract.{ServiceSpec, services, service_spec, validate_deploy_target}
use infra.DeployContract.DeployTypes.{deploy_type_spec, make_target}
use infra.RefResolver.{classify_ref, resolve_to_sha}
use infra.DeployFront.{infra2_repo}
use infra.DeployFront.Refs.{resolve_for_type}
use infra.DeployFront.Calls.{
  World, Coordinate, Event, previewed, deployed, enforce_data_lane_red_lines,
}
use infra.DeployFront.AppTarget.{AppTarget, app_target, is_expected, is_staged, repo_of}
use infra.DeployFront.Dispatch.{deploy_app, images_ready, preview_request, fixed_request}

module _ (w : World) (c : Coordinate) (expected : Option String) where
  -- What is settled of an app service before the wait for its images.
  pub record Settled (a : AppTarget) : Type 0 where
    pub known : deploy_type_spec c.deploy_type ≡ some a.spec
    pub resolves :
        resolve_for_type w.ls_remote a.spec c.version_ref (repo_of c)
        ≡ some (a.resolved, a.alias_value)
    pub as_expected : is_expected expected a.resolved ≡ true
    pub form : classify_ref c.iac_ref ≡ some a.iac_form
    pub iac_sha : String
    pub iac_commit : resolve_to_sha w.ls_remote infra2_repo c.iac_ref ≡ some iac_sha
    pub made :
        make_target w.attrs c.deploy_type c.service a.resolved.sha iac_sha a.alias_value
        ≡ some a.target
    pub svc : ServiceSpec
    pub registered : service_spec w.attrs c.service ≡ some svc
    pub valid : validate_deploy_target a.target svc ≡ some tt
    pub lane : enforce_data_lane_red_lines a.target c.code_reviewed ≡ some a.data_lane
    pub cfg : EnvConfig
    pub env : env_config a.spec.env ≡ some cfg
    pub staged : is_staged c cfg ≡ true
    pub app_backed : contains c.service (keys services) ≡ true

  app_target-Returns : Returns Settled (app_target w c expected)
  unfolding app_target
  app_target-Returns = Returns-value Settled _ _ (λ spec known.
      Returns-value Settled _ _ (λ (resolved, alias_value) resolves.
        Returns-check Settled _ _ _ (λ as_expected. Returns-value Settled _ _ (λ iac_form form.
          Returns-value Settled _ _ (λ iac_sha iac_commit. Returns-value Settled _ _ (λ target made.
            Returns-value Settled _ _ (λ svc registered. Returns-passed Settled _ _ (λ valid.
              Returns-value Settled _ _ (λ data_lane lane. Returns-value Settled _ _ (λ cfg env.
                Returns-check Settled _ _ _ (λ staged. Returns-check Settled _ _ _ (λ app_backed.
                  Returns-pure Event Settled _ (record {
                    known = known;
                    resolves = resolves;
                    as_expected = as_expected;
                    form = form;
                    iac_sha = iac_sha;
                    iac_commit = iac_commit;
                    made = made;
                    svc = svc;
                    registered = registered;
                    valid = valid;
                    lane = lane;
                    cfg = cfg;
                    env = env;
                    staged = staged;
                    app_backed = app_backed;
                  })))))))))))))

  module _ (P : Event → Type 0) where
    app_target-Every : Every P (app_target w c expected)
    unfolding app_target
    app_target-Every = Every-value P _ _ (λ _ _. Every-value P _ _ (λ _ _. Every-check P _ _ _ (λ _.
        Every-value P _ _ (λ _ _. Every-value P _ _ (λ _ _. Every-value P _ _ (λ _ _.
          Every-value P _ _ (λ _ _. Every-passed P _ _ (λ _. Every-value P _ _ (λ _ _.
            Every-value P _ _
              (λ _ _. Every-check P _ _ _ (λ _. Every-check P _ _ _ (λ _. Every-pure P _))))))))))))

    -- What a call of an app's backend comes after.
    pub deploy_app-Every :
        (svc : ServiceSpec) (domain : String)
        → ((a : AppTarget) (cfg : EnvConfig)
            → Settled a
            → images_ready w c svc a.resolved.image_ref ≡ ok tt
            → env_config a.target.env ≡ some cfg
            → (cfg.dynamic ≡ true
                → svc.supports_preview ≡ true
                → P (previewed (preview_request c a domain)))
              × (cfg.dynamic ≡ false → P (deployed (fixed_request c a domain))))
        → Every P (deploy_app w c svc expected domain)
    unfolding deploy_app
    deploy_app-Every svc domain p = Every-bind P _ _ app_target-Every (λ a returned.
        let settled = Returns-ok Settled _ a app_target-Returns returned in
        Every-returned P _ _ (λ ready. Every-value P _ _ (λ cfg env.
          let (preview, fixed) = p a cfg settled ready env in
          Every-if P _ _ _
            (λ dynamic. Every-check P _ _ _ (λ supported.
              Every-cause P _ _ _ (preview dynamic supported) (λ _ _. Every-pure P _)))
            (λ pinned. Every-cause P _ _ _ (fixed pinned) (λ _ _. Every-pure P _)))))
