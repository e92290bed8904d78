-- ===== src/DeployFront/Chain.antt =====
-- tools/deploy_v2.py: what holds when `deploy_v2` calls a backend, whichever it is.
use infra.Prelude.{String, true, false, Option, some, ◌≡◌}
use infra.Prelude.Effects.{
  value_error, ok, check, Every, Every-value, Every-check, Every-if, Every-passed, Every-returned,
  ◌>>◌,
}
use infra.DeployEnv.{EnvConfig, env_config}
use infra.DeployContract.{ServiceSpec, service_spec}
use infra.DeployContract.DeployTypes.{validate_iac_ref_form}
use infra.IacRunnerClient.{Trigger}
use infra.RefResolver.{classify_ref}
use infra.DeployFront.{assert_iac_ref_on_main, normalize_expected_sha}
use infra.DeployFront.Calls.{World, Coordinate, Event, triggered, previewed, deployed}
use infra.DeployFront.AppTarget.{AppTarget}
use infra.DeployFront.Dispatch.{
  deploy_v2, deploy_platform, deploy_app, is_absent, effective_domain, images_ready,
  preview_request, fixed_request,
}
use infra.DeployFront.Platform.{Fired, deploy_platform-Every}
use infra.DeployFront.Apps.{Settled, deploy_app-Every}

-- The gates of `deploy_v2` itself.
pub record Passed (w : World) (c : Coordinate) : Type 0 where
  pub form : String
  pub is : classify_ref c.iac_ref ≡ some form
  pub valid : validate_iac_ref_form c.deploy_type form ≡ some tt
  pub on_main : assert_iac_ref_on_main w.compare c.iac_ref c.deploy_type ≡ ok tt

module _ (w : World) (c : Coordinate) (P : Event → Type 0) where
  pub deploy_v2-Every :
      (platform : Passed w c
        → (svc : ServiceSpec) (t : Trigger) → Fired w c svc t
        → P (triggered t))
      (app : Passed w c
        → (svc : ServiceSpec) (expected : Option String)
        → normalize_expected_sha c.expected_sha ≡ some expected
        → service_spec w.attrs c.service ≡ some svc
        → (a : AppTarget) (cfg : EnvConfig) → Settled w c expected a
        → images_ready w c svc a.resolved.image_ref ≡ ok tt
        → env_config a.target.env ≡ some cfg
        → (cfg.dynamic ≡ true
            → svc.supports_preview ≡ true
            → P (previewed (preview_request c a (effective_domain w c))))
          × (cfg.dynamic ≡ false → P (deployed (fixed_request c a (effective_domain w c)))))
      → Every P (deploy_v2 w c)
  unfolding deploy_v2
  deploy_v2-Every platform app = Every-value P _ _ (λ svc registered.
      Every-value P _ _ (λ expected normal. Every-value P _ _ (λ form is.
        Every-passed P _ _ (λ valid. Every-returned P _ _ (λ on_main.
          let g : Passed w c = record { form = form; is = is; valid = valid; on_main = on_main } in
          Every-if P svc.iac_pinned
            (check (is_absent expected) value_error >> deploy_platform w c svc)
            (deploy_app w c svc expected (effective_domain w c))
            (λ pinned.
              Every-check P _ _ _ (λ no_sha. deploy_platform-Every P w c svc (platform g svc)))
            (λ app_backed.
              deploy_app-Every w c expected P svc _ (app g svc expected normal registered)))))))
