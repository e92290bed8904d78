-- ===== src/DeployFront/Production.antt =====
-- tools/deploy_v2.py: what has to hold before a call reaches a fixed environment.
use infra.Prelude.{
  String, true, false, not, ◌&&◌, ◌||◌, Option, some, ◌≡◌, refl, sym, ap, ◌∙◌, ◌⊎◌, inl, inr, arith,
  str_eq, eq_iff,
}
use infra.Prelude.Dict.{lookup}
use infra.Prelude.Text.{strip}
use infra.Prelude.Errors.{require, require-true}
use infra.Prelude.Effects.{Outcome, ok, raised, Caused, Every-Caused}
use infra.DeployContract.DeployTypes.{
  DeployTypeSpec, deploy_type_spec, validate_iac_ref_form, is_tag_only_iac_env, is_tag_only_env,
}
use infra.RefResolver.{classify_ref}
use infra.DeployFront.{is_on_main, assert_iac_ref_on_main, judge}
use infra.DeployFront.Calls.{
  PreviewRequest, FixedRequest, World, Coordinate, Event, triggered, previewed, deployed, removed,
}
use infra.DeployFront.Dispatch.{deploy_v2, is_fixed, runner_env}
use mathlib.Core.Option.{some-injective}
use infra.DeployEnv.{EnvConfig, env_config, prod_config}
use infra.IacRunnerClient.{Trigger}
use infra.DeployContract.{ServiceSpec}
use infra.DeployContract.Contract.{env_config-cases}
use infra.DeployContract.Types.{Made, make_target-Made}
use infra.DeployFront.AppTarget.{AppTarget, is_staged}
use infra.DeployFront.Platform.{Fired, enforce_data_lane_red_lines-reviewed}
use infra.DeployFront.Apps.{Settled}
use infra.DeployFront.Chain.{Passed, deploy_v2-Every}

pub fixed-cases : (env : String) → is_fixed env ≡ true → (env ≡ "staging") ⊎ (env ≡ "prod")
fixed-cases env h = ground (arith, eq_iff "staging" env, eq_iff "prod" env)

-- The IaC ref is a release tag that GitHub says is on main.
pub record Released (w : World) (c : Coordinate) : Type 0 where
  pub form : classify_ref c.iac_ref ≡ some "tag"
  pub status : Option String
  pub compared : w.compare (strip c.iac_ref) ≡ ok status
  pub on_main : is_on_main status ≡ true

module _ (w : World) (c : Coordinate) where
  judge-on_main :
      (o : Outcome (Option String))
      → judge o ≡ ok tt
      → (status : Option String) × ((o ≡ ok status) × (is_on_main status ≡ true))
  judge-on_main (raised failure) e = ground arith
  judge-on_main (ok status) e = (status, (refl, ground (arith, e)))

  pub gates-Released :
      (spec : DeployTypeSpec) (form : String)
      → deploy_type_spec c.deploy_type ≡ some spec
      → is_tag_only_env spec.env ≡ true
      → classify_ref c.iac_ref ≡ some form
      → validate_iac_ref_form c.deploy_type form ≡ some tt
      → assert_iac_ref_on_main w.compare c.iac_ref c.deploy_type ≡ ok tt
      → Released w c
  unfolding validate_iac_ref_form assert_iac_ref_on_main is_tag_only_iac_env
  gates-Released spec form known fixed is valid passed =
      let valid' : require (not (is_tag_only_env spec.env && not (str_eq form "tag"))) ≡ some tt =
        sym (rw known refl) ∙ valid in
      let passed' : judge (w.compare (strip c.iac_ref)) ≡ ok tt =
        sym (rw (known, fixed) refl) ∙ passed in
      let tag : str_eq form "tag" ≡ true = ground (arith, require-true _ valid', fixed) in
      let (status, (compared, on_main)) = judge-on_main (w.compare (strip c.iac_ref)) passed' in
      record {
        form = is ∙ ap some ((eq_iff form "tag").0 tag);
        status = status;
        compared = compared;
        on_main = on_main;
      }

  -- What has to hold before each call of a backend.
  pub Gated : Event → Type 0
  Gated (triggered t) = Released w c × ((t.env ≡ "staging") ⊎ (c.code_reviewed ≡ some true))
  Gated (deployed r) =
      Released w c
      × ((r.env ≡ "staging")
          ⊎ ((c.code_reviewed ≡ some true) × ((c.staging_validated || c.break_glass) ≡ true)))
  Gated (previewed r) =
      (spec : DeployTypeSpec) × ((deploy_type_spec c.deploy_type ≡ some spec)
        × (spec.env ≡ "preview"))
  Gated (removed _) = ⊥

  Passed-Released :
      (spec : DeployTypeSpec)
      → deploy_type_spec c.deploy_type ≡ some spec
      → is_tag_only_env spec.env ≡ true
      → Passed w c
      → Released w c
  Passed-Released spec known fixed g = gates-Released spec g.form known fixed g.is g.valid g.on_main

  Fired-Gated :
      (svc : ServiceSpec) (t : Trigger) → Passed w c → Fired w c svc t → Gated (triggered t)
  unfolding Gated
  Fired-Gated svc t g f = (
    Passed-Released f.spec f.known f.fixed g,
    elim (fixed-cases f.spec.env f.fixed) [
      | inl staging ↦ inl (f.env ∙ ap runner_env staging)
      | inr prod ↦ inr (
          enforce_data_lane_red_lines-reviewed f.target c.code_reviewed f.data_lane f.lane
            (f.at_env ∙ prod))
    ],
  )

  staged-prod :
      (cfg : EnvConfig)
      → env_config "prod" ≡ some cfg
      → is_staged c cfg ≡ true
      → (c.staging_validated || c.break_glass) ≡ true
  unfolding env_config lookup
  staged-prod cfg known h = ground (
    arith,
    h,
    ap (λ (c : EnvConfig). c.requires_staging_first) (some-injective prod_config cfg known),
  )

  module _ (expected : Option String) (a : AppTarget) (cfg : EnvConfig) (g : Passed w c)
      (s : Settled w c expected a) (known : env_config a.target.env ≡ some cfg) where
    made : Made w.attrs c.deploy_type c.service a.resolved.sha s.iac_sha a.alias_value a.target
    made =
        make_target-Made w.attrs c.deploy_type c.service a.resolved.sha s.iac_sha a.alias_value
          a.target s.made

    target-env : a.target.env ≡ a.spec.env
    target-env =
        made.env
        ∙ ap (λ (t : DeployTypeSpec). t.env)
            (some-injective made.type a.spec (sym made.known_type ∙ s.known))

    at_preview : cfg.dynamic ≡ true → a.target.env ≡ "preview"
    at_preview dynamic = elim (env_config-cases a.target s.svc cfg known) [
      | inl (_, is) ↦ ground (arith, ap (λ (c : EnvConfig). c.dynamic) is, dynamic)
      | inr (inl (_, is)) ↦ ground (arith, ap (λ (c : EnvConfig). c.dynamic) is, dynamic)
      | inr (inr (here, _)) ↦ here
    ]

    preview-Gated : (r : PreviewRequest) → cfg.dynamic ≡ true → Gated (previewed r)
    unfolding Gated
    preview-Gated r dynamic = (a.spec, (s.known, sym target-env ∙ at_preview dynamic))

    pub pinned-fixed : cfg.dynamic ≡ false → is_tag_only_env a.spec.env ≡ true
    pinned-fixed pinned = elim (env_config-cases a.target s.svc cfg known) [
      | inl (staging, _) ↦ ap is_tag_only_env (sym target-env ∙ staging)
      | inr (inl (prod, _)) ↦ ap is_tag_only_env (sym target-env ∙ prod)
      | inr (inr (_, is)) ↦ ground (arith, ap (λ (c : EnvConfig). c.dynamic) is, pinned)
    ]

    fixed-Gated :
        (r : FixedRequest) → r.env ≡ a.target.env → cfg.dynamic ≡ false → Gated (deployed r)
    unfolding Gated
    fixed-Gated r here pinned = elim (env_config-cases a.target s.svc cfg known) [
      | inl (staging, _) ↦
          (Passed-Released a.spec s.known (pinned-fixed pinned) g, inl (here ∙ staging))
      | inr (inl (prod, _)) ↦ (
        Passed-Released a.spec s.known (pinned-fixed pinned) g,
        inr (
          enforce_data_lane_red_lines-reviewed a.target c.code_reviewed a.data_lane s.lane prod,
          staged-prod s.cfg (ap env_config (sym (sym target-env ∙ prod)) ∙ s.env) s.staged,
        ),
      )
      | inr (inr (_, is)) ↦ ground (arith, ap (λ (c : EnvConfig). c.dynamic) is, pinned)
    ]

  -- Before anything is sent to staging or prod, the IaC ref is a release tag that GitHub reports as
  -- on main; before anything is sent to prod, the review signal was given; before an app service is
  -- sent to prod, it is validated on staging or the glass is broken; a preview is only brought up
  -- for a preview type, and none is torn down.
  pub deploy_v2-Gated : (e : Event) → Caused e (deploy_v2 w c) → Gated e
  deploy_v2-Gated e caused =
      Every-Caused Gated e (deploy_v2 w c)
        (deploy_v2-Every w c Gated (λ g svc t. Fired-Gated svc t g)
          (λ g svc expected normal registered a cfg s ready env. (
            λ dynamic supported. preview-Gated expected a cfg g s env _ dynamic,
            λ pinned. fixed-Gated expected a cfg g s env _ refl pinned,
          )))
        caused
