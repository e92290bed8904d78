-- ===== src/DeployFront/Delivered.antt =====
-- tools/deploy_v2.py: what a deploy to a fixed environment delivers.
use mathlib.Core.Option
use mathlib.Core.Option.{some-injective}
use infra.Prelude.{
  String, true, false, Option, none, some, List, [], ◌∷◌, ◌≡◌, refl, sym, ap, ◌∙◌, ◌⊎◌, inl, inr,
  arith, str_eq, eq_iff, subst, All, Bool-cases,
}
use infra.Prelude.Dict.{Dict, lookup}
use infra.Prelude.Text.{lower, strip}
use infra.Prelude.Errors.{◌>>=◌, require, bind-some, seq-some, require-true}
use infra.Prelude.Effects.{ok, Caused, Every-Caused}
use infra.DeployEnv.{AliasValue, text_of}
use infra.DeployContract.{ServiceSpec, service_spec, is_sha}
use infra.DeployContract.DeployTypes.{
  DeployTypeSpec, deploy_types, deploy_type_spec, validate_ref_form, is_tag_only_env, preview_type,
  all_ref_forms,
}
use infra.RefResolver.{
  ResolvedRef, classify_ref, resolve_image_ref, resolve_to_sha, resolve_remote_sha, found, tagged,
}
use infra.RefResolver.Commits.{resolve_image_ref-Designates}
use infra.DeployFront.{normalize_expected_sha}
use infra.DeployFront.Refs.{resolve_for_type, resolve_git_ref, checked_form, slotted, slot_of}
use infra.DeployFront.Calls.{World, Coordinate, Event, deployed, FixedRequest}
use infra.DeployFront.AppTarget.{AppTarget, repo_of, is_expected}
use infra.DeployFront.Dispatch.{deploy_v2, images_ready, fixed_request}
use infra.DeployFront.Apps.{Settled}
use infra.DeployFront.Chain.{deploy_v2-Every}
use infra.DeployFront.Production.{pinned-fixed}

-- The version ref of a deploy, as it is given.
abbrev pub given_ref : Coordinate → String
given_ref c = strip (text_of c.version_ref)

-- What is asked of a fixed environment is one release and nothing else.
pub record Delivered (w : World) (c : Coordinate) (r : FixedRequest) : Type 0 where
  pub release : classify_ref (given_ref c) ≡ some "tag"
  pub image : r.image_ref ≡ strip (given_ref c)
  pub commit : resolve_to_sha w.ls_remote (repo_of c) (given_ref c) ≡ some r.sha
  pub full : is_sha r.sha ≡ true
  pub as_expected :
      (normalize_expected_sha c.expected_sha ≡ some none)
      ⊎ (normalize_expected_sha c.expected_sha ≡ some (some (lower r.sha)))
  pub svc : ServiceSpec
  pub registered : service_spec w.attrs c.service ≡ some svc
  pub ready : images_ready w c svc r.image_ref ≡ ok tt

lookup-All :
    (P : DeployTypeSpec → Type 0) (key : String) (d : Dict DeployTypeSpec) (spec : DeployTypeSpec)
    → All (λ (entry : String × DeployTypeSpec). P entry.1) d
    → lookup key d ≡ some spec
    → P spec
unfolding lookup
lookup-All P key [] spec h e = ground arith
lookup-All P key ((k, v) ∷ d) spec (p, h) e = elim (Bool-cases (str_eq k key)) [
  | inl here ↦ subst P (some-injective v spec (sym (rw here refl) ∙ e)) p
  | inr there ↦ lookup-All P key d spec h (sym (rw there refl) ∙ e)
]

-- A type of a fixed environment takes no alias, and is not the canary.
Plain : DeployTypeSpec → Type 0
Plain spec =
    is_tag_only_env spec.env ≡ true
    → (spec.alias_kind ≡ none) × ((spec.key ≡ "staging") ⊎ (spec.key ≡ "prod"))

other_type : (key kind : String) (forms : List String) → Plain (preview_type key kind forms).1
unfolding Plain
other_type key kind forms fixed = ground arith

deploy_types-Plain : All (λ (entry : String × DeployTypeSpec). Plain entry.1) deploy_types
unfolding Plain
deploy_types-Plain = (
  λ _. (refl, inl refl),
  (
    λ _. (refl, inr refl),
    (
      other_type "preview/branch" "branch" ("branch" ∷ []),
      (
        other_type "preview/pr" "pr" ("pr" ∷ []),
        (
          other_type "preview/commit" "commit" ("sha" ∷ []),
          (
            other_type "preview/tag" "tag" ("tag" ∷ []),
            (other_type "canary" "pr" all_ref_forms, tt),
          ),
        ),
      ),
    ),
  ),
)

fixed_type-plain :
    (deploy_type : String) (spec : DeployTypeSpec)
    → deploy_type_spec deploy_type ≡ some spec
    → is_tag_only_env spec.env ≡ true
    → (spec.alias_kind ≡ none) × ((spec.key ≡ "staging") ⊎ (spec.key ≡ "prod"))
unfolding deploy_type_spec Plain
fixed_type-plain deploy_type spec known =
    lookup-All Plain deploy_type deploy_types spec deploy_types-Plain known

release_form :
    (key form : String)
    → (key ≡ "staging") ⊎ (key ≡ "prod")
    → validate_ref_form key form ≡ some tt
    → form ≡ "tag"
unfolding validate_ref_form deploy_type_spec lookup
release_form key form (inl k) e =
    let e' : validate_ref_form "staging" form ≡ some tt =
      ap (λ key. validate_ref_form key form) (sym k) ∙ e in
    ground (arith, e', eq_iff "tag" form)
release_form key form (inr k) e =
    let e' : validate_ref_form "prod" form ≡ some tt =
      ap (λ key. validate_ref_form key form) (sym k) ∙ e in
    ground (arith, e', eq_iff "tag" form)

module _ (ls_remote : String → List String → Option String) (repo ref : String) where
  tag_image :
      (resolved : ResolvedRef)
      → classify_ref ref ≡ some "tag"
      → resolve_image_ref ls_remote repo ref ≡ some resolved
      → resolved.image_ref ≡ strip ref
  unfolding resolve_image_ref
  tag_image resolved is e =
      let e' : (resolve_remote_sha ls_remote repo "tag" (strip ref) >>= found >>= λ sha.
      some (tagged "tag" (strip ref) sha))
          ≡ some resolved =
        sym (rw is refl) ∙ e in
      let (sha, (_, same)) =
        bind-some (resolve_remote_sha ls_remote repo "tag" (strip ref) >>= found)
          (λ sha. some (tagged "tag" (strip ref) sha)) resolved e' in
      sym (ap (λ (r : ResolvedRef). r.image_ref) (some-injective _ resolved same))

module _ (w : World) (c : Coordinate) (expected : Option String) (a : AppTarget)
    (s : Settled w c expected a) (fixed : is_tag_only_env a.spec.env ≡ true) where
  abbrev resolution : Option (ResolvedRef × AliasValue)
  resolution = resolve_git_ref w.ls_remote a.spec (given_ref c) (repo_of c)

  plain : (a.spec.alias_kind ≡ none) × ((a.spec.key ≡ "staging") ⊎ (a.spec.key ≡ "prod"))
  plain = fixed_type-plain c.deploy_type a.spec s.known fixed

  no_canary : str_eq a.spec.key "canary" ≡ false
  no_canary = elim plain.1 [
    | inl k ↦ ap (λ k. str_eq k "canary") k
    | inr k ↦ ap (λ k. str_eq k "canary") k
  ]

  git_ref : resolution ≡ some (a.resolved, a.alias_value)
  unfolding resolve_for_type
  git_ref = sym (rw (no_canary, plain.0) refl) ∙ s.resolves

  form_and_image :
      (checked_form w.ls_remote a.spec (given_ref c) ≡ some tt)
      × ((resolve_image_ref w.ls_remote (repo_of c) (given_ref c) ≡ some a.resolved)
          × (is_sha a.resolved.sha ≡ true))
  form_and_image =
      let (form, e₁) =
        seq-some (checked_form w.ls_remote a.spec (given_ref c))
          (resolve_image_ref w.ls_remote (repo_of c) (given_ref c)
            >>= slotted w.ls_remote a.spec (given_ref c))
          (a.resolved, a.alias_value) git_ref in
      let (resolved, (known, e₂)) =
        bind-some (resolve_image_ref w.ls_remote (repo_of c) (given_ref c))
          (slotted w.ls_remote a.spec (given_ref c)) (a.resolved, a.alias_value) e₁ in
      let (full, e₃) =
        seq-some (require (is_sha resolved.sha))
          (slot_of a.spec.alias_kind (given_ref c) resolved.sha >>= λ slot. some (resolved, slot))
          (a.resolved, a.alias_value) e₂ in
      let (slot, (_, same)) =
        bind-some (slot_of a.spec.alias_kind (given_ref c) resolved.sha)
          (λ slot. some (resolved, slot)) (a.resolved, a.alias_value) e₃ in
      let is : resolved ≡ a.resolved =
        ap (λ (p : ResolvedRef × AliasValue). p.0)
          (some-injective (resolved, slot) (a.resolved, a.alias_value) same) in
      (
        form,
        (
          known ∙ ap some is,
          ap (λ (r : ResolvedRef). is_sha r.sha) (sym is) ∙ require-true (is_sha resolved.sha) full,
        ),
      )

  is_release : classify_ref (given_ref c) ≡ some "tag"
  is_release =
      let (form, (is, valid)) =
        bind-some (classify_ref (given_ref c)) (validate_ref_form a.spec.key) tt form_and_image.0 in
      is ∙ ap some (release_form a.spec.key form plain.1 valid)

  expected-cases :
      (sha : Option String)
      → is_expected sha a.resolved ≡ true
      → (sha ≡ none) ⊎ (sha ≡ some (lower a.resolved.sha))
  expected-cases none h = inl refl
  expected-cases (some sha) h = inr (ap some (sym ((eq_iff (lower a.resolved.sha) sha).0 h)))

  fixed_request-Delivered :
      (svc : ServiceSpec) (domain : String)
      → normalize_expected_sha c.expected_sha ≡ some expected
      → service_spec w.attrs c.service ≡ some svc
      → images_ready w c svc a.resolved.image_ref ≡ ok tt
      → Delivered w c (fixed_request c a domain)
  fixed_request-Delivered svc domain normal registered ready = record {
    release = is_release;
    image =
        tag_image w.ls_remote (repo_of c) (given_ref c) a.resolved is_release form_and_image.1.0;
    commit =
        sym (resolve_image_ref-Designates w.ls_remote (repo_of c) (given_ref c)).1
        ∙ ap (Option.map (λ (r : ResolvedRef). r.sha)) form_and_image.1.0;
    full = form_and_image.1.1;
    as_expected = elim (expected-cases expected s.as_expected) [
      | inl no_sha ↦ inl (normal ∙ ap some no_sha)
      | inr same ↦ inr (normal ∙ ap some same)
    ];
    svc = svc;
    registered = registered;
    ready = ready;
  }

module _ (w : World) (c : Coordinate) where
  Delivery : Event → Type 0
  Delivery (deployed r) = Delivered w c r
  Delivery _ = Unit

  -- What `deploy_v2` deploys to a fixed environment is the image of a release tag, at the full commit
  -- that the tag resolves to in the service's repository, which is the expected sha if one is given;
  -- and all its images have been waited for.
  pub deploy_v2-Delivered :
      (r : FixedRequest) → Caused (deployed r) (deploy_v2 w c) → Delivered w c r
  unfolding Delivery
  deploy_v2-Delivered r caused =
      Every-Caused Delivery (deployed r) (deploy_v2 w c)
        (deploy_v2-Every w c Delivery (λ _ _ _ _. tt)
          (λ g svc expected normal registered a cfg s ready env. (
            λ _ _. tt,
            λ pinned.
                fixed_request-Delivered w c expected a s
                  (pinned-fixed w c expected a cfg g s env pinned) svc _ normal registered ready,
          )))
        caused
