-- ===== src/DeployRequest/Plan.antt =====
-- libs/app_deploy_request.py: who may ask for what, and the plan of a request that is accepted.
use infra.Prelude.{
  ℕ, String, ◌<>◌, Bool, true, false, not, ◌&&◌, Option, none, some, List, [], ◌∷◌, ◌++◌, ltb,
  str_eq, if◌then◌else◌,
}
use infra.Prelude.Dict.{lookup, contains}
use infra.Prelude.Decimal.{decimal}
use infra.Prelude.Text.{lower, strip, all_chars, is_space, is_version, numbers, or_text}
use infra.Prelude.Text.Split.{splitlines}
use infra.Prelude.Errors.{◌>>=◌, ◌>>◌, require}
use infra.DeployRequest.{
  DeployType, preview_pr, DeployRequest, app_sources, allowed_senders, is_production, is_fixed_type,
  git_url,
}
use infra.DeployRequest.Urls.{require_github_path}

-- `_validate_evidence_urls`
unfoldable pub validate_evidence_urls : DeployRequest → Option (Unit {0})
unfolding require_github_path
validate_evidence_urls request =
    let repository_path = "/" <> request.source_repository <> "/" in
    let evidence = request.evidence in
    let for_production =
      require_github_path evidence.staging_run_url (repository_path <> "actions/runs/")
      >> require_github_path evidence.reviewed_change_url (repository_path <> "pull/") in
    require_github_path evidence.source_run_url (repository_path <> "actions/runs/")
    >> (if is_production request.deploy_type then for_production else some tt)

-- What a request is checked against: the evidence verifier, and the SDK's resolution of a ref and of
-- the head of a pull request in a repository, to a sha.
pub record Authority : Type 0 where
  pub verify_evidence : DeployRequest → Option (Unit {0})
  pub resolve_image : (version_ref repo : String) → Option String
  pub resolve_pull : (version_ref repo : String) → Option String

abbrev pub is_pull : DeployType → Bool
is_pull preview_pr = true
is_pull _ = false

abbrev pub resolved_by : Authority → DeployRequest → (source : String) → Option String
resolved_by authority request source =
    let pull = authority.resolve_pull request.version_ref (git_url source) in
    let image = authority.resolve_image request.version_ref (git_url source) in
    if is_pull request.deploy_type then pull else image

abbrev pub pinned : Authority → DeployRequest → (source : String) → Option (Unit {0})
pinned authority request source =
    resolved_by authority request source >>= λ sha. require (str_eq (lower sha) request.source_sha)

unfoldable pub validate_request_authority :
    Authority → DeployRequest → (sender : String) → Option (Unit {0})
unfolding lookup validate_evidence_urls lower
validate_request_authority authority request sender =
    require (contains sender allowed_senders)
    >> (lookup request.service app_sources >>= λ expected_source.
        require (str_eq request.source_repository expected_source)
        >> validate_evidence_urls request
        >> (if is_production request.deploy_type
            then authority.verify_evidence request
            else some tt)
        >> (if request.is_remove then some tt else pinned authority request expected_source))

-- `_SEMVER_TAG_RE`
abbrev pub is_semver_tag : String → Bool
is_semver_tag s = is_version b'.' s

unfoldable pub first_release : List String → Option String
unfolding strip numbers
first_release [] = none
first_release (tag ∷ rest) =
    let cleaned = strip tag in
    let others = first_release rest in if is_semver_tag cleaned then some cleaned else others

-- `select_iac_ref`, with what `git tag --merged HEAD` prints, the newest version first; `none` is a
-- git that fails.
unfoldable pub select_iac_ref : DeployType → (tags : Option String) → Option String
unfolding first_release splitlines
select_iac_ref deploy_type tags =
    let released = tags >>= λ stdout. first_release (splitlines stdout) in
    if is_fixed_type deploy_type then released else some "main"

pub record DeployPlan : Type 0 where
  pub request : DeployRequest
  pub iac_ref : String
  pub domain : String
  pub timeout : ℕ

-- `deploy_v2_args`; the SDK's values of the deploy types are a parameter.
unfoldable pub deploy_v2_args : (DeployType → String) → DeployPlan → List String
unfolding decimal
deploy_v2_args value_of plan =
    let request = plan.request in
    ("--service"
      ∷ request.service
      ∷ "--type"
      ∷ value_of request.deploy_type
      ∷ "--version-ref"
      ∷ request.version_ref
      ∷ "--iac-ref"
      ∷ plan.iac_ref
      ∷ "--domain"
      ∷ plan.domain
      ∷ "--timeout"
      ∷ decimal plan.timeout
      ∷ [])
    ++ (if request.is_remove then "--down" ∷ [] else "--expected-sha" ∷ request.source_sha ∷ [])
    ++ (if is_production request.deploy_type
        then "--staging-validated" ∷ "--code-reviewed" ∷ []
        else [])

abbrev pub requires_preflight_canary : DeployPlan → Bool
requires_preflight_canary plan =
    is_fixed_type plan.request.deploy_type && not plan.request.is_remove

abbrev pub effective_domain : Option String → String → String
effective_domain none domain = domain
effective_domain (some own) domain = or_text own domain

-- `make_plan`, after `parse_request`, with the service's own domain, if the registry has one.
unfoldable pub make_plan :
    Authority
    → (request : Option DeployRequest) (sender domain : String) (timeout : ℕ)
    → (domain_for_service : String → Option String) (tags : Option String) → Option DeployPlan
unfolding validate_request_authority select_iac_ref all_chars is_space
make_plan authority parsed sender domain timeout domain_for_service tags = parsed >>= λ request.
    let effective = effective_domain (domain_for_service request.service) domain in
    validate_request_authority authority request sender
    >> require (not (str_eq effective "") && all_chars (λ c. not (is_space c)) effective)
    >> require (ltb 0 timeout)
    >> (select_iac_ref request.deploy_type tags >>= λ iac_ref.
        some
          (record { request = request; iac_ref = iac_ref; domain = effective; timeout = timeout }))
