-- ===== src/DeployRequest/Authorized.antt =====
-- libs/app_deploy_request.py: what a request has to be for a plan to be made of it.
use infra.Prelude.{
  ℕ, String, ◌<◌, Bool, true, false, not, ◌&&◌, Option, some, ◌≡◌, ◌⊎◌, str_eq, if◌then◌else◌,
}
use infra.Prelude.Dict.{lookup, contains}
use infra.Prelude.Text.{lower, all_chars, is_space}
use infra.Prelude.Errors.{◌>>=◌, require}
use infra.DeployRequest.{
  DeployType, DeployRequest, app_sources, allowed_senders, is_production, is_fixed_type,
}
use infra.DeployRequest.Plan.{
  Authority, resolved_by, pinned, validate_evidence_urls, is_semver_tag, select_iac_ref, DeployPlan,
  effective_domain,
}

-- The sender may ask, the service is one of the apps, its repository is the app's, production has
-- its evidence, and the version is the commit that the request names.
pub record Authorized (authority : Authority) (request : DeployRequest) (sender : String)
    : Type 0 where
  pub sender_allowed : contains sender allowed_senders ≡ true
  pub source : lookup request.service app_sources ≡ some request.source_repository
  pub urls : validate_evidence_urls request ≡ some tt
  pub evidence :
      (is_production request.deploy_type ≡ false) ⊎ (authority.verify_evidence request ≡ some tt)
  pub commit :
      (request.is_remove ≡ true)
      ⊎ ((sha : String) × ((resolved_by authority request request.source_repository ≡ some sha)
            × (lower sha ≡ request.source_sha)))

module _ (authority : Authority) (request : DeployRequest) (sender : String) where
  abbrev evidence_gate : Option (Unit {0})
  evidence_gate =
      if is_production request.deploy_type then authority.verify_evidence request else some tt

  abbrev commit_gate : String → Option (Unit {0})
  commit_gate source = if request.is_remove then some tt else pinned authority request source

  abbrev same_source : String → Option (Unit {0})
  same_source source = require (str_eq request.source_repository source)

-- The IaC of a fixed environment is a release, and that of a preview is main.
pub Pinned : DeployType → String → Type 0
Pinned deploy_type iac_ref =
    ((is_fixed_type deploy_type ≡ true) × (is_semver_tag iac_ref ≡ true))
    ⊎ ((is_fixed_type deploy_type ≡ false) × (iac_ref ≡ "main"))

-- What a plan is made of.
pub record Planned (authority : Authority) (request : DeployRequest) (sender domain : String)
    (timeout : ℕ) (domain_for_service : String → Option String) (plan : DeployPlan) : Type 0 where
  pub authorized : Authorized authority request sender
  pub iac : Pinned request.deploy_type plan.iac_ref
  pub at_domain : plan.domain ≡ effective_domain (domain_for_service request.service) domain
  pub is_domain :
      (not (str_eq plan.domain "") && all_chars (λ c. not (is_space c)) plan.domain) ≡ true
  pub same_timeout : plan.timeout ≡ timeout
  pub positive : 0 < timeout

module _ (authority : Authority) (sender domain : String) (timeout : ℕ)
    (domain_for_service : String → Option String) (tags : Option String) where
  abbrev domain_of : DeployRequest → String
  domain_of request = effective_domain (domain_for_service request.service) domain

  abbrev domain_test : DeployRequest → Bool
  domain_test request =
      not (str_eq (domain_of request) "") && all_chars (λ c. not (is_space c)) (domain_of request)

  abbrev plan_of : DeployRequest → String → DeployPlan
  plan_of request iac_ref = record {
    request = request;
    iac_ref = iac_ref;
    domain = domain_of request;
    timeout = timeout;
  }

  abbrev planned : DeployRequest → Option DeployPlan
  planned request =
      select_iac_ref request.deploy_type tags >>= λ iac_ref. some (plan_of request iac_ref)
