-- ===== src/DeployRequest/Verify.antt =====
-- libs/app_deploy_request.py: the evidence that a production request needs, read from GitHub.
use infra.Prelude.{String, ◌<>◌, Bool, true, ◌&&◌, Option, none, some, str_eq, if◌then◌else◌}
use infra.Prelude.Errors.{◌>>=◌, ◌>>◌, require}
use infra.DeployRequest.{DeployRequest, RunExpectation, Policy}
use infra.DeployRequest.Urls.{github_evidence_number}
use infra.DeployRequest.Json.{Json, text, Fields, get, get_in, is_text, is_true}

-- What the outside answers: the JSON mapping at a path of GitHub's API, and the contract that the
-- SDK reads from the content of a file.
pub record Sources : Type 0 where
  pub fetch_json : String → Option Fields
  pub policy_of : String → Option Policy

-- The path of the SDK's contract file is a parameter.
abbrev content_of : Json → Option String
content_of (text s) = some s
content_of _ = none

abbrev pub repo_path : (repository rest : String) → String
repo_path repository rest = "/repos/" <> repository <> "/" <> rest

module _ (policy_path : String) (sources : Sources) where
  -- `fetch_production_evidence_policy`
  unfoldable pub fetch_production_evidence_policy : DeployRequest → Option Policy
  unfolding get
  fetch_production_evidence_policy request =
      sources.fetch_json (
        repo_path request.source_repository
          ("contents/" <> policy_path <> "?ref=" <> request.source_sha))
      >>= λ payload. content_of (get "content" payload) >>= λ content.
          sources.policy_of content >>= λ policy.
          require (str_eq policy.service request.service) >> some policy

-- `_verify_run`; no sha is a run whose head is not compared.
abbrev pub is_head : Option String → Fields → Bool
is_head none run = true
is_head (some sha) run = is_text sha (get "head_sha" run)

unfoldable pub verify_run :
    Fields
    → (repository url : String) (sha : Option String) → (event workflow_path display_title : String)
    → Option (Unit {0})
unfolding get get_in
verify_run run repository url sha event workflow_path display_title =
    require (is_text repository (get_in "full_name" (get "repository" run)))
    >> require (is_text url (get "html_url" run))
    >> require (is_text "completed" (get "status" run) && is_text "success" (get "conclusion" run))
    >> require (is_head sha run)
    >> require (is_text workflow_path (get "path" run))
    >> require (is_text event (get "event" run))
    >> require (is_text display_title (get "display_title" run))

-- `_verify_reviewed_pull`
unfoldable pub verify_reviewed_pull :
    Fields → (repository url sha base_ref : String) → Option (Unit {0})
unfolding get get_in
verify_reviewed_pull pull repository url sha base_ref =
    let base = get "base" pull in
    require (is_text repository (get_in "full_name" (get_in "repo" base)))
    >> require (is_text url (get "html_url" pull))
    >> require (is_text "closed" (get "state" pull) && is_true (get "merged_at" pull))
    >> require (is_text base_ref (get_in "ref" base))
    >> require (is_text sha (get "merge_commit_sha" pull))

abbrev pub head_of : RunExpectation → DeployRequest → Option String
head_of expectation request = if expectation.require_head_sha then some request.source_sha else none

-- A run against what the contract expects of it.
abbrev pub verify_expected :
    DeployRequest → RunExpectation → (url : String) → Fields → Option (Unit {0})
verify_expected request expectation url run =
    verify_run run request.source_repository url (head_of expectation request) expectation.event
      expectation.workflow_path (expectation.expected_display_title request.version_ref)

module _ (policy_path : String) (sources : Sources) where
  -- `verify_production_evidence`
  unfoldable pub verify_production_evidence : DeployRequest → Option (Unit {0})
  unfolding github_evidence_number fetch_production_evidence_policy verify_run verify_reviewed_pull
  verify_production_evidence request =
      let repository = request.source_repository in
      let evidence = request.evidence in
      github_evidence_number evidence.source_run_url repository "actions/runs" >>= λ source_run_id.
      require (str_eq source_run_id evidence.source_run_id)
      >> (github_evidence_number evidence.staging_run_url repository "actions/runs"
          >>= λ staging_run_id.
              github_evidence_number evidence.reviewed_change_url repository "pull"
              >>= λ pull_number.
                  fetch_production_evidence_policy policy_path sources request >>= λ policy.
                  sources.fetch_json (repo_path repository ("actions/runs/" <> source_run_id))
                  >>= λ source_run.
                      sources.fetch_json (repo_path repository ("actions/runs/" <> staging_run_id))
                      >>= λ staging_run.
                          sources.fetch_json (repo_path repository ("pulls/" <> pull_number))
                          >>= λ reviewed_pull.
                              verify_expected request policy.source evidence.source_run_url
                                source_run
                              >> verify_expected request policy.staging evidence.staging_run_url
                                  staging_run
                              >> verify_reviewed_pull reviewed_pull repository
                                  evidence.reviewed_change_url request.source_sha
                                  policy.review_base_ref)
