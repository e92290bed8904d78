-- ===== src/DeployRequest/Examples.antt =====
-- Requests that are planned, and requests that are refused.
use infra.Prelude.{String, true, false, Option, none, some, [], ◌∷◌, ◌≡◌, refl, if◌then◌else◌}
use infra.Prelude.Text.{contains_text}
use infra.DeployFront.Cli.Options.{parse_args}
use infra.DeployFront.Images.{Seconds}
use infra.DeployRequest.{
  DeployType, staging, production, preview_pr, other_type, DeployRequest, RunExpectation, Policy,
}
use infra.DeployRequest.Urls.{urlparse, github_evidence_number}
use infra.DeployRequest.Json.{Json, text, object, Fields, field, no_field}
use infra.DeployRequest.Verify.{Sources, verify_production_evidence}
use infra.DeployRequest.Plan.{Authority, DeployPlan, deploy_v2_args, first_release, make_plan}
use infra.DeployRequest.Arguments.{args_of, parse_args-deploy_v2_args}

abbrev commit : String
commit = "bbbbbbbbbbbbbbbbbbbbbbbbbbbbbbbbbbbbbbbb"

abbrev request : DeployRequest
request = record {
  service = "finance_report/app";
  source_repository = "wangzitian0/finance_report";
  source_sha = commit;
  deploy_type = production;
  version_ref = "v1.2.3";
  is_remove = false;
  evidence = record {
    source_run_id = "17";
    source_run_url = "https://github.com/wangzitian0/finance_report/actions/runs/17";
    staging_run_url = "https://github.com/wangzitian0/finance_report/actions/runs/18";
    reviewed_change_url = "https://github.com/wangzitian0/finance_report/pull/5";
  };
}

abbrev value_of : DeployType → String
value_of staging = "staging"
value_of production = "prod"
value_of preview_pr = "preview/pr"
value_of (other_type s) = s

url_runs : urlparse "HTTPS://github.com/a/b;p?q=1#f" ≡ record {
  scheme = "https";
  netloc = "github.com";
  path = "/a/b";
  params = "p";
  query = "q=1";
  fragment = "f";
}
unfolding urlparse
url_runs = refl

number_runs :
    github_evidence_number request.evidence.source_run_url "wangzitian0/finance_report"
      "actions/runs"
    ≡ some "17"
unfolding github_evidence_number
number_runs = refl

query_runs : github_evidence_number "https://github.com/a/b/pull/5?x=1" "a/b" "pull" ≡ none
unfolding github_evidence_number
query_runs = refl

abbrev expectation : RunExpectation
expectation = record {
  require_head_sha = true;
  event = "push";
  workflow_path = ".github/workflows/ci.yml";
  expected_display_title = λ v. v;
}

abbrev policy : Policy
policy = record {
  service = "finance_report/app";
  source = expectation;
  staging = record expectation { require_head_sha = false };
  review_base_ref = "main";
}

abbrev repository : Json
repository = object (field "full_name" (text "wangzitian0/finance_report") no_field)

-- A run at a URL, with its head.
abbrev run : (url head : String) → Fields
run url head = field "repository" repository (
    field "html_url" (text url) (
      field "status" (text "completed") (
        field "conclusion" (text "success") (
          field "head_sha" (text head) (
            field "path" (text ".github/workflows/ci.yml")
              (field "event" (text "push") (field "display_title" (text "v1.2.3") no_field)))))))

-- The pull request, merged as a commit.
abbrev pull : (merge_commit : String) → Fields
pull merge_commit =
    field "base" (object (field "repo" repository (field "ref" (text "main") no_field))) (
      field "html_url" (text request.evidence.reviewed_change_url) (
        field "state" (text "closed") (
          field "merged_at" (text "2026-01-01")
            (field "merge_commit_sha" (text merge_commit) no_field))))

-- GitHub: the first run, the second, or the pull request, by the path that is asked for.
abbrev answer_at : (merge_commit path : String) → Option Fields
answer_at merge_commit path =
    if contains_text "contents" path
    then some (field "content" (text "e30=") no_field)
    else if contains_text "runs/17" path
    then some (run request.evidence.source_run_url commit)
    else if contains_text "runs/18" path
    then some (run request.evidence.staging_run_url "main")
    else some (pull merge_commit)

abbrev github : (merge_commit : String) → Sources
github merge_commit = record { fetch_json = answer_at merge_commit; policy_of = λ _. some policy }

evidence_runs : verify_production_evidence ".infra2/policy.json" (github commit) request ≡ some tt
unfolding verify_production_evidence
evidence_runs = refl

unmerged_runs : verify_production_evidence ".infra2/policy.json" (github "cc") request ≡ none
unfolding verify_production_evidence
unmerged_runs = refl

tags_run : first_release ("v1.2.3-rc1" ∷ " v1.2.2 " ∷ "v1.2.1" ∷ []) ≡ some "v1.2.2"
unfolding first_release
tags_run = refl

abbrev authority : Authority
authority = record {
  verify_evidence = λ _. some tt;
  resolve_image = λ _ _. some "BBBBBBBBBBBBBBBBBBBBBBBBBBBBBBBBBBBBBBBB";
  resolve_pull = λ _ _. none;
}

abbrev plan : DeployPlan
plan = record { request = request; iac_ref = "v1.2.2"; domain = "zitian.party"; timeout = 600 }

stranger_runs :
    make_plan authority (some request) "mallory" "zitian.party" 600 (λ _. none) (some "v1.2.2\n")
    ≡ none
unfolding make_plan
stranger_runs = refl

other_commit_runs :
    make_plan authority
      (some (record request { version_ref = "v1.2.3"; source_sha = "cc" }))
      "wangzitian0"
      "zitian.party"
      600
      (λ _. none)
      (some "v1.2.2\n")
    ≡ none
unfolding make_plan
other_commit_runs = refl

-- No option of a plan is a float.
abbrev no_float : String → Option Seconds
no_float s = none

parse_args-deploy_v2_args_example :
    parse_args no_float (deploy_v2_args value_of plan) ≡ some (args_of value_of plan)
parse_args-deploy_v2_args_example = parse_args-deploy_v2_args no_float value_of plan (record {
  service = refl;
  deploy_type = refl;
  version_ref = refl;
  iac_ref = refl;
  domain = refl;
  source_sha = refl;
})
