-- ===== src/DeployContract/Examples.antt =====
-- Runs of libs/deploy_contract.py.
use infra.Prelude.{String, none, some, [], true, ◌≡◌, refl, ◌↔◌}
use infra.Prelude.Decimal.{decimal}
use infra.Prelude.Text.{lower, strip, first_then, replace_char}
use infra.DeployEnv.{number, text, slug_of}
use infra.DeployContract.{
  app_spec, DeployTarget, is_valid_preview_sub_domain, sub_domain_for, validate_deploy_target,
}
use infra.DeployContract.DeployTypes.{
  validate_ref_form, validate_iac_ref_form, is_tag_only_iac_env, make_target,
}
use infra.DeployContract.Aliases.{fits_slot}
use infra.DeployContract.Slots.{sub_domain_for-is_valid}
use infra.DeployContract.Contract.{Agrees, validate_deploy_target-Agrees}
use infra.DeployContract.Types.{Made, make_target-Made}

abbrev app_sha : String
app_sha = "0123456789abcdef0123456789abcdef01234567"

abbrev infra_sha : String
infra_sha = "89abcdef0123456789abcdef0123456789abcdef"

abbrev pr_target : DeployTarget
pr_target = record {
  service = "finance_report/app";
  env = "preview";
  sub_domain = "report-pr-7";
  code_version = app_sha;
  iac_ref = infra_sha;
}

pr_runs :
    make_target [] "preview/pr" "finance_report/app" app_sha infra_sha (number 7) ≡ some pr_target
unfolding make_target first_then strip decimal lower slug_of
pr_runs = refl

underscore_refused :
    make_target [] "preview/branch" "finance_report/app" app_sha infra_sha (text "feat_x") ≡ none
unfolding make_target first_then strip lower slug_of replace_char
underscore_refused = refl

make_target-Made_example :
    Made [] "preview/pr" "finance_report/app" app_sha infra_sha (number 7) pr_target
make_target-Made_example =
    make_target-Made [] "preview/pr" "finance_report/app" app_sha infra_sha (number 7) pr_target
      pr_runs

validate_deploy_target-Agrees_example :
    (validate_deploy_target pr_target app_spec ≡ some tt) ↔ Agrees pr_target app_spec
validate_deploy_target-Agrees_example = validate_deploy_target-Agrees pr_target app_spec

pr_derived : sub_domain_for app_spec "preview" (some "pr") (number 7) ≡ some "report-pr-7"
unfolding sub_domain_for first_then strip decimal slug_of
pr_derived = refl

branch_derived :
    sub_domain_for app_spec "preview" (some "branch") (text "feat_x") ≡ some "report-branch-feat_x"
unfolding sub_domain_for first_then strip slug_of replace_char lower
branch_derived = refl

sub_domain_for-is_valid_example :
    is_valid_preview_sub_domain app_spec "report-branch-feat_x" ≡ fits_slot "branch" (text "feat_x")
sub_domain_for-is_valid_example =
    sub_domain_for-is_valid app_spec "branch" (text "feat_x") "report-branch-feat_x" branch_derived

pr_is_slot : is_valid_preview_sub_domain app_spec "report-pr-7" ≡ true
unfolding is_valid_preview_sub_domain first_then
pr_is_slot = refl

prod_is_fixed : is_tag_only_iac_env "prod" ≡ some true
unfolding is_tag_only_iac_env
prod_is_fixed = refl

abbrev release_tag : String
release_tag = "tag"

prod_takes_tag : validate_ref_form "prod" release_tag ≡ some tt
unfolding validate_ref_form
prod_takes_tag = refl

prod_takes_iac_tag : validate_iac_ref_form "prod" release_tag ≡ some tt
unfolding validate_iac_ref_form
prod_takes_iac_tag = refl
