-- ===== src/RefResolver/Examples.antt =====
-- Runs of the ref resolution on what git prints for an annotated tag.
use mathlib.Core.Option
use infra.Prelude.{String, Option, none, some, List, ◌≡◌, refl}
use infra.Prelude.Decimal.{decimal}
use infra.DeployEnv.{number}
use infra.RefResolver.{
  resolve_to_sha, resolve_image_ref, resolve_pr, ResolvedRef, finance_report_repo,
}
use infra.RefResolver.Commits.{Resolves, resolve_image_ref-Designates}

abbrev tag_object : String
tag_object = "aaaaaaaaaaaaaaaaaaaaaaaaaaaaaaaaaaaaaaaa"

abbrev tag_commit : String
tag_commit = "bbbbbbbbbbbbbbbbbbbbbbbbbbbbbbbbbbbbbbbb"

-- The answer to every query.
abbrev annotated : String → List String → Option String
annotated repo refs =
    some
      "aaaaaaaaaaaaaaaaaaaaaaaaaaaaaaaaaaaaaaaa\trefs/tags/v1.2.3\nbbbbbbbbbbbbbbbbbbbbbbbbbbbbbbbbbbbbbbbb\trefs/tags/v1.2.3^{}\ncccccccccccccccccccccccccccccccccccccccc\trefs/pull/42/head\n"

annotated_runs :
    resolve_image_ref annotated finance_report_repo " v1.2.3 "
    ≡ some (record { sha = tag_commit; image_ref = "v1.2.3"; form = "tag" })
unfolding resolve_image_ref
annotated_runs = refl

pull_runs :
    resolve_pr annotated finance_report_repo (number 42)
    ≡ some (record {
      sha = "cccccccccccccccccccccccccccccccccccccccc";
      image_ref = "ccccccc";
      form = "pr";
    })
unfolding resolve_pr decimal
pull_runs = refl

no_main_runs : resolve_to_sha annotated finance_report_repo "main" ≡ none
unfolding resolve_to_sha
no_main_runs = refl

short_runs : resolve_to_sha annotated finance_report_repo "DEADBEEF" ≡ some "deadbeef"
unfolding resolve_to_sha
short_runs = refl

resolve_image_ref-Designates_example :
    Resolves annotated finance_report_repo "v1.2.3"
      (resolve_image_ref annotated finance_report_repo "v1.2.3")
    × (Option.map
          (λ (r : ResolvedRef). r.sha)
          (resolve_image_ref annotated finance_report_repo "v1.2.3")
        ≡ resolve_to_sha annotated finance_report_repo "v1.2.3")
resolve_image_ref-Designates_example =
    resolve_image_ref-Designates annotated finance_report_repo "v1.2.3"
