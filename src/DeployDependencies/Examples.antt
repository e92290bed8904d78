-- ===== src/DeployDependencies/Examples.antt =====
-- Runs of libs/deploy_dependencies.py on the manifest of docs/ssot/deploy-dependencies.yaml.
use Prim.Native.String.{String}
use infra.Prelude.{Bool, true, false, not, ◌&&◌, Option, none, some, List, [], ◌∷◌, ◌≡◌, refl}
use infra.Prelude.Text.{split_once, replace_char, strip, upper, lstrip_if}
use infra.Prelude.Text.Split.{split, splitlines, words}
use infra.Prelude.Text.Order.{sorted}
use infra.Prelude.Dict.{Dict, lookup, contains}
use infra.DeployDependencies.{
  glob_matches, service_key_from_path, Manifest, match_changed_services, explain_fanout,
}
use infra.DeployDependencies.Reasons.{is_some, explain_fanout-match_changed_services}
use infra.DeployDependencies.Dockerfiles.{
  probe_of, dockerfile_baked_shared_trees, fanout_coverage_violations,
}
use infra.DeployDependencies.Coverage.{bakes, fanout_coverage_violations-match_changed_services}

abbrev manifest : Manifest
manifest = ("platform/alerting", "libs/**" ∷ "tools/**" ∷ "platform/*/deploy.py" ∷ []) ∷ []

abbrev changed : List String
changed =
    "README.md" ∷ "platform/11.signoz/deploy.py" ∷ "bootstrap/06.iac_runner/compose.yaml"
    ∷ "libs/env.py" ∷ []

match_runs :
    match_changed_services changed manifest
    ≡ "platform/signoz" ∷ "bootstrap/iac-runner" ∷ "platform/alerting" ∷ []
unfolding match_changed_services glob_matches service_key_from_path split split_once replace_char
match_runs = refl

dropped_runs : (explain_fanout changed manifest).dropped ≡ "README.md" ∷ []
unfolding explain_fanout glob_matches service_key_from_path split split_once
dropped_runs = refl

reason_runs :
    lookup "platform/alerting" (explain_fanout changed manifest).selected
    ≡ some "declared dep (platform/11.signoz/deploy.py)"
unfolding lookup explain_fanout glob_matches service_key_from_path split split_once replace_char
reason_runs = refl

explain_fanout-match_changed_services_example :
    is_some (lookup "platform/alerting" (explain_fanout changed manifest).selected)
    ≡ contains "platform/alerting" (match_changed_services changed manifest)
explain_fanout-match_changed_services_example =
    explain_fanout-match_changed_services changed manifest "platform/alerting"

abbrev dockerfiles : Dict String
dockerfiles =
    (
      "platform/alerting",
      "FROM python\n# COPY common x\nCOPY ./libs /app/libs\nCOPY --from=build tools /x\n",
    )
    ∷ []

clean_runs : fanout_coverage_violations dockerfiles manifest ≡ []
unfolding fanout_coverage_violations sorted dockerfile_baked_shared_trees splitlines strip words
    upper split_once lstrip_if glob_matches
clean_runs = refl

bakes_runs : bakes dockerfiles "platform/alerting" "libs" ≡ true
unfolding dockerfile_baked_shared_trees infra.Prelude.Text.Split.splitlines infra.Prelude.Text.strip
    infra.Prelude.Text.Split.words infra.Prelude.Text.upper infra.Prelude.Text.split_once
    infra.Prelude.Text.lstrip_if
bakes_runs = refl

fanout_coverage_violations-match_changed_services_example :
    contains "platform/alerting" (match_changed_services (probe_of "libs" ∷ []) manifest) ≡ true
fanout_coverage_violations-match_changed_services_example =
    fanout_coverage_violations-match_changed_services dockerfiles manifest "platform/alerting"
      "libs" clean_runs bakes_runs
