-- ===== src/ServiceIdentity/Examples.antt =====
-- A run of `ServiceIdentity.build`.
use infra.Prelude.{◌≡◌, refl, none, some}
use infra.Prelude.Text.{first_then, split_once, strip, lower, replace_char}
use infra.ServiceIdentity.{ServiceIdentity, build}
use infra.ServiceIdentity.Valid.{IsCanonical, build-IsCanonical}

abbrev report_api : ServiceIdentity
report_api = record {
  service_id = "finance_report/app";
  environment = "staging";
  component = "report-api";
  service_name = "app";
  version = "v1.2.3";
  iac_ref = "";
}

build_runs :
    build " finance_report/app" "Staging" (some "Report_API") none "v1.2.3" "" ≡ some report_api
unfolding build first_then split_once strip lower replace_char
build_runs = refl

build-IsCanonical_example : IsCanonical report_api
build-IsCanonical_example =
    build-IsCanonical " finance_report/app" "Staging" (some "Report_API") none "v1.2.3" ""
      report_api build_runs
