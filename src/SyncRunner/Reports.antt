-- ===== src/SyncRunner/Reports.antt =====
-- bootstrap/06.iac_runner/sync_runner.py: how a sync is reported, and `sync_services_by_version`.
use Prim.Native.String.{count}
use infra.Prelude.{
  ℕ, zero, suc, ◌-◌, String, ◌<>◌, Bool, not, ◌&&◌, Option, none, some, List, [], ◌∷◌, map, length,
  leb, ◌≡◌, refl, arith, if◌then◌else◌, Bool-cases, inl, inr,
}
use infra.Prelude.Decimal.{decimal}
use infra.Prelude.Effects.{Run}
use infra.DeployDependencies.{add, add_all}
use infra.SyncRunner.{Invocation}
use infra.SyncRunner.Task.{Host}
use infra.SyncRunner.Sync.{ServiceSyncResult, SyncResult, sync_services}
use infra.SyncRunner.Complete.{counted, succeeded, failed, skipped, success}
use infra.SyncRunner.Diagnosis.{Diagnostic, diagnose_failure}

-- What is left of a text after its first characters.
drop_chars : ℕ → String → String
drop_chars zero s = s
drop_chars (suc n) String.[] = ""
drop_chars (suc n) (String.◌∷◌ c s) = drop_chars n s

-- `_tail_text`; of no characters, `value[-0:]` is all of the text.
unfoldable pub tail_text : (limit : ℕ) → String → String
unfolding drop_chars decimal
tail_text limit value =
    if leb (count value) limit
    then value
    else "...<truncated "
      <> decimal (count value - limit)
      <> " chars>...\n"
      <> (if leb limit 0 then value else drop_chars (count value - limit) value)

-- The texts are those of `to_dict`; `none` in `to_public_dict`.
pub record ServiceReport : Type 0 where
  pub service : String
  pub task : Option String
  pub success : Bool
  pub skipped : Bool
  pub output : Option (String × String)
  pub diagnostic : Option Diagnostic

unfoldable pub diagnostic_of : ServiceSyncResult → Option Diagnostic
unfolding diagnose_failure
diagnostic_of r =
    if not r.success && not r.skipped then some (diagnose_failure r.stderr r.stdout) else none

abbrev service_report : Option (String × String) → ServiceSyncResult → ServiceReport
service_report output r = record {
  service = r.service;
  task = r.task;
  success = r.success;
  skipped = r.skipped;
  output = output;
  diagnostic = diagnostic_of r;
}

unfoldable pub to_public_dict : ServiceSyncResult → ServiceReport
unfolding diagnostic_of
to_public_dict r = service_report none r

unfoldable pub to_dict : (limit : ℕ) → ServiceSyncResult → ServiceReport
unfolding diagnostic_of tail_text
to_dict limit r = service_report (some (tail_text limit r.stdout, tail_text limit r.stderr)) r

pub record FailureSummary : Type 0 where
  pub service : String
  pub task : Option String
  pub diagnostic : Diagnostic

unfoldable pub failure_summary : List ServiceSyncResult → List FailureSummary
unfolding diagnose_failure
failure_summary [] = []
failure_summary (r ∷ results) =
    let rest = failure_summary results in
    if not r.success
    then record {
      service = r.service;
      task = r.task;
      diagnostic = diagnose_failure r.stderr r.stdout;
    }
      ∷ rest
    else rest

pub record SyncReport : Type 0 where
  pub success : Bool
  pub env : String
  pub ref : Option String
  pub requested_services : List String
  pub succeeded : ℕ
  pub failed : ℕ
  pub skipped : ℕ
  pub error : String
  pub failure_summary : List FailureSummary
  pub results : List ServiceReport

-- `SyncResult.to_dict` and `SyncResult.to_public_dict`, from those of the services
unfoldable pub report_with : (ServiceSyncResult → ServiceReport) → SyncResult → SyncReport
unfolding success succeeded failed skipped failure_summary
report_with shown r = record {
  success = success r;
  env = r.env;
  ref = r.ref;
  requested_services = r.requested_services;
  succeeded = succeeded r;
  failed = failed r;
  skipped = skipped r;
  error = r.error;
  failure_summary = failure_summary r.results;
  results = map shown r.results;
}

-- `sync_services_by_version`; no services are the empty set.
unfoldable pub sync_services_by_version :
    Host → (env ref : String) → Option (List String) → Run Invocation SyncResult
unfolding sync_services add
sync_services_by_version host env ref none = sync_services host [] (some ref) env
sync_services_by_version host env ref (some services) =
    sync_services host (add_all services []) (some ref) env

failures_counted :
    (results : List ServiceSyncResult)
    → length (failure_summary results) ≡ counted (λ r. not r.success) results
unfolding failure_summary counted
failures_counted [] = refl
failures_counted (r ∷ results) = elim (Bool-cases r.success) [
  | inl good ↦ rw good (failures_counted results)
  | inr bad ↦ rw bad (omega (arith, failures_counted results))
]

-- The failures that a report lists are as many as it counts.
pub report_with-failed :
    (shown : ServiceSyncResult → ServiceReport) (r : SyncResult)
    → length (report_with shown r).failure_summary ≡ (report_with shown r).failed
unfolding report_with failed
report_with-failed shown r = failures_counted r.results
