-- ===== src/ProbeRunner.antt =====
-- tools/infra_probe_runner.py: the probes of a group, the alerts that a failing dependency explains,
-- and the fire / resolve state of each alert stream. Times are in one unit.
pub mod Cascade
pub mod Roots
pub mod Streams
pub mod Sends
pub mod Fingerprints
pub mod Cycle
pub mod Partition
pub mod Examples
use infra.Prelude.{
  ℕ, String, Bool, true, false, not, ◌&&◌, ◌||◌, Option, none, some, List, [], ◌∷◌, map, keep_if,
  str_eq, if◌then◌else◌,
}

-- `ProbeSpec` and `ProbeResult` of libs/infra_probes.py, without the fields that no decision reads.
pub record ProbeSpec : Type 0 where
  pub name : String
  pub kind : String
  pub severity : String
  pub depends_on : String

pub record ProbeResult : Type 0 where
  pub spec : ProbeSpec
  pub ok : Bool
  pub summary : String
  pub observed : String

-- `failed_results`
abbrev pub failed_results : List ProbeResult → List ProbeResult
failed_results = keep_if (λ r. not r.ok)
