-- ===== src/Reconcile.antt =====
-- tools/reconcile_iac_inputs.py: which services a release tag redeploys, and what runs them.
pub mod Plan
pub mod Main
pub mod Ready
pub mod Gates
pub mod Examples
use infra.Prelude.{String, Bool, List}

-- A child process that ended; `success` says that its return code is 0.
pub record Completed : Type 0 where
  pub success : Bool
  pub stdout : String
  pub stderr : String

pub record DeployCommand : Type 0 where
  pub service : String
  pub deploy_type : String
  pub argv : List String
