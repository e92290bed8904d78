-- ===== src/SyncRunner.antt =====
-- bootstrap/06.iac_runner/sync_runner.py: what the runner checks out, and which tasks it runs at which
-- commit. Git, the files and the child processes are parameters.
pub mod Environments
pub mod Checkout
pub mod Task
pub mod Sync
pub mod Quiet
pub mod Exact
pub mod Complete
pub mod Diagnosis
pub mod Reports
pub mod Apart
pub mod Examples
use Prim.Native.Char.{Char, code}
use Prim.Native.String.{count}
use infra.Prelude.{String, Bool, Option, ◌&&◌, ◌||◌, ◌==◌, leb}
use infra.Prelude.Dict.{Dict}
use infra.Prelude.Text.{all_chars, is_digit}

abbrev is_hex_digit : Char → Bool
is_hex_digit c =
    is_digit c
    || (leb b'a' (code c) && leb (code c) b'f')
    || (leb b'A' (code c) && leb (code c) b'F')

-- `EXACT_COMMIT_RE`
abbrev pub is_exact_commit : String → Bool
is_exact_commit s = count s == 40 && all_chars is_hex_digit s

-- A child process that runs a task of invoke, and its environment.
pub record Invocation : Type 0 where
  pub task_name : String
  pub env_vars : Dict String
