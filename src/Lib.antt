-- ===== src/Lib.antt =====
-- The operational core of infra2: how the repository watches its hosts and deployments, and when
-- it pages, heals and gives up.
--
-- Parts and their interactions. One loop runs for ever: the probe runner (tools/infra_probe_runner.py)
-- runs every group of probes (libs/infra_probes.py), hides the symptoms of a failed dependency,
-- splits the rest into two streams and pages each with hysteresis; between its cycles it ticks the
-- resident watchers (libs/resident_watchers.py). These are the container-breakdown watch
-- (libs/container_breakdown_watch.py over libs/container_breakdown.py and libs/recency.py) and the
-- deploy-queue guard (libs/deploy_queue_guard.py over libs/deploy_queue.py). All alerts carry the
-- labels of libs/service_identity.py. Everything is deployed through the front door (tools/deploy_v2.py), which an
-- app repository reaches by a request (libs/app_deploy_request.py): it resolves the refs
-- (tools/resolve_deploy_ref.py), names the target with libs/deploy_contract.py
-- over libs/deploy_env_config.py, checks its gates and calls a backend: the runner of the platform
-- services (libs/iac_runner_client.py), the preview, or the fixed deploy, which waits for its record
-- with libs/deploy/rollout.py. On the other side of the runner stand its server
-- (bootstrap/06.iac_runner/webhook_server.py), which starts the deployments, and the sync
-- (bootstrap/06.iac_runner/sync_runner.py), which checks the commit out and runs the tasks there. A release tag
-- goes through the front door by
-- tools/reconcile_iac_inputs.py.
--
-- Files and the code they model:
--   Recency             libs/recency.py: `evaluate_consecutive_hysteresis`, its state and the flap test;
--                       Recency/Polls, Streaks and Budget for loops of polls.
--   ContainerBreakdown  libs/container_breakdown.py: from the Docker entries to the alert payload.
--   BreakdownWatch      libs/container_breakdown_watch.py: `run_once`, its two loops, the pruning and
--                       the posts; Refinement has the abstract view, one state for each name,
--                       and Refused the sweeps that raise.
--   ResidentWatchers    libs/resident_watchers.py: `maybe_run`.
--   DeployQueue         libs/deploy_queue.py: timestamps, `find_stuck_deploys`, the alert payload.
--   QueueGuard          libs/deploy_queue_guard.py: `_list_composes`, `_remediate`, `run_once` and
--                       (QueueGuard/EnvFile) `_load_env_file`.
--   ProbeRunner         tools/infra_probe_runner.py: Cascade (the two walks over `depends_on`),
--                       Streams (`_should_send`, `_record_sent`, `_record_resolved`), Cycle (one group
--                       of `run_once`); the records of libs/infra_probes.py. Of the theorems, Partition
--                       has the two streams, Sends what a stream sends, and Fingerprints what
--                       it never sends.
--   Rollout             libs/deploy/rollout.py: `wait_for_deployment`.
--   ServiceIdentity     libs/service_identity.py: `build`, the patterns and the label sets.
--   DeployEnv           libs/deploy_env_config.py: the environments and `preview_alias`.
--   DeployContract      libs/deploy_contract.py: services, deploy types, `make_target`,
--                       `validate_deploy_target` (DeployTypes has the types); Slots, Contract and Derived for the sub-domains.
--   DeployDependencies  libs/deploy_dependencies.py: the fan-out of changed files and its explanation;
--                       Dockerfiles has the coverage audit.
--   RefResolver         tools/resolve_deploy_ref.py: from a ref to a commit and an image.
--   IacRunnerClient     libs/iac_runner_client.py: the trigger of a platform deploy and its poll.
--   DeployFront         tools/deploy_v2.py: Refs (the version ref), Images (the wait for the images; its
--                       Registry asks for a manifest), Calls (arguments, backends, red lines), AppTarget
--                       and Dispatch (`deploy_v2`), Batch (`_deploy_platform_batch`), Cli (`main`).
--   DeployRequest       libs/app_deploy_request.py: Urls and Json (the evidence as it is read), Verify
--                       (`verify_production_evidence`), Plan (`make_plan`), Arguments (what the front
--                       door reads of a plan).
--   Webhook             bootstrap/06.iac_runner/webhook_server.py: the signatures; Deploys (the state of
--                       the deployments), Handlers (`version_deploy`), Status (`deployment_status`), Hooks (health,
--                       push and legacy sync).
--   SyncRunner          bootstrap/06.iac_runner/sync_runner.py: Environments (`deploy_env_overrides`),
--                       Checkout (`update_repo`), Task (`run_invoke_task`), Sync (`sync_services`),
--                       Complete (its counts), Diagnosis (`diagnose_failure`), Reports (the dicts).
--   Reconcile           tools/reconcile_iac_inputs.py: Plan (`build_plan`, `build_deploy_commands`), Main
--                       (the guard, the runs of the commands, `main`).
--   Prelude             the shared lists, dicts and texts.
--
-- Conventions. A mutated dict or object is passed in and out. A call of the Docker API, of Dokploy
-- or of the alert bridge is an input (its answer, `none` if it raises) or an event of the output. An
-- exception is `none` of an Option or a constructor of an outcome. Times are natural seconds, but in
-- the wait for the images, whose numbers are floats in the source, natural ticks: a second has as many
-- as the times of the run need to be whole, and that float sums are rounded is left out. The
-- clock of a run is the list of its times. A dict is an association list in the order of insertion.
--
-- Bounds and fuel. The walks over `depends_on` have a round for each failed probe and one more: each
-- round adds a failed name to `seen` or ends the walk. The loop of `wait_for_deployment` has a round
-- for each second of the timeout and one more, enough if the clock moves by at least 1 between two
-- attempts. The wait for the images has a round for each tick it may last and one more, enough since
-- each round but the last sleeps for an interval, which is a tick at least, or until the deadline.
--
-- Not modelled. HTTP, Docker, SSH, Vault and file access are inputs and outputs only. What
-- `datetime.fromisoformat` and `float` accept, the hash of a failure fingerprint, and the registry's tables of
-- container hosts and of services are parameters. Logging has no effect on the state and is left
-- out. Case mapping, white space and digits are those of ASCII, and a glob has no bracket. A
-- deployment that is dated in the future has the age 0, which like a negative one is not above the
-- ceiling. The types of infra2_sdk are records of what is read of them. Of argparse, the model has options
-- with one value and flags. The backends of previews and fixed deploys and the audits
-- are not modelled.
pub mod BreakdownWatch
pub mod ContainerBreakdown
pub mod DeployContract
pub mod DeployDependencies
pub mod DeployEnv
pub mod DeployFront
pub mod DeployQueue
pub mod DeployRequest
pub mod IacRunnerClient
pub mod Prelude
pub mod ProbeRunner
pub mod QueueGuard
pub mod Recency
pub mod Reconcile
pub mod RefResolver
pub mod ResidentWatchers
pub mod Rollout
pub mod ServiceIdentity
pub mod SyncRunner
pub mod Webhook
