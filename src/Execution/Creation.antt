-- ===== src/Execution/Creation.antt =====
-- `createDiagnosticExecution` of lib/execution/service.ts, with `defaultNetworkPolicy` of
-- network-policy-service.ts and `selectedRunnerKind` of runner-registry.ts.
pub mod Laws
use moatazalasrai.Prelude.{
  ℕ, ◌+◌, ◌*◌, Bool, true, false, ◌&&◌, List, [], ◌∷◌, ◌++◌, Option, none, some, String, ◌==◌,
  str_eq, if◌then◌else◌, find_row,
}
use moatazalasrai.Prelude.Text.{Text, codes}
use moatazalasrai.Execution.Status.{queued}
use moatazalasrai.Execution.Errors.{
  Result, ok, err, ◌>>=◌, ◌>>◌, guard, need, refuse, other, kernel_disabled,
}
use moatazalasrai.Execution.Schema.{
  diagnostic, Db, Job, JobStep, Workspace, Usage, Event, Task, Limits, NetworkPolicy, Command,
  RunnerKind, Scenario, Summary, deny_all, allowlist, info, provision_queue,
}
use moatazalasrai.Execution.Schema
use moatazalasrai.Execution.Db.{Tx, add_task, add_audit}
use moatazalasrai.Execution.Settings.{Setting, in_range}
use moatazalasrai.Execution.Quota.{LimitSettings, platform_limits}
use moatazalasrai.Execution.Network.Policy.{parse_policy}
use moatazalasrai.Execution.Cancellation.{Actor}
use moatazalasrai.Execution.Validation.{CommandRequest, diagnostic_command}
use moatazalasrai.Execution.Worker.Diagnostic.{expected_artifact}

-- What the creation reads from the environment; `runner` is none where the setting names no runner.
pub record CreateSettings : Type 0 where
  pub enabled : Bool
  pub limits : LimitSettings
  pub open_network : Bool
  pub runner : Option RunnerKind
  pub workspace_ttl : Setting

unfoldable pub default_policy : Bool → Result NetworkPolicy
default_policy open_network = parse_policy (record {
  mode = if open_network then allowlist else deny_all;
  allowed_hosts = [];
  allowed_ports = [];
  allow_dns = false;
  allowed_methods = codes "GET" ∷ codes "HEAD" ∷ [];
  max_requests = 0;
})

-- What is computed before the transaction.
pub record Prepared : Type 0 where
  pub limits : Limits
  pub policy : NetworkPolicy
  pub runner : RunnerKind
  pub request : CommandRequest

unfoldable pub prepare : CreateSettings → Scenario → Result Prepared
unfolding default_policy
prepare s scenario = do
  guard s.enabled (refuse kernel_disabled)
  limits ← platform_limits s.limits
  policy ← default_policy s.open_network
  runner ← need s.runner other
  request ← diagnostic_command scenario limits
  ok (record { limits = limits; policy = policy; runner = runner; request = request })

-- The ids and the time that the transaction takes.
pub record Drawn : Type 0 where
  pub workspace : ℕ
  pub job : ℕ
  pub now : ℕ

abbrev expiry : CreateSettings → Drawn → ℕ
expiry s d = d.now + in_range 1800 60 86400 s.workspace_ttl * 1000

unfoldable pub new_workspace : CreateSettings → Prepared → Actor → Drawn → Workspace
new_workspace s p actor d = record {
  id = d.workspace;
  organization = actor.organization;
  user = actor.user;
  runner_kind = p.runner;
  external_id = none;
  state = Schema.WorkspaceState.provisioning;
  network_policy = p.policy;
  limits = p.limits;
  provisioned_at = none;
  last_heartbeat_at = none;
  expires_at = expiry s d;
  destroyed_at = none;
  updated_at = d.now;
}

abbrev required_count : Scenario → ℕ
required_count scenario = elim (expected_artifact scenario) [ none ↦ 0 | some _ ↦ 1 ]

unfoldable pub new_job : CreateSettings → Scenario → Prepared → Actor → String → Drawn → Job
new_job s scenario p actor key d = record {
  id = d.job;
  organization = actor.organization;
  user = actor.user;
  workspace = d.workspace;
  kind = diagnostic;
  status = queued;
  idempotency_key = key;
  scenario = scenario;
  command = p.request.command;
  summary = record {
    execution_verified = some false;
    required_artifact_count = some (required_count scenario);
    process_verified = none;
    stdout_verified = none;
    stderr_observed = none;
    artifact_count = none;
  };
  error_code = none;
  error_reference = none;
  attempt_count = 0;
  max_attempts = 3;
  cancel_requested_at = none;
  started_at = none;
  completed_at = none;
  expires_at = expiry s d;
  updated_at = d.now;
}

unfoldable pub new_step : Drawn → JobStep
new_step d = record {
  job = d.job;
  sequence = 1;
  status = "queued";
  exit_code = none;
  signal = none;
  error_code = none;
  started_at = none;
  completed_at = none;
  updated_at = d.now;
}

unfoldable pub new_usage : Actor → Drawn → Usage
new_usage actor d = record {
  organization = actor.organization;
  user = actor.user;
  job = d.job;
  stdout_bytes = 0;
  stderr_bytes = 0;
  artifact_bytes = 0;
  memory_peak_bytes = 0;
  disk_peak_bytes = 0;
  cpu_milliseconds = 0;
}

abbrev new_event : ℕ → ℕ → String → Event
new_event job sequence kind = record {
  job = job;
  sequence = sequence;
  kind = kind;
  source = "api";
  level = info;
}

-- The rows that the transaction inserts, and the task that it enqueues.
unfoldable pub insert_execution :
    CreateSettings → Scenario → Prepared → Actor → String → Drawn → Db → Db
unfolding new_workspace new_job new_step new_usage
insert_execution s scenario p actor key d db =
    add_audit
      (record {
        organization = actor.organization;
        actor = some actor.user;
        action = "execution.created";
        resource = d.job;
      })
      (add_task
        (record {
          name = Schema.provision;
          organization = actor.organization;
          job = d.job;
          queue = provision_queue;
          max_attempts = 3;
          urgency = 0;
        })
        (record db {
          workspaces = db.workspaces ++ new_workspace s p actor d ∷ [];
          jobs = db.jobs ++ new_job s scenario p actor key d ∷ [];
          steps = db.steps ++ new_step d ∷ [];
          usage = db.usage ++ new_usage actor d ∷ [];
          events =
              db.events ++ new_event d.job 1 "job.created" ∷ new_event d.job 2 "job.queued" ∷ [];
        }))

pub record CreateReply : Type 0 where
  pub job : Job
  pub duplicate : Bool

-- `eq(organizationId) and eq(idempotencyKey)`
abbrev pub has_key : ℕ → String → Job → Bool
has_key organization key j = j.organization == organization && str_eq j.idempotency_key key

-- A job with the key is given back; without one, a new job is.
unfoldable pub create_with :
    CreateSettings
    → Scenario
    → Prepared
    → Actor
    → String
    → Drawn
    → Option Job
    → Db
    → CreateReply × Db
unfolding insert_execution
create_with s scenario p actor key d (some existing) db =
    (record { job = existing; duplicate = true }, db)
create_with s scenario p actor key d none db = (
  record { job = new_job s scenario p actor key d; duplicate = false },
  insert_execution s scenario p actor key d db,
)

-- The advisory lock keeps two transactions with the same key apart.
unfoldable pub create_execution :
    CreateSettings → Scenario → Actor → String → Drawn → Tx CreateReply
unfolding prepare create_with
create_execution s scenario actor key d db = do
  p ← prepare s scenario
  ok (create_with s scenario p actor key d (find_row (has_key actor.organization key) db.jobs) db)
