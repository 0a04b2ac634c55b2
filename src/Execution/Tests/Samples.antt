-- ===== src/Execution/Tests/Samples.antt =====
-- A small database, a worker's environment, and a policy, for the tests of lib/execution.
use moatazalasrai.Prelude.{ℕ, false, [], ◌∷◌, none, some, ◌+◌}
use moatazalasrai.Prelude.Text.{codes}
use moatazalasrai.Execution.Status.{Status, queued, completed}
use moatazalasrai.Execution.Errors.{ok, err, other}
use moatazalasrai.Execution.Schema.{
  diagnostic, Db, Job, Lease, Workspace, Limits, NetworkPolicy, Command, Summary, Event, info,
  empty_db, deny_all, existing, success,
}
use moatazalasrai.Execution.Schema
use moatazalasrai.Execution.Settings.{unset}
use moatazalasrai.Execution.Machine.{Env, Outside, World}

abbrev pub limits : Limits
limits = record {
  timeout_ms = 300000;
  cpu_millis = some 300000;
  memory_bytes = 536870912;
  disk_bytes = 1073741824;
  max_processes = 64;
  max_output_bytes = 5242880;
  max_artifact_bytes = 104857600;
  max_network_bytes = some 0;
  max_files = 5000;
  max_single_file_bytes = 26214400;
}

abbrev pub closed_network : NetworkPolicy
closed_network = record {
  mode = deny_all;
  allowed_hosts = [];
  allowed_ports = [];
  allow_dns = false;
  allowed_methods = [];
  max_requests = 0;
}

abbrev pub no_summary : Summary
no_summary = record {
  execution_verified = none;
  required_artifact_count = none;
  process_verified = none;
  stdout_verified = none;
  stderr_observed = none;
  artifact_count = none;
}

-- A job of organization 7 and user 5, in a status.
abbrev pub job_in : ℕ → Status → Job
job_in id status = record {
  id = id;
  organization = 7;
  user = 5;
  workspace = 20;
  kind = diagnostic;
  status = status;
  idempotency_key = "key";
  scenario = success;
  command = record { argv = codes "node" ∷ []; cwd = codes "/workspace"; timeout_ms = 1000 };
  summary = no_summary;
  error_code = none;
  error_reference = none;
  attempt_count = 0;
  max_attempts = 3;
  cancel_requested_at = none;
  started_at = none;
  completed_at = none;
  expires_at = 900000;
  updated_at = 0;
}

abbrev pub workspace : Workspace
workspace = record {
  id = 20;
  organization = 7;
  user = 5;
  runner_kind = existing;
  external_id = none;
  state = Schema.WorkspaceState.provisioning;
  network_policy = closed_network;
  limits = limits;
  provisioned_at = none;
  last_heartbeat_at = none;
  expires_at = 900000;
  destroyed_at = none;
  updated_at = 0;
}

abbrev pub event : ℕ → ℕ → Event
event job sequence = record {
  job = job;
  sequence = sequence;
  kind = "job.queued";
  source = "api";
  level = info;
}

-- Job 1 is queued, job 2 has completed.
abbrev pub db : Db
db = record empty_db {
  jobs = job_in 1 queued ∷ job_in 2 completed ∷ [];
  workspaces = workspace ∷ [];
  events = event 1 1 ∷ event 2 1 ∷ event 1 2 ∷ [];
}

-- The worker whose token has hash 11 holds job 1 until time 100.
abbrev pub lease : Lease
lease = record {
  job = 1;
  worker = 3;
  token_hash = 11;
  acquired_at = 10;
  heartbeat_at = 10;
  expires_at = 100;
}

abbrev pub leased_db : Db
leased_db = record db { leases = lease ∷ [] }

-- A runner and a storage that answer everything with an error but the removal of workspaces.
abbrev pub broken : Outside
broken = record {
  health = err other;
  create = λ _. err other;
  execute = λ _ _. ([], err other);
  list_files = λ _. err other;
  download = λ _ _. err other;
  terminate = λ _. ok tt;
  destroy = λ _. ok tt;
  put_object = λ _. err other;
}

-- An environment in which no other process runs.
abbrev pub env : Env
env = record {
  clock = λ n. 1000 + n;
  random = λ n. n;
  others = λ _. [];
  outside = λ _. broken;
  hash = λ n. n;
  decode = λ bytes. bytes;
  to_text = λ bytes. bytes;
  runner = some existing;
  lease_ttl = unset;
  reconcile_grace = unset;
}

abbrev pub world : World
world = record { db = db; tick = 0 }
