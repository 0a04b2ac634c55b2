-- ===== src/Execution/Schema.antt =====
-- The tables of db/execution-schema.ts that the kernel reads and writes, and the value objects of
-- lib/execution/contracts.ts. A table is the list of its rows in the order of insertion; an id, a
-- token and a hash are numbers; a time is a number of milliseconds. Columns that the kernel only
-- stores (metadata, createdAt) are left out, and so are the columns of the usage table that no
-- kernel code writes.
use moatazalasrai.Prelude.{ℕ, Bool, String, Option, List, []}
use moatazalasrai.Prelude.Text.{Text}
use moatazalasrai.Execution.Status.{Status}

-- `WorkspaceState`
pub data WorkspaceState : Type 0 where
  provisioning ready running paused stopping stopped failed : WorkspaceState

-- `RunnerKind`
pub data RunnerKind : Type 0 where
  existing gvisor e2b daytona : RunnerKind

-- `DiagnosticScenario`
pub data Scenario : Type 0 where
  success failure timeout secrets : Scenario

-- `ExecutionLimits`
pub record Limits : Type 0 where
  pub timeout_ms : ℕ
  pub cpu_millis : Option ℕ
  pub memory_bytes : ℕ
  pub disk_bytes : ℕ
  pub max_processes : ℕ
  pub max_output_bytes : ℕ
  pub max_artifact_bytes : ℕ
  pub max_network_bytes : Option ℕ
  pub max_files : ℕ
  pub max_single_file_bytes : ℕ

pub data NetworkMode : Type 0 where
  deny_all allowlist : NetworkMode

-- `NetworkPolicy`
pub record NetworkPolicy : Type 0 where
  pub mode : NetworkMode
  pub allowed_hosts : List Text
  pub allowed_ports : List ℕ
  pub allow_dns : Bool
  pub allowed_methods : List Text
  pub max_requests : ℕ

-- What `normalizedInput` keeps of the command.
pub record Command : Type 0 where
  pub argv : List Text
  pub cwd : Text
  pub timeout_ms : ℕ

-- `resultSummary`: a key that is not there is `none`.
pub record Summary : Type 0 where
  pub execution_verified : Option Bool
  pub required_artifact_count : Option ℕ
  pub process_verified : Option Bool
  pub stdout_verified : Option Bool
  pub stderr_observed : Option Bool
  pub artifact_count : Option ℕ

-- `executionWorkspaces`
pub record Workspace : Type 0 where
  pub id : ℕ
  pub organization : ℕ
  pub user : ℕ
  pub runner_kind : RunnerKind
  pub external_id : Option ℕ
  pub state : WorkspaceState
  pub network_policy : NetworkPolicy
  pub limits : Limits
  pub provisioned_at : Option ℕ
  pub last_heartbeat_at : Option ℕ
  pub expires_at : ℕ
  pub destroyed_at : Option ℕ
  pub updated_at : ℕ

-- `kind`: the kind of a command of the kernel, or `tool.` with the id of a tool.
pub data JobKind : Type 0 where
  diagnostic tool : JobKind

-- `executionJobs`
pub record Job : Type 0 where
  pub id : ℕ
  pub organization : ℕ
  pub user : ℕ
  pub workspace : ℕ
  pub kind : JobKind
  pub status : Status
  pub idempotency_key : String
  pub scenario : Scenario
  pub command : Command
  pub summary : Summary
  pub error_code : Option String
  pub error_reference : Option ℕ
  pub attempt_count : ℕ
  pub max_attempts : ℕ
  pub cancel_requested_at : Option ℕ
  pub started_at : Option ℕ
  pub completed_at : Option ℕ
  pub expires_at : ℕ
  pub updated_at : ℕ

-- `executionSteps`
pub record JobStep : Type 0 where
  pub job : ℕ
  pub sequence : ℕ
  pub status : String
  pub exit_code : Option ℕ
  pub signal : Option String
  pub error_code : Option String
  pub started_at : Option ℕ
  pub completed_at : Option ℕ
  pub updated_at : ℕ

pub data Level : Type 0 where
  debug info warn error : Level

-- `executionEvents`; the payload is not kept.
pub record Event : Type 0 where
  pub job : ℕ
  pub sequence : ℕ
  pub kind : String
  pub source : String
  pub level : Level

-- `executionArtifacts`
pub record Artifact : Type 0 where
  pub organization : ℕ
  pub job : ℕ
  pub storage_key : ℕ
  pub size_bytes : ℕ

-- `executionLeases`
pub record Lease : Type 0 where
  pub job : ℕ
  pub worker : ℕ
  pub token_hash : ℕ
  pub acquired_at : ℕ
  pub heartbeat_at : ℕ
  pub expires_at : ℕ

-- `executionCredentialGrants`
pub record Grant : Type 0 where
  pub id : ℕ
  pub organization : ℕ
  pub job : ℕ
  pub credential : ℕ
  pub allowed_hosts : List Text
  pub allowed_operations : List Text
  pub token_hash : ℕ
  pub expires_at : ℕ
  pub revoked_at : Option ℕ

-- `executionUsage`
pub record Usage : Type 0 where
  pub organization : ℕ
  pub user : ℕ
  pub job : ℕ
  pub stdout_bytes : ℕ
  pub stderr_bytes : ℕ
  pub artifact_bytes : ℕ
  pub memory_peak_bytes : ℕ
  pub disk_peak_bytes : ℕ
  pub cpu_milliseconds : ℕ

-- The columns of `providerCredentials` that an issued grant depends on.
pub record Credential : Type 0 where
  pub id : ℕ
  pub organization : ℕ
  pub enabled : Bool
  pub verified : Bool

-- A row that the kernel adds to `auditLogs`.
pub record Audit : Type 0 where
  pub organization : ℕ
  pub actor : Option ℕ
  pub action : String
  pub resource : ℕ

pub data TaskName : Type 0 where
  provision run_step collect_artifacts cancel cleanup operational_tool : TaskName

pub data QueueName : Type 0 where
  provision_queue run_queue cleanup_queue tool_queue : QueueName

-- The arguments of one call of `graphile_worker.add_job`; the job key is determined by the task
-- and the job. `urgency` is the priority negated.
pub record Task : Type 0 where
  pub name : TaskName
  pub organization : ℕ
  pub job : ℕ
  pub queue : QueueName
  pub max_attempts : ℕ
  pub urgency : ℕ

-- The database as the kernel sees it. `tasks` lists the calls of `add_job`, newest last.
pub record Db : Type 0 where
  pub jobs : List Job
  pub workspaces : List Workspace
  pub steps : List JobStep
  pub events : List Event
  pub artifacts : List Artifact
  pub leases : List Lease
  pub grants : List Grant
  pub usage : List Usage
  pub credentials : List Credential
  pub tasks : List Task
  pub audits : List Audit

abbrev pub empty_db : Db
empty_db = record {
  jobs = [];
  workspaces = [];
  steps = [];
  events = [];
  artifacts = [];
  leases = [];
  grants = [];
  usage = [];
  credentials = [];
  tasks = [];
  audits = [];
}
