-- ===== src/Execution/ToolRuns.antt =====
-- What the runs of tools do to the tables of the kernel: lib/tools/runtime-service.ts and
-- operational-tool-runtime.ts. The table `tool_runs` is not kept: its row is inserted with the job,
-- so that it is there.
pub mod Moves
use moatazalasrai.Prelude.{
  ℕ, ◌≡◌, Bool, true, false, ◌&&◌, not, List, [], ◌∷◌, ◌++◌, Option, none, some, String, ◌==◌,
  str_eq, if◌then◌else◌, find_row, update_rows, or_else,
}
use moatazalasrai.Execution.Status.{queued, running, completed, failed, is_terminal}
use moatazalasrai.Execution.Errors.{Result, ok, err, other, need, ◌>>=◌}
use moatazalasrai.Execution.Schema.{
  Db, Job, JobStep, Workspace, Usage, Event, tool, info, operational_tool, tool_queue,
}
use moatazalasrai.Execution.Db.{Tx, find_job, set_job, is_job, add_task, add_audit}

-- The values that a new job takes from its request and from its settings.
pub record ToolRequest : Type 0 where
  pub row : Job
  pub workspace : Workspace
  pub tool_run : ℕ

-- The row that `createOperationalToolRun` inserts, from one with its ids, its key, its expiry and its
-- attempts. A tool's input is not kept.
unfoldable pub new_tool_job : Job → Job
new_tool_job row = record row {
  kind = tool;
  status = queued;
  summary = record {
    execution_verified = some false;
    required_artifact_count = some 1;
    process_verified = none;
    stdout_verified = none;
    stderr_observed = none;
    artifact_count = none;
  };
  error_code = none;
  error_reference = none;
  attempt_count = 0;
  cancel_requested_at = none;
  started_at = none;
  completed_at = none;
}

abbrev new_tool_step : Job → JobStep
new_tool_step row = record {
  job = row.id;
  sequence = 1;
  status = "queued";
  exit_code = none;
  signal = none;
  error_code = none;
  started_at = none;
  completed_at = none;
  updated_at = row.updated_at;
}

abbrev new_tool_usage : Job → Usage
new_tool_usage row = record {
  organization = row.organization;
  user = row.user;
  job = row.id;
  stdout_bytes = 0;
  stderr_bytes = 0;
  artifact_bytes = 0;
  memory_peak_bytes = 0;
  disk_peak_bytes = 0;
  cpu_milliseconds = 0;
}

abbrev pub new_tool_event : ℕ → ℕ → String → Event
new_tool_event job sequence kind = record {
  job = job;
  sequence = sequence;
  kind = kind;
  source = "api";
  level = info;
}

abbrev has_tool_key : Job → Job → Bool
has_tool_key row j =
    j.organization == row.organization && str_eq j.idempotency_key row.idempotency_key

abbrev pub insert_tool_run : ToolRequest → Db → Db
insert_tool_run request db =
    let row = request.row in
    add_audit
      (record {
        organization = row.organization;
        actor = some row.user;
        action = "tool_run.created";
        resource = request.tool_run;
      })
      (add_task
        (record {
          name = operational_tool;
          organization = row.organization;
          job = row.id;
          queue = tool_queue;
          max_attempts = row.max_attempts;
          urgency = 0;
        })
        (record db {
          workspaces = db.workspaces ++ request.workspace ∷ [];
          jobs = db.jobs ++ new_tool_job row ∷ [];
          steps = db.steps ++ new_tool_step row ∷ [];
          usage = db.usage ++ new_tool_usage row ∷ [];
          events =
              db.events
              ++ new_tool_event row.id 1 "job.created" ∷ new_tool_event row.id 2 "job.queued" ∷ [];
        }))

-- The transaction of `createOperationalToolRun`, which inserts nothing where the key is known.
unfoldable pub create_tool_run : ToolRequest → Db → Db
unfolding new_tool_job
create_tool_run request db = elim (find_row (has_tool_key request.row) db.jobs) [
  | some existing ↦ db
  | none ↦ insert_tool_run request db
]

abbrev is_first : ℕ → JobStep → Bool
is_first job s = s.job == job && s.sequence == 1

abbrev start_step : ℕ → JobStep → JobStep
start_step now s = record s { status = "running"; started_at = some now; updated_at = now }

abbrev completed_step : ℕ → JobStep → JobStep
completed_step now s = record s {
  status = "completed";
  exit_code = some 0;
  completed_at = some now;
  updated_at = now;
}

abbrev fail_step : ℕ → String → JobStep → JobStep
fail_step now code s = record s {
  status = "failed";
  error_code = some code;
  completed_at = some now;
  updated_at = now;
}

unfoldable pub claim_row : ℕ → Option ℕ → Job → Job
claim_row now started j = record j {
  status = running;
  started_at = some (or_else started now);
  updated_at = now;
}

-- `claim`: the answer is whether the tool runs. The status that was read is not a condition of the
-- update.
unfoldable pub claim_tool : ℕ → ℕ → ℕ → Tx Bool
claim_tool organization id now db = do
  job ← need (find_job organization id db) other
  if is_terminal job.status
      then ok (false, db)
      else ok (
        true,
        record (set_job organization job.id (claim_row now job.started_at) db) {
          steps = update_rows (is_first job.id) (start_step now) db.steps;
        },
      )

-- The keys of the tool's own result are not kept.
unfoldable pub finish_row : ℕ → ℕ → Job → Job
finish_row now artifacts j = record j {
  status = completed;
  summary = record {
    execution_verified = some true;
    required_artifact_count = some 1;
    process_verified = none;
    stdout_verified = none;
    stderr_observed = none;
    artifact_count = some artifacts;
  };
  completed_at = some now;
  updated_at = now;
}

-- The transaction of `finish`, whatever the status of the job is by then.
unfoldable pub finish_tool : ℕ → ℕ → ℕ → ℕ → Db → Db
finish_tool organization id now artifacts db =
    record (set_job organization id (finish_row now artifacts) db) {
      steps = update_rows (is_first id) (completed_step now) db.steps;
    }

unfoldable pub fail_row : ℕ → String → Job → Job
fail_row now code j = record j {
  status = failed;
  error_code = some code;
  completed_at = some now;
  updated_at = now;
}

-- The transaction of `fail`, whatever the status of the job is by then.
unfoldable pub fail_tool : ℕ → ℕ → ℕ → String → Db → Db
fail_tool organization id now code db = record (set_job organization id (fail_row now code) db) {
  steps = update_rows (is_first id) (fail_step now code) db.steps;
}
