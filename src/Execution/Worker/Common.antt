-- ===== src/Execution/Worker/Common.antt =====
-- What the tasks of lib/execution/worker-runtime.ts share, with `getExecutionJob` and the lease
-- functions of lib/execution/repository.ts.
use moatazalasrai.Prelude.{
  ℕ, ◌+◌, ◌*◌, Bool, true, false, ◌&&◌, ◌||◌, not, List, [], ◌∷◌, Option, none, some, String, ◌==◌,
  if◌then◌else◌, find_row,
}
use moatazalasrai.Execution.Status.{
  Status, same, one_of, is_terminal, failed, timed_out, cancel_requested, cancelling,
}
use moatazalasrai.Execution.Errors.{
  Result, ok, err, Thrown, execution, ExecutionError, ErrorCode, code_text, as_execution_error,
  refuse, refuse_retryable, not_found, runner_timeout, runner_unavailable, other, need,
}
use moatazalasrai.Execution.Errors
use moatazalasrai.Execution.Schema.{
  Db, Job, Workspace, Task, TaskName, QueueName, error, Level, RunnerKind,
}
use moatazalasrai.Execution.Schema
use moatazalasrai.Execution.Db.{find_job, add_task}
use moatazalasrai.Execution.Transition.{TransitionInput, transition}
use moatazalasrai.Execution.Cancellation.{cancel_task}
use moatazalasrai.Execution.Leases.{acquire_lease, release_lease}
use moatazalasrai.Execution.Records.{StepUpdate, update_step}
use moatazalasrai.Execution.Settings.{lease_ttl_seconds}
use moatazalasrai.Execution.Machine.{
  Env, Health, M, by_option, pure, throw, ◌>>=◌, ◌>>◌, catching, ignoring, finally, tx, query, draw,
  time, ask,
}

-- A row of `getExecutionJob`: the job joined with its workspace.
pub record JobRecord : Type 0 where
  pub job : Job
  pub workspace : Workspace

abbrev has_workspace_id : ℕ → Workspace → Bool
has_workspace_id id w = w.id == id

unfoldable pub get_job_row : ℕ → ℕ → Db → Result JobRecord
get_job_row organization id db =
    Errors.◌>>=◌ (need (find_job organization id db) (refuse not_found)) λ job.
      Errors.◌>>=◌
        (need (find_row (has_workspace_id job.workspace) db.workspaces) (refuse not_found))
        λ workspace. ok (record { job = job; workspace = workspace })

abbrev status_row : ℕ → ℕ → Db → Result (Option Status)
status_row organization id db = elim (find_job organization id db) [
  | none ↦ ok none
  | some job ↦ ok (some job.status)
]

abbrev pub plain_task : TaskName → QueueName → ℕ → ℕ → ℕ → Task
plain_task name queue attempts organization job = record {
  name = name;
  organization = organization;
  job = job;
  queue = queue;
  max_attempts = attempts;
  urgency = 0;
}

-- `record.job.status === "cancel_requested" || record.job.status === "cancelling"`
abbrev pub is_cancelling : Status → Bool
is_cancelling s = same s cancel_requested || same s cancelling

-- `failure.code === "EXECUTION_RUNNER_TIMEOUT"`
abbrev is_timeout : ErrorCode → Bool
is_timeout runner_timeout = true
is_timeout _ = false

failed_step : ErrorCode → ℕ → StepUpdate
failed_step code now = record {
  status = "failed";
  exit_code = none;
  signal = none;
  error_code = some (some (code_text code));
  started_at = none;
  completed_at = some now;
}

abbrev pub failure_status : ExecutionError → Status
failure_status failure = if is_timeout failure.code then timed_out else failed

module _ (env : Env) where
  unfoldable pub get_job : ℕ → ℕ → M JobRecord
  get_job organization id = query env (get_job_row organization id)

  -- `getExecutionJob(…).catch(() => null)`
  unfoldable pub try_get_job : ℕ → ℕ → M (Option JobRecord)
  try_get_job organization id =
      catching (do r ← get_job organization id; pure (some r)) (λ _. pure none)

  unfoldable pub current_status : ℕ → ℕ → M (Option Status)
  current_status organization id = query env (status_row organization id)

  unfoldable pub enqueue : Task → M (Unit {0})
  enqueue t = tx env λ _ db. ok (tt, add_task t db)

  unfoldable pub enqueue_cleanup : ℕ → ℕ → M (Unit {0})
  enqueue_cleanup organization job =
      enqueue (plain_task Schema.cleanup Schema.cleanup_queue 10 organization job)

  unfoldable pub enqueue_cancel : ℕ → ℕ → M (Unit {0})
  enqueue_cancel organization job = enqueue (cancel_task organization job)

  unfoldable pub change_status : TransitionInput → M Job
  change_status input = tx env λ now. transition now input

  unfoldable pub write_step : ℕ → StepUpdate → M (Unit {0})
  write_step job u = tx env λ now. update_step now job u

  -- `acquireExecutionLease`: the hash of the token that was drawn.
  unfoldable pub take_lease : ℕ → ℕ → ℕ → M ℕ
  take_lease organization job worker = do
    token ← draw env
    now ← time env
    tx env λ db_now.
        acquire_lease organization job worker (env.hash token) db_now
          (now + lease_ttl_seconds env.lease_ttl * 1000)
    pure (env.hash token)

  unfoldable pub give_lease : ℕ → ℕ → M (Unit {0})
  give_lease job hash = tx env λ _. release_lease job hash

  -- `try { … } finally { await releaseExecutionLease(…).catch(() => undefined) }`
  unfoldable pub with_lease {ℓ} : {A : Type ℓ} → ℕ → ℕ → ℕ → M A → M A
  with_lease organization job worker body = do
    hash ← take_lease organization job worker
    finally body (give_lease job hash)

  -- `getExecutionRunner`
  unfoldable pub selected_runner : M RunnerKind
  selected_runner = by_option env.runner (throw other) pure

  -- `requireHealthyExecutionRunner`
  unfoldable pub healthy_runner : M Health
  healthy_runner = do
    _ ← selected_runner
    health ← ask env (λ o. o.health)
    if not health.healthy
        then throw (refuse_retryable runner_unavailable)
        else if not
            (health.command && health.files && health.cancellation && health.network_isolation)
        then throw (refuse runner_unavailable)
        else pure health

  -- The transition of `failExecution`, from the status that was just read.
  unfoldable pub fail_transition : ℕ → ℕ → List Status → ExecutionError → String → Status → M Job
  fail_transition organization job expected failure source status = do
    reference ← draw env
    change_status (record {
      organization = organization;
      job = job;
      expected = if one_of expected status then status ∷ [] else expected;
      next = failure_status failure;
      source = source;
      level = some error;
      patch = record {
        error_code = some (code_text failure.code);
        error_reference = some reference;
        attempt_count = none;
      };
    })

  unfoldable pub fail_open :
      ℕ → ℕ → List Status → ExecutionError → String → Option Status → M (Unit {0})
  fail_open organization job expected failure source none = pure tt
  fail_open organization job expected failure source (some status) =
      if is_terminal status
      then pure tt
      else ignoring (fail_transition organization job expected failure source status)

  unfoldable pub fail_execution : ℕ → ℕ → List Status → Thrown → String → M ExecutionError
  unfolding failed_step
  fail_execution organization job expected thrown source = do
    let failure = as_execution_error thrown
    status ← current_status organization job
    fail_open organization job expected failure source status
    now ← time env
    ignoring (write_step job (failed_step failure.code now))
    enqueue_cleanup organization job
    pure failure
