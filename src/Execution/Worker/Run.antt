-- ===== src/Execution/Worker/Run.antt =====
-- `runExecutionStep` of lib/execution/worker-runtime.ts. The heartbeat that its timer sends while
-- the command runs is a statement of another process.
use moatazalasrai.Prelude.{
  ℕ, ◌+◌, ◌-◌, Bool, true, false, ◌&&◌, ◌||◌, not, List, [], ◌∷◌, ◌++◌, Option, none, some, String,
  if◌then◌else◌, ltb, str_eq, length, ◌==◌,
}
use moatazalasrai.Prelude.Text.{Text}
use moatazalasrai.Execution.Status.{Status, same, is_terminal, running, orphaned, timed_out}
use moatazalasrai.Execution.Errors.{
  ok, Thrown, execution, ExecutionError, as_execution_error, refuse, refuse_retryable,
  workspace_not_ready, runner_protocol_error, runner_timeout, code_text,
}
use moatazalasrai.Execution.Schema
use moatazalasrai.Execution.Schema.{
  Db, Job, Workspace, Summary, Command, info, warn, error, Scenario,
}
use moatazalasrai.Execution.Quota.{parse_limits}
use moatazalasrai.Execution.Transition.{no_patch}
use moatazalasrai.Execution.Events
use moatazalasrai.Execution.Events.{append_event, append_output}
use moatazalasrai.Execution.Records.{StepUpdate, update_usage, set_summary}
use moatazalasrai.Execution.Machine.{
  Env, Report, on_stdout, on_stderr, on_state, CommandResult, M, by_option, pure, throw, ◌>>=◌,
  ◌>>◌, catching, ignoring, tx, ask, draw, time, from_result,
}
use moatazalasrai.Execution.Worker.Common.{
  JobRecord, plain_task, is_cancelling, get_job, try_get_job, current_status, enqueue,
  enqueue_cancel, enqueue_cleanup, change_status, write_step, with_lease, selected_runner,
  fail_execution,
}
use moatazalasrai.Execution.Worker.Diagnostic.{
  expected_output, output_matches, utf8_length, parse_command,
}

-- What a run gives back: nothing, the job as it was read, or the result of the command.
pub data RunOutcome : Type 0 where
  nothing : RunOutcome
  unchanged : Job → RunOutcome
  ran : CommandResult → RunOutcome

-- The texts that are collected from the two streams.
pub record Output : Type 0 where
  pub out : Text
  pub errs : Text

-- `record.job.status === "ready" || record.job.status === "orphaned"`
abbrev is_startable : Status → Bool
is_startable s = same s Status.ready || same s orphaned

abbrev is_cancelling_now : Option Status → Bool
is_cancelling_now none = false
is_cancelling_now (some s) = is_cancelling s

abbrev is_none {ℓ} : {A : Type ℓ} → Option A → Bool
is_none none = true
is_none (some _) = false

abbrev is_sigterm : Option String → Bool
is_sigterm none = false
is_sigterm (some s) = str_eq s "SIGTERM"

-- `result.signal === "SIGTERM" && result.exitCode === null && !result.timedOut`
abbrev was_terminated : CommandResult → Bool
was_terminated r = is_sigterm r.signal && is_none r.exit_code && not r.timed_out

abbrev exited_zero : Option ℕ → Bool
exited_zero none = false
exited_zero (some n) = n == 0

module _ (env : Env) (organization id worker : ℕ) where
  -- `if (Buffer.byteLength(text) < maxOutputBytes) text += …`
  collect_text : ℕ → Text → List ℕ → Text
  collect_text maximum text chunk =
      if ltb (utf8_length text) maximum then text ++ env.to_text chunk else text

  unfoldable pub on_report : ℕ → Output → Report → M Output
  unfolding collect_text
  on_report maximum o (on_stdout chunk) = do
    tx env λ _. append_output env.decode organization id Events.Stream.stdout chunk
    pure (record o { out = collect_text maximum o.out chunk })
  on_report maximum o (on_stderr chunk) = do
    tx env λ _. append_output env.decode organization id Events.Stream.stderr chunk
    pure (record o { errs = collect_text maximum o.errs chunk })
  on_report maximum o (on_state state) =
      if str_eq state "running"
      then pure o
      else (do tx env λ _. append_event organization id "process.terminated" "runner" info; pure o)

  -- The reports of a command, in order.
  unfoldable pub on_reports : ℕ → Output → List Report → M Output
  unfolding on_report
  on_reports maximum o [] = pure o
  on_reports maximum o (r ∷ rs) = do next ← on_report maximum o r; on_reports maximum next rs

  unfoldable pub start_running : JobRecord → M JobRecord
  start_running r =
      if is_startable r.job.status
      then (do
        _ ← change_status env (record {
          organization = organization;
          job = id;
          expected = r.job.status ∷ [];
          next = running;
          source = "worker";
          level = none;
          patch = no_patch;
        })
        get_job env organization id)
      else pure r

  running_step : ℕ → StepUpdate
  running_step now = record {
    status = "running";
    exit_code = none;
    signal = none;
    error_code = some none;
    started_at = some now;
    completed_at = none;
  }

  ended_step : String → Option String → CommandResult → ℕ → StepUpdate
  ended_step status code result at_time = record {
    status = status;
    exit_code = some result.exit_code;
    signal = some result.signal;
    error_code = some code;
    started_at = none;
    completed_at = some at_time;
  }

  -- The command ran into its time limit.
  unfoldable pub time_out : CommandResult → M RunOutcome
  unfolding ended_step
  time_out result = do
    now ← time env
    write_step env id (ended_step "failed" (some (code_text runner_timeout)) result now)
    reference ← draw env
    _ ← change_status env (record {
      organization = organization;
      job = id;
      expected = running ∷ [];
      next = timed_out;
      source = "runner";
      level = some error;
      patch = record {
        error_code = some (code_text runner_timeout);
        error_reference = some reference;
        attempt_count = none;
      };
    })
    enqueue_cleanup env organization id
    pure nothing

  run_summary : Summary → Option Text → Output → Summary
  run_summary old expected o = record old {
    process_verified = some true;
    stdout_verified = some (output_matches expected o.out);
    stderr_observed = some (not (length o.errs == 0));
  }

  -- The command succeeded with the expected output.
  unfoldable pub complete_step : JobRecord → Option Text → Output → CommandResult → M RunOutcome
  unfolding ended_step run_summary
  complete_step r expected o result = do
    write_step env id (ended_step "completed" none result result.completed_at)
    tx env λ _. append_event organization id "step.completed" "runner" info
    tx env λ now. set_summary now organization id (run_summary r.job.summary expected o)
    enqueue env (plain_task Schema.collect_artifacts Schema.run_queue 3 organization id)
    pure (ran result)

  -- After the command: cancellation first, then the time limit, the exit code and the output.
  unfoldable pub judge : JobRecord → Output → CommandResult → Option Status → M RunOutcome
  judge r o result fresh =
      if is_cancelling_now fresh || was_terminated result
      then (do enqueue_cancel env organization id; pure nothing)
      else if result.timed_out
      then time_out result
      else if not (exited_zero result.exit_code)
      then throw (refuse runner_protocol_error)
      else if not (output_matches (expected_output r.job.scenario) o.out)
      then throw (refuse runner_protocol_error)
      else complete_step r (expected_output r.job.scenario) o result

  -- The command runs in the workspace.
  unfoldable pub run_command : JobRecord → ℕ → M RunOutcome
  unfolding running_step
  run_command r external = do
    limits ← from_result (parse_limits r.workspace.limits)
    command ← from_result (parse_command r.job.command)
    _ ← selected_runner env
    started ← time env
    write_step env id (running_step started)
    tx env λ _. append_event organization id "step.started" "worker" info
    (reports, answer) ← ask env (λ o. ok (o.execute external command))
    output ← on_reports limits.max_output_bytes (record { out = []; errs = [] }) reports
    result ← from_result answer
    tx env λ _. update_usage (record {
      organization = organization;
      user = r.job.user;
      job = id;
      stdout_bytes = result.stdout_bytes;
      stderr_bytes = result.stderr_bytes;
      artifact_bytes = 0;
      memory_peak_bytes = 0;
      disk_peak_bytes = 0;
      cpu_milliseconds = result.completed_at - result.started_at;
    })
    fresh ← current_status env organization id
    judge r output result fresh

  unfoldable pub run_ready : JobRecord → M RunOutcome
  run_ready r =
      by_option r.workspace.external_id (throw (refuse_retryable workspace_not_ready)) λ external.
        if same r.job.status running
        then run_command r external
        else throw (refuse_retryable workspace_not_ready)

  unfoldable pub run_body : M RunOutcome
  run_body = do
    first ← get_job env organization id
    if is_terminal first.job.status
        then pure (unchanged first.job)
        else if is_cancelling first.job.status
        then (do enqueue_cancel env organization id; pure (unchanged first.job))
        else (do r ← start_running first; run_ready r)

  -- `record && record.job.attemptCount < record.job.maxAttempts && record.job.status === "running"`
  is_retried : Option JobRecord → Bool
  is_retried none = false
  is_retried (some r) = ltb r.job.attempt_count r.job.max_attempts && same r.job.status running

  attempts_of : Option JobRecord → ℕ
  attempts_of none = 0
  attempts_of (some r) = r.job.attempt_count

  -- The `catch`: a retryable failure of a running job with attempts left orphans the job and is
  -- thrown again; any other fails the execution.
  unfoldable pub orphan_or_fail : ExecutionError → Option JobRecord → M RunOutcome
  unfolding is_retried attempts_of
  orphan_or_fail failure record_now =
      if failure.retryable && is_retried record_now
      then (do
        ignoring (
            change_status env (record {
              organization = organization;
              job = id;
              expected = running ∷ [];
              next = orphaned;
              source = "worker";
              level = some warn;
              patch = record no_patch { attempt_count = some (attempts_of record_now + 1) };
            }))
        throw (execution failure))
      else (do
        _ ←
            fail_execution env organization id (Status.ready ∷ running ∷ orphaned ∷ [])
              (execution failure) "worker"
        pure nothing)

  unfoldable pub run_failed : Thrown → M RunOutcome
  run_failed thrown = do
    record_now ← try_get_job env organization id
    orphan_or_fail (as_execution_error thrown) record_now

  unfoldable pub run_execution_step : M RunOutcome
  run_execution_step = with_lease env organization id worker (catching run_body run_failed)
