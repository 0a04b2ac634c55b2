-- ===== src/Execution/Worker/Finish.antt =====
-- `cancelExecution` and `cleanupExecution` of lib/execution/worker-runtime.ts.
use moatazalasrai.Prelude.{ℕ, Bool, true, false, [], ◌∷◌, none, some, if◌then◌else◌}
use moatazalasrai.Execution.Status.{
  Status, same, is_terminal, running, completed, cancel_requested, cancelling, cancelled,
}
use moatazalasrai.Execution.Errors.{ok, refuse_retryable, runner_cancel_failed}
use moatazalasrai.Execution.Schema
use moatazalasrai.Execution.Schema.{Db, Job, Workspace, WorkspaceState, info}
use moatazalasrai.Execution.Db.{add_audit}
use moatazalasrai.Execution.Quota.{parse_limits}
use moatazalasrai.Execution.Transition.{no_patch}
use moatazalasrai.Execution.Events.{append_event}
use moatazalasrai.Execution.Records.{StepUpdate, set_workspace, workspace_stopped, revoke_grants}
use moatazalasrai.Execution.Machine.{
  Env, M, by_option, pure, throw, ◌>>=◌, ◌>>◌, catching, tx, ask, time, from_result,
}
use moatazalasrai.Execution.Worker.Common.{
  JobRecord, is_cancelling, get_job, enqueue_cleanup, change_status, write_step, with_lease,
  selected_runner,
}

cancelled_step : ℕ → StepUpdate
cancelled_step now = record {
  status = "cancelled";
  exit_code = none;
  signal = none;
  error_code = some (some "EXECUTION_CANCELLED");
  started_at = none;
  completed_at = some now;
}

abbrev is_stopped : WorkspaceState → Bool
is_stopped Schema.stopped = true
is_stopped _ = false

module _ (env : Env) (organization id worker : ℕ) where
  -- A transition of the worker, with no patch.
  unfoldable pub advance : Status → Status → M Job
  advance from_status next = change_status env (record {
    organization = organization;
    job = id;
    expected = from_status ∷ [];
    next = next;
    source = "worker";
    level = none;
    patch = no_patch;
  })

  unfoldable pub start_cancelling : JobRecord → M JobRecord
  start_cancelling r =
      if same r.job.status cancel_requested
      then (do _ ← advance cancel_requested cancelling; get_job env organization id)
      else pure r

  -- The runner must confirm that the process has stopped.
  unfoldable pub stop_process : Workspace → M (Unit {0})
  stop_process w = by_option w.external_id (pure tt) λ external. do
    _ ← from_result (parse_limits w.limits)
    _ ← selected_runner env
    catching (ask env (λ o. o.terminate external))
        (λ _. throw (refuse_retryable runner_cancel_failed))

  unfoldable pub end_cancelling : JobRecord → M (Unit {0})
  end_cancelling r =
      if same r.job.status cancelling
      then (do _ ← advance cancelling cancelled; pure tt)
      else pure tt

  unfoldable pub cancel_body : M Job
  unfolding cancelled_step
  cancel_body = do
    first ← get_job env organization id
    if is_terminal first.job.status
        then (do enqueue_cleanup env organization id; pure first.job)
        else (do
          r ← start_cancelling first
          stop_process r.workspace
          end_cancelling r
          now ← time env
          write_step env id (cancelled_step now)
          enqueue_cleanup env organization id
          last ← get_job env organization id
          pure last.job)

  unfoldable pub cancel_execution : M Job
  cancel_execution = with_lease env organization id worker cancel_body

  unfoldable pub destroy_workspace : Workspace → M (Unit {0})
  destroy_workspace w = by_option w.external_id (pure tt) λ external.
      if is_stopped w.state then pure tt else (do
        _ ← from_result (parse_limits w.limits)
        _ ← selected_runner env
        ask env (λ o. o.destroy external)
        tx env λ now. set_workspace organization w.id (workspace_stopped now)
        tx env λ _. append_event organization id "workspace.destroyed" "worker" info)

  -- A job that is being cancelled is cancelled, and a running one is completed.
  unfoldable pub settle : Status → M (Unit {0})
  settle status =
      if is_cancelling status
      then (do _ ← advance status cancelled; pure tt)
      else if same status running
      then (do _ ← advance running completed; pure tt)
      else pure tt

  unfoldable pub cleanup_body : M Job
  cleanup_body = do
    r ← get_job env organization id
    destroy_workspace r.workspace
    tx env λ now. revoke_grants now organization id
    fresh ← get_job env organization id
    settle fresh.job.status
    tx env λ _ db. ok (
      tt,
      add_audit
          (record {
            organization = organization;
            actor = none;
            action = "execution.cleaned";
            resource = id;
          })
          db,
    )
    last ← get_job env organization id
    pure last.job

  unfoldable pub cleanup_execution : M Job
  cleanup_execution = with_lease env organization id worker cleanup_body
