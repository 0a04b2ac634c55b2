-- ===== src/Execution/Worker/Provision.antt =====
-- `provisionExecution` of lib/execution/worker-runtime.ts.
use moatazalasrai.Prelude.{
  ℕ, ◌+◌, Bool, false, ◌&&◌, [], ◌∷◌, Option, none, some, if◌then◌else◌, ltb,
}
use moatazalasrai.Execution.Status.{Status, same, is_terminal, queued, provisioning, orphaned}
use moatazalasrai.Execution.Errors.{Thrown, execution, ExecutionError, as_execution_error}
use moatazalasrai.Execution.Schema
use moatazalasrai.Execution.Schema.{Db, Job, Workspace, warn}
use moatazalasrai.Execution.Quota.{parse_limits}
use moatazalasrai.Execution.Network.Policy.{parse_policy}
use moatazalasrai.Execution.Transition.{no_patch}
use moatazalasrai.Execution.Events.{append_event}
use moatazalasrai.Execution.Records.{set_workspace, workspace_ready}
use moatazalasrai.Execution.Machine.{
  Env, M, by_option, pure, throw, ◌>>=◌, ◌>>◌, catching, ignoring, tx, ask, from_result,
}
use moatazalasrai.Execution.Worker.Common.{
  JobRecord, plain_task, is_cancelling, get_job, enqueue, enqueue_cancel, change_status, with_lease,
  healthy_runner, fail_execution, try_get_job,
}

-- `record && record.job.attemptCount < record.job.maxAttempts`
abbrev has_attempts : Option JobRecord → Bool
has_attempts none = false
has_attempts (some r) = ltb r.job.attempt_count r.job.max_attempts

module _ (env : Env) (organization id worker : ℕ) where
  -- `queued` to `provisioning`, with one more attempt; the job is read again.
  unfoldable pub start_provisioning : JobRecord → M JobRecord
  start_provisioning r =
      if same r.job.status queued
      then (do
        _ ← change_status env (record {
          organization = organization;
          job = id;
          expected = queued ∷ [];
          next = provisioning;
          source = "worker";
          level = none;
          patch = record no_patch { attempt_count = some (r.job.attempt_count + 1) };
        })
        get_job env organization id)
      else pure r

  -- The workspace that there is, or a new one.
  unfoldable pub ensure_workspace : Workspace → M ℕ
  ensure_workspace w =
      by_option w.external_id (ask env (λ o. o.create w)) (λ external. pure external)

  -- From `provisioning` to `ready`: the workspace, its row, the transition, and the next task.
  unfoldable pub make_ready : JobRecord → M (Option Job)
  make_ready r = do
    _ ← from_result (parse_limits r.workspace.limits)
    _ ← from_result (parse_policy r.workspace.network_policy)
    _ ← healthy_runner env
    external ← ensure_workspace r.workspace
    tx env λ now. set_workspace organization r.workspace.id (workspace_ready now external)
    _ ← change_status env (record {
      organization = organization;
      job = id;
      expected = provisioning ∷ [];
      next = Status.ready;
      source = "worker";
      level = none;
      patch = no_patch;
    })
    enqueue env (plain_task Schema.run_step Schema.run_queue r.job.max_attempts organization id)
    fresh ← get_job env organization id
    pure (some fresh.job)

  unfoldable pub provision_body : M (Option Job)
  provision_body = do
    first ← get_job env organization id
    if is_terminal first.job.status
        then pure (some first.job)
        else if is_cancelling first.job.status
        then (do enqueue_cancel env organization id; pure (some first.job))
        else (do
          r ← start_provisioning first
          if same r.job.status provisioning then make_ready r else pure (some r.job))

  -- The `catch`: a retryable failure with attempts left is recorded and thrown again for the queue
  -- to retry; any other fails the execution.
  unfoldable pub retry_or_fail : ExecutionError → Option JobRecord → M (Option Job)
  retry_or_fail failure record_now =
      if failure.retryable && has_attempts record_now
      then (do
        ignoring (tx env λ _. append_event organization id "job.failed" "worker" warn)
        throw (execution failure))
      else (do
        _ ←
            fail_execution env organization id (queued ∷ provisioning ∷ orphaned ∷ [])
              (execution failure) "worker"
        pure none)

  unfoldable pub provision_failed : Thrown → M (Option Job)
  provision_failed thrown = do
    record_now ← try_get_job env organization id
    retry_or_fail (as_execution_error thrown) record_now

  unfoldable pub provision_execution : M (Option Job)
  provision_execution =
      with_lease env organization id worker (catching provision_body provision_failed)
