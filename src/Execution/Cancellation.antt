-- ===== src/Execution/Cancellation.antt =====
-- `requestExecutionCancellation` of lib/execution/cancellation-service.ts.
pub mod Laws
use moatazalasrai.Prelude.{
  ℕ, Bool, true, false, ◌&&◌, ◌||◌, not, List, [], ◌∷◌, Option, none, some, ◌==◌, if◌then◌else◌,
  find_row, update_rows, or_else,
}
use moatazalasrai.Execution.Status.{
  Status, same, one_of, is_terminal, queued, provisioning, ready, running, waiting_for_input,
  waiting_for_approval, cancel_requested, cancelling, orphaned,
}
use moatazalasrai.Execution.Errors.{
  Result, ok, err, ◌>>=◌, ◌>>◌, guard, need, refuse, not_found, invalid_transition,
}
use moatazalasrai.Execution.Schema.{Db, Job, Task, warn, cancel, cleanup_queue}
use moatazalasrai.Execution.Db.{Tx, is_job, insert_event, add_task, add_audit}

-- `ExecutionActor`; `member` is `role === "member"`.
pub record Actor : Type 0 where
  pub organization : ℕ
  pub user : ℕ
  pub member : Bool

-- A member sees the jobs of its own only.
abbrev pub may_see : Actor → ℕ → Job → Bool
may_see actor id j = is_job actor.organization id j && (not actor.member || j.user == actor.user)

pub record CancelReply : Type 0 where
  pub job : Job
  pub accepted : Bool
  pub terminal : Bool

abbrev pub cancel_task : ℕ → ℕ → Task
cancel_task organization job = record {
  name = cancel;
  organization = organization;
  job = job;
  queue = cleanup_queue;
  max_attempts = 5;
  urgency = 0;
}

unfoldable pub cancel_row : ℕ → Job → Job
cancel_row now job = record job {
  status = cancel_requested;
  cancel_requested_at = some (or_else job.cancel_requested_at now);
  updated_at = now;
}

-- The statuses that the guarded update accepts.
unfoldable pub is_cancellable : Status → Bool
is_cancellable s =
    one_of
      (queued ∷ provisioning ∷ ready ∷ running ∷ waiting_for_input ∷ waiting_for_approval ∷ orphaned
        ∷ [])
      s

-- The condition of the update.
abbrev is_target : ℕ → ℕ → Job → Bool
is_target organization id j = is_job organization id j && is_cancellable j.status

-- The update, the event, the task of priority -10, and the audit row.
unfoldable pub write_cancellation : ℕ → Actor → Job → Db → Db
write_cancellation now actor job db =
    add_audit
      (record {
        organization = actor.organization;
        actor = some actor.user;
        action = "execution.cancel_requested";
        resource = job.id;
      })
      (add_task (record (cancel_task actor.organization job.id) { urgency = 10 })
        (insert_event job.id "cancel.requested" "api" warn (record db {
          jobs = update_rows (is_target actor.organization job.id) (cancel_row now) db.jobs;
        })))

unfoldable pub request_cancellation : ℕ → Actor → ℕ → Tx CancelReply
unfolding write_cancellation is_cancellable cancel_row
request_cancellation now actor id db = do
  job ← need (find_row (may_see actor id) db.jobs) (refuse not_found)
  if is_terminal job.status
      then ok (record { job = job; accepted = false; terminal = true }, db)
      else if same job.status cancel_requested || same job.status cancelling
      then ok (record { job = job; accepted = true; terminal = false }, db)
      else do
        guard (is_cancellable job.status) (refuse invalid_transition)
        ok (
          record { job = cancel_row now job; accepted = true; terminal = false },
          write_cancellation now actor job db,
        )
