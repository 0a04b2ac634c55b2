-- ===== src/Execution/Transition.antt =====
-- `transitionExecutionStatus` and `assertCompletionEvidence` of lib/execution/states.ts. The row
-- is locked by `for update`, so the guarded update finds the status that was read.
pub mod Laws
use moatazalasrai.Prelude.{
  ℕ, ◌≡◌, Bool, true, false, ◌&&◌, not, List, [], ◌∷◌, Option, none, some, String, ◌==◌, ltb,
  str_eq, if◌then◌else◌, find_row, select_rows, update_rows, length, or_else,
}
use moatazalasrai.Execution.Status.{
  Status, same, one_of, is_terminal, can_transition, transition_event, running, completed, failed,
}
use moatazalasrai.Execution.Errors.{
  Result, ok, err, ◌>>=◌, ◌>>◌, guard, need, refuse, not_found, terminal, invalid_transition,
}
use moatazalasrai.Execution.Schema.{Db, Job, JobStep, Artifact, Summary, Level, info, error}
use moatazalasrai.Execution.Db.{Tx, is_job, find_job, set_job, insert_event}

-- The columns that a caller may set beside the status; `none` is a key that is not given.
pub record Patch : Type 0 where
  pub error_code : Option String
  pub error_reference : Option ℕ
  pub attempt_count : Option ℕ

abbrev pub no_patch : Patch
no_patch = record { error_code = none; error_reference = none; attempt_count = none }

-- The argument of `transitionExecutionStatus`.
pub record TransitionInput : Type 0 where
  pub organization : ℕ
  pub job : ℕ
  pub expected : List Status
  pub next : Status
  pub source : String
  pub level : Option Level
  pub patch : Patch

abbrev pub keep {ℓ} : {A : Type ℓ} → Option A → Option A → Option A
keep none old = old
keep (some a) old = some a

-- `ne(executionSteps.status, "completed")` among the steps of a job.
abbrev pub is_incomplete : ℕ → JobStep → Bool
is_incomplete job s = s.job == job && not (str_eq s.status "completed")

abbrev pub is_artifact_of : ℕ → Artifact → Bool
is_artifact_of job a = a.job == job

abbrev is_true : Option Bool → Bool
is_true none = false
is_true (some b) = b

unfoldable pub assert_completion_evidence : Db → Job → Result (Unit {0})
assert_completion_evidence db job = do
  guard (not (ltb 0 (length (select_rows (is_incomplete job.id) db.steps))))
      (refuse invalid_transition)
  guard (is_true job.summary.execution_verified) (refuse invalid_transition)
  let required = or_else job.summary.required_artifact_count 0
  guard
      (not (
        ltb 0 required && ltb (length (select_rows (is_artifact_of job.id) db.artifacts)) required))
      (refuse invalid_transition)

-- The row that the update writes.
unfoldable pub transition_row : ℕ → TransitionInput → Job → Job
transition_row now input job = record job {
  status = input.next;
  updated_at = now;
  started_at =
      if same input.next running then some (or_else job.started_at now) else job.started_at;
  completed_at = if is_terminal input.next then some now else job.completed_at;
  error_code = keep input.patch.error_code job.error_code;
  error_reference = keep input.patch.error_reference job.error_reference;
  attempt_count = or_else input.patch.attempt_count job.attempt_count;
}

-- The checks that stand before the update, in the source's order.
unfoldable pub check_transition : TransitionInput → Db → Job → Result (Unit {0})
unfolding assert_completion_evidence
check_transition input db job = do
  guard (one_of input.expected job.status) (refuse invalid_transition)
  guard (can_transition job.status input.next) (refuse invalid_transition)
  if same input.next completed then assert_completion_evidence db job else ok tt

unfoldable pub event_level : TransitionInput → Level
event_level input = or_else input.level (if same input.next failed then error else info)

-- The update of the row and the event that records it.
unfoldable pub write_transition : ℕ → TransitionInput → Job → Db → Job × Db
write_transition now input job db = (
  transition_row now input job,
  insert_event job.id (transition_event input.next) input.source (event_level input)
      (set_job input.organization job.id (transition_row now input) db),
)

unfoldable pub transition : ℕ → TransitionInput → Tx Job
unfolding check_transition write_transition
transition now input db = do
  job ← need (find_job input.organization input.job db) (refuse not_found)
  if is_terminal job.status
      then (if same job.status input.next then ok (job, db) else err (refuse terminal))
      else (check_transition input db job >> ok (write_transition now input job db))
