-- ===== src/Execution/Worker/Keeps.antt =====
-- What the shared operations of the tasks do to the statuses of jobs.
use moatazalasrai.Prelude.{ℕ, refl, List, Option, none, some, String}
use moatazalasrai.Execution.Status.{Status, is_terminal}
use moatazalasrai.Execution.Errors.{Thrown, ExecutionError}
use moatazalasrai.Execution.Schema.{Task}
use moatazalasrai.Execution.Db.{add_task}
use moatazalasrai.Execution.Transition.{TransitionInput}
use moatazalasrai.Execution.Moves.{transition-DbMoves}
use moatazalasrai.Execution.Interleave.{acquire_lease-KeepsJobs}
use moatazalasrai.Execution.Leases.{release_lease}
use moatazalasrai.Execution.Records.{StepUpdate, update_step}
use moatazalasrai.Execution.Machine.{Env, M}
use moatazalasrai.Execution.Machine.Keeps.{
  Keeps, Keeps-pure, Keeps-throw, Keeps-bind, Keeps-then, Keeps-catching, Keeps-ignoring,
  Keeps-finally, Keeps-if, Keeps-tx, Keeps-tx_aside, Keeps-query, Keeps-draw, Keeps-time, Keeps-ask,
  Keeps-from_result, Keeps-option,
}
use moatazalasrai.Execution.Worker.Common.{
  get_job, try_get_job, current_status, enqueue, enqueue_cleanup, enqueue_cancel, change_status,
  write_step, take_lease, give_lease, with_lease, selected_runner, healthy_runner, fail_transition,
  fail_open, fail_execution,
}

module _ (env : Env) where
  pub enqueue-Keeps : (t : Task) → Keeps (enqueue env t)
  unfolding enqueue add_task
  enqueue-Keeps t = Keeps-tx_aside env _ (λ now db. (refl, λ k n. n))

  pub change_status-Keeps : (input : TransitionInput) → Keeps (change_status env input)
  unfolding change_status
  change_status-Keeps input = Keeps-tx env _ (λ now db a d e. transition-DbMoves now input db e)

  pub write_step-Keeps : (job : ℕ) (u : StepUpdate) → Keeps (write_step env job u)
  unfolding write_step update_step
  write_step-Keeps job u = Keeps-tx_aside env _ (λ now db. (refl, λ k n. n))

  pub get_job-Keeps : (o id : ℕ) → Keeps (get_job env o id)
  unfolding get_job
  get_job-Keeps o id = Keeps-query env _

  pub current_status-Keeps : (o id : ℕ) → Keeps (current_status env o id)
  unfolding current_status
  current_status-Keeps o id = Keeps-query env _

  pub enqueue_cleanup-Keeps : (o id : ℕ) → Keeps (enqueue_cleanup env o id)
  unfolding enqueue_cleanup
  enqueue_cleanup-Keeps o id = enqueue-Keeps _

  pub enqueue_cancel-Keeps : (o id : ℕ) → Keeps (enqueue_cancel env o id)
  unfolding enqueue_cancel
  enqueue_cancel-Keeps o id = enqueue-Keeps _

  pub try_get_job-Keeps : (o id : ℕ) → Keeps (try_get_job env o id)
  unfolding try_get_job
  try_get_job-Keeps o id = search (Keeps-catching, Keeps-bind, Keeps-pure, get_job-Keeps)

  give_lease-Keeps : (job hash : ℕ) → Keeps (give_lease env job hash)
  unfolding give_lease release_lease
  give_lease-Keeps job hash = Keeps-tx_aside env _ (λ now db. (refl, λ k n. n))

  take_lease-Keeps : (o job worker : ℕ) → Keeps (take_lease env o job worker)
  unfolding take_lease
  take_lease-Keeps o job worker = Keeps-bind _ _ (Keeps-draw env) λ token.
      Keeps-bind _ _ (Keeps-time env) λ now.
        Keeps-then _ _
          (Keeps-tx_aside env _ (λ db_now db. acquire_lease-KeepsJobs o job worker _ db_now _ db))
          (Keeps-pure _)

  pub with_lease-Keeps {ℓ} :
      {A : Type ℓ} (o job worker : ℕ) (body : M A)
      → Keeps body
      → Keeps (with_lease env o job worker body)
  unfolding with_lease
  with_lease-Keeps o job worker body h =
      Keeps-bind _ _ (take_lease-Keeps o job worker)
        λ hash. Keeps-finally body _ h (give_lease-Keeps job hash)

  pub selected_runner-Keeps : Keeps (selected_runner env)
  unfolding selected_runner
  selected_runner-Keeps = search (Keeps-option, Keeps-throw, Keeps-pure)

  pub healthy_runner-Keeps : Keeps (healthy_runner env)
  unfolding healthy_runner
  healthy_runner-Keeps =
      search (Keeps-bind, selected_runner-Keeps, Keeps-ask, Keeps-if, Keeps-throw, Keeps-pure)

  fail_transition-Keeps :
      (o job : ℕ) (expected : List Status) (failure : ExecutionError) (source : String) (s : Status)
      → Keeps (fail_transition env o job expected failure source s)
  unfolding fail_transition
  fail_transition-Keeps o job expected failure source s =
      Keeps-bind _ _ (Keeps-draw env) (λ _. change_status-Keeps _)

  fail_open-Keeps :
      (o job : ℕ) (expected : List Status) (failure : ExecutionError) (source : String)
      (s : Option Status)
      → Keeps (fail_open env o job expected failure source s)
  unfolding fail_open
  fail_open-Keeps o job expected failure source none = Keeps-pure tt
  fail_open-Keeps o job expected failure source (some s) =
      Keeps-if (is_terminal s) _ _ (Keeps-pure tt)
        (Keeps-ignoring _ (fail_transition-Keeps o job expected failure source s))

  pub fail_execution-Keeps :
      (o job : ℕ) (expected : List Status) (thrown : Thrown) (source : String)
      → Keeps (fail_execution env o job expected thrown source)
  unfolding fail_execution
  fail_execution-Keeps o job expected thrown source =
      Keeps-bind _ _ (current_status-Keeps o job) λ s.
        Keeps-then _ _ (fail_open-Keeps o job expected _ source s) (
          Keeps-bind _ _ (Keeps-time env) λ now.
            Keeps-then _ _ (Keeps-ignoring _ (write_step-Keeps job _))
              (Keeps-then _ _ (enqueue_cleanup-Keeps o job) (Keeps-pure _)))

pub ruleset keeps = (
  Keeps-pure, Keeps-throw, Keeps-bind, Keeps-then, Keeps-catching, Keeps-ignoring, Keeps-if,
  Keeps-query, Keeps-draw, Keeps-time, Keeps-ask, Keeps-from_result, Keeps-option, enqueue-Keeps,
  enqueue_cleanup-Keeps, enqueue_cancel-Keeps, change_status-Keeps, write_step-Keeps, get_job-Keeps,
  try_get_job-Keeps, current_status-Keeps, selected_runner-Keeps, healthy_runner-Keeps,
  fail_execution-Keeps,
)
