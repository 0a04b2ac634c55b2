-- ===== src/Execution/Worker/Tasks.antt =====
-- All tasks of the worker, in any order, by any workers, with any other processes between their
-- statements.
use moatazalasrai.Prelude.{ℕ, ◌≡◌, refl, ap, ◌∙◌, true, List, [], ◌∷◌, Option, none, some}
use moatazalasrai.Prelude.Text.{Text}
use moatazalasrai.Execution.Status.{Status, is_terminal, Walk-terminal, StatusMoves}
use moatazalasrai.Execution.Errors.{Thrown, Result}
use moatazalasrai.Execution.Schema.{Job, Workspace, Summary, Limits, Artifact, Audit}
use moatazalasrai.Execution.Db.{add_audit}
use moatazalasrai.Execution.Records.{set_workspace, set_summary, revoke_grants, insert_artifact}
use moatazalasrai.Execution.History.{JobsMove, status_in}
use moatazalasrai.Execution.Moves.{DbMoves, DbMoves-refl, DbMoves-trans}
use moatazalasrai.Execution.Events.Laws.{IsNumbered}
use moatazalasrai.Execution.Interleave.{Op, apply_ops, apply_ops-DbMoves, set_summary-DbMoves}
use moatazalasrai.Execution.Machine.{Env, World, tx}
use moatazalasrai.Execution.Machine.Keeps.{
  Keeps, Keeps-catching, Keeps-then, Keeps-pure, Keeps-tx_aside, Keeps-tx, Keeps-elim,
}
use moatazalasrai.Execution.Worker.Common.{JobRecord}
use moatazalasrai.Execution.Worker.Keeps.{keeps, with_lease-Keeps}
use moatazalasrai.Execution.Worker.History.{
  append-Keeps, provision_execution-Keeps, run_execution_step-Keeps,
}
use moatazalasrai.Execution.Worker.Provision.{provision_execution}
use moatazalasrai.Execution.Worker.Run.{run_execution_step}
use moatazalasrai.Execution.Worker.Collect.{
  store_artifact, collect_expected, collect_optional, collect_ready, collect_running, collect_body,
  collect_failed, collect_execution_artifacts,
}
use moatazalasrai.Execution.Worker.Finish.{
  advance, start_cancelling, stop_process, end_cancelling, cancel_body, cancel_execution,
  destroy_workspace, settle, cleanup_body, cleanup_execution,
}
use moatazalasrai.Execution.Worker.Sweep.{
  orphan_stale, reconcile_all, reconcile_executions, expire_all, expire_executions,
}

module _ (env : Env) (o id worker : ℕ) where
  artifact-Keeps : (a : Artifact) → Keeps (tx env (λ _. insert_artifact a))
  unfolding insert_artifact
  artifact-Keeps a = Keeps-tx_aside env _ (λ now db. (refl, λ k n. n))

  workspace-Keeps :
      (w : ℕ) (f : ℕ → Workspace → Workspace) → Keeps (tx env (λ now. set_workspace o w (f now)))
  unfolding set_workspace
  workspace-Keeps w f = Keeps-tx_aside env _ (λ now db. (refl, λ k n. n))

  revoke-Keeps : Keeps (tx env (λ now. revoke_grants now o id))
  unfolding revoke_grants
  revoke-Keeps = Keeps-tx_aside env _ (λ now db. (refl, λ k n. n))

  audit-Keeps : (a : Audit) → Keeps (tx env (λ _ db. Result.ok (tt {0}, add_audit a db)))
  unfolding add_audit
  audit-Keeps a = Keeps-tx_aside env _ (λ now db. (refl, λ k n. n))

  summary-Keeps : (s : Summary) → Keeps (tx env (λ now. set_summary now o id s))
  summary-Keeps s = Keeps-tx env _ (λ now db a d e. set_summary-DbMoves now o id s db e)

  store_artifact-Keeps :
      (user : ℕ) (l : Limits) (body : List ℕ) → Keeps (store_artifact env o id worker user l body)
  unfolding store_artifact
  store_artifact-Keeps user l body =
      search (keeps, append-Keeps env o id worker, artifact-Keeps) depth 14

  collect_expected-Keeps :
      (r : JobRecord) (l : Limits) (e : ℕ) (path : Text)
      → Keeps (collect_expected env o id worker r l e path)
  unfolding collect_expected
  collect_expected-Keeps r l e path =
      search (keeps, append-Keeps env o id worker, store_artifact-Keeps) depth 14

  collect_ready-Keeps : (r : JobRecord) (e : ℕ) → Keeps (collect_ready env o id worker r e)
  unfolding collect_ready collect_optional
  collect_ready-Keeps r e = search (keeps, collect_expected-Keeps, summary-Keeps) depth 12

  collect_body-Keeps : Keeps (collect_body env o id worker)
  unfolding collect_body collect_running
  collect_body-Keeps = search (keeps, collect_ready-Keeps) depth 10

  collect_failed-Keeps : (e : Thrown) → Keeps (collect_failed env o id worker e)
  unfolding collect_failed
  collect_failed-Keeps e = search keeps

  collect_execution_artifacts-Keeps : Keeps (collect_execution_artifacts env o id worker)
  unfolding collect_execution_artifacts
  collect_execution_artifacts-Keeps =
      with_lease-Keeps env o id worker _
        (Keeps-catching _ _ collect_body-Keeps collect_failed-Keeps)

  cancel_body-Keeps : Keeps (cancel_body env o id worker)
  unfolding cancel_body start_cancelling stop_process end_cancelling advance
  cancel_body-Keeps = search keeps depth 18

  cancel_execution-Keeps : Keeps (cancel_execution env o id worker)
  unfolding cancel_execution
  cancel_execution-Keeps = with_lease-Keeps env o id worker _ cancel_body-Keeps

  destroy_workspace-Keeps : (w : Workspace) → Keeps (destroy_workspace env o id worker w)
  unfolding destroy_workspace
  destroy_workspace-Keeps w = search (keeps, append-Keeps env o id worker, workspace-Keeps) depth 10

  settle-Keeps : (s : Status) → Keeps (settle env o id worker s)
  unfolding settle advance
  settle-Keeps s = search keeps depth 8

  cleanup_body-Keeps : Keeps (cleanup_body env o id worker)
  unfolding cleanup_body
  cleanup_body-Keeps =
      search (keeps, destroy_workspace-Keeps, settle-Keeps, revoke-Keeps, audit-Keeps) depth 14

  cleanup_execution-Keeps : Keeps (cleanup_execution env o id worker)
  unfolding cleanup_execution
  cleanup_execution-Keeps = with_lease-Keeps env o id worker _ cleanup_body-Keeps

module _ (env : Env) where
  reconcile_all-Keeps : (js : List Job) → Keeps (reconcile_all env js)
  unfolding reconcile_all
  reconcile_all-Keeps [] = Keeps-pure tt
  reconcile_all-Keeps (j ∷ js) =
      Keeps-then _ _ (unfold orphan_stale in search keeps depth 10) (reconcile_all-Keeps js)

  reconcile_executions-Keeps : Keeps (reconcile_executions env)
  unfolding reconcile_executions
  reconcile_executions-Keeps = search (keeps, reconcile_all-Keeps) depth 8

  expire_all-Keeps : (js : List Job) → Keeps (expire_all env js)
  unfolding expire_all
  expire_all-Keeps [] = Keeps-pure tt
  expire_all-Keeps (j ∷ js) = Keeps-then _ _ (search keeps depth 8) (expire_all-Keeps js)

  expire_executions-Keeps : Keeps (expire_executions env)
  unfolding expire_executions
  expire_executions-Keeps = search (keeps, expire_all-Keeps) depth 8

-- A task of the queue, with the worker that takes it.
pub data WorkerTask : Type 0 where
  provisions runs collects cancels cleans : ℕ → ℕ → ℕ → WorkerTask
  reconciles expires : WorkerTask
  -- A run of `operational-tool-execute`: its statements on these tables, and any between them.
  operates : List Op → WorkerTask

module _ (env : Env) where
  -- The world after a task; its result goes to the queue.
  unfoldable pub after_task : WorkerTask → World → World
  after_task (provisions o id worker) w = (provision_execution env o id worker w).1
  after_task (runs o id worker) w = (run_execution_step env o id worker w).1
  after_task (collects o id worker) w = (collect_execution_artifacts env o id worker w).1
  after_task (cancels o id worker) w = (cancel_execution env o id worker w).1
  after_task (cleans o id worker) w = (cleanup_execution env o id worker w).1
  after_task reconciles w = (reconcile_executions env w).1
  after_task expires w = (expire_executions env w).1
  after_task (operates ops) w = record w { db = apply_ops ops w.db }

  unfoldable pub after_tasks : List WorkerTask → World → World
  unfolding after_task
  after_tasks [] w = w
  after_tasks (t ∷ ts) w = after_tasks ts (after_task t w)

  after_task-DbMoves : (t : WorkerTask) (w : World) → DbMoves w.db (after_task t w).db
  unfolding after_task
  after_task-DbMoves (provisions o id worker) w =
      Keeps-elim _ (provision_execution-Keeps env o id worker) w
  after_task-DbMoves (runs o id worker) w =
      Keeps-elim _ (run_execution_step-Keeps env o id worker) w
  after_task-DbMoves (collects o id worker) w =
      Keeps-elim _ (collect_execution_artifacts-Keeps env o id worker) w
  after_task-DbMoves (cancels o id worker) w =
      Keeps-elim _ (cancel_execution-Keeps env o id worker) w
  after_task-DbMoves (cleans o id worker) w =
      Keeps-elim _ (cleanup_execution-Keeps env o id worker) w
  after_task-DbMoves reconciles w = Keeps-elim _ (reconcile_executions-Keeps env) w
  after_task-DbMoves expires w = Keeps-elim _ (expire_executions-Keeps env) w
  after_task-DbMoves (operates ops) w = apply_ops-DbMoves ops w.db

  after_tasks-DbMoves : (ts : List WorkerTask) (w : World) → DbMoves w.db (after_tasks ts w).db
  unfolding after_tasks
  after_tasks-DbMoves [] w = DbMoves-refl w.db
  after_tasks-DbMoves (t ∷ ts) w =
      DbMoves-trans w.db (after_task t w).db _ (after_task-DbMoves t w)
        (after_tasks-DbMoves ts (after_task t w))

  -- Whatever tasks of the kernel and runs of tools there are, by whichever workers, in any order,
  -- with any modelled statements of other processes in between and any answers of the runner and
  -- the clock: no job of the kernel is lost, and the status of each moves along the transition table
  -- only. A job that runs a tool is no job of the kernel, and is left out.
  pub after_tasks-JobsMove :
      (ts : List WorkerTask) (w : World) → JobsMove w.db.jobs (after_tasks ts w).db.jobs
  after_tasks-JobsMove ts w = (after_tasks-DbMoves ts w).status

  -- If the events of a job are numbered 1, 2, 3 and so on without a gap, they still are after any
  -- tasks of any workers, with any modelled statements of other processes in between.
  pub after_tasks-IsNumbered :
      (ts : List WorkerTask) (w : World) (job : ℕ)
      → IsNumbered job w.db.events
      → IsNumbered job (after_tasks ts w).db.events
  after_tasks-IsNumbered ts w = (after_tasks-DbMoves ts w).logs

-- A job that has ended keeps its status for ever.
terminal_stays :
    (o p : Option Status) (s : Status)
    → StatusMoves o p
    → o ≡ some s
    → is_terminal s ≡ true
    → p ≡ some s
terminal_stays none p s h e t = absurd (cc e)
terminal_stays (some q) none s h e t = absurd h
terminal_stays (some q) (some r) s h e t =
    let same_status : q ≡ s = cc e in ap some (Walk-terminal h (rw same_status t) ∙ same_status)

-- A job of the kernel, not one that runs a tool, that has completed, failed, timed out or been
-- cancelled keeps that status whatever tasks of the kernel and runs of tools there are afterwards,
-- with any modelled statements of other processes in between.
pub after_tasks-terminal :
    (env : Env) (ts : List WorkerTask) (w : World) (k : ℕ) (s : Status)
    → status_in k w.db.jobs ≡ some s
    → is_terminal s ≡ true
    → status_in k (after_tasks env ts w).db.jobs ≡ some s
after_tasks-terminal env ts w k s e t =
    terminal_stays (status_in k w.db.jobs) (status_in k (after_tasks env ts w).db.jobs) s
      (after_tasks-JobsMove env ts w k) e t
