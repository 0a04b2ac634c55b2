-- ===== src/Execution/Worker/History.antt =====
-- The history of a job under the tasks of the worker.
use moatazalasrai.Prelude.{ℕ, refl, List, [], ◌∷◌, Option, String}
use moatazalasrai.Prelude.Text.{Text}
use moatazalasrai.Execution.Status.{Status}
use moatazalasrai.Execution.Errors.{Thrown, ExecutionError}
use moatazalasrai.Execution.Schema.{Level, Workspace, Summary, Usage}
use moatazalasrai.Execution.Interleave.{
  append_event-KeepsJobs, update_usage-KeepsJobs, set_summary-DbMoves, append_output-KeepsJobs,
}
use moatazalasrai.Execution.Machine.{Env, tx, Report, on_stdout, on_stderr, on_state, CommandResult}
use moatazalasrai.Execution.Machine.Keeps.{
  Keeps, Keeps-catching, Keeps-bind, Keeps-pure, Keeps-tx_aside, Keeps-tx,
}
use moatazalasrai.Execution.Events.{append_event, append_output, Stream}
use moatazalasrai.Execution.Records.{set_workspace, set_summary, update_usage}
use moatazalasrai.Execution.Worker.Common.{JobRecord}
use moatazalasrai.Execution.Worker.Keeps.{keeps, with_lease-Keeps}
use moatazalasrai.Execution.Worker.Provision.{
  start_provisioning, ensure_workspace, make_ready, provision_body, retry_or_fail, provision_failed,
  provision_execution,
}
use moatazalasrai.Execution.Worker.Run.{
  Output, on_report, on_reports, start_running, time_out, complete_step, judge, run_command,
  run_ready, run_body, orphan_or_fail, run_failed, run_execution_step,
}

module _ (env : Env) (o id worker : ℕ) where
  pub append-Keeps :
      (kind source : String) (level : Level)
      → Keeps (tx env (λ _. append_event o id kind source level))
  append-Keeps kind source level =
      Keeps-tx_aside env _ (λ now db. append_event-KeepsJobs o id kind source level db)

  place-Keeps :
      (w : ℕ) (f : ℕ → Workspace → Workspace) → Keeps (tx env (λ now. set_workspace o w (f now)))
  unfolding set_workspace
  place-Keeps w f = Keeps-tx_aside env _ (λ now db. (refl, λ k n. n))

  summary-Keeps : (s : Summary) → Keeps (tx env (λ now. set_summary now o id s))
  summary-Keeps s = Keeps-tx env _ (λ now db a d e. set_summary-DbMoves now o id s db e)

  usage-Keeps : (u : Usage) → Keeps (tx env (λ _. update_usage u))
  usage-Keeps u = Keeps-tx_aside env _ (λ now db. update_usage-KeepsJobs u db)

  output-Keeps :
      (s : Stream) (chunk : List ℕ) → Keeps (tx env (λ _. append_output env.decode o id s chunk))
  output-Keeps s chunk =
      Keeps-tx_aside env _ (λ now db. append_output-KeepsJobs env.decode o id s chunk db)

  report-Keeps :
      (maximum : ℕ) (out : Output) (r : Report) → Keeps (on_report env o id worker maximum out r)
  unfolding on_report
  report-Keeps maximum out (on_stdout chunk) = search (keeps, output-Keeps)
  report-Keeps maximum out (on_stderr chunk) = search (keeps, output-Keeps)
  report-Keeps maximum out (on_state state) = search (keeps, append-Keeps)

  start_provisioning-Keeps : (r : JobRecord) → Keeps (start_provisioning env o id worker r)
  unfolding start_provisioning
  start_provisioning-Keeps r = search keeps

  ensure_workspace-Keeps : (w : Workspace) → Keeps (ensure_workspace env o id worker w)
  unfolding ensure_workspace
  ensure_workspace-Keeps w = search keeps

  make_ready-Keeps : (r : JobRecord) → Keeps (make_ready env o id worker r)
  unfolding make_ready
  make_ready-Keeps r = search (keeps, ensure_workspace-Keeps, place-Keeps) depth 12

  provision_body-Keeps : Keeps (provision_body env o id worker)
  unfolding provision_body
  provision_body-Keeps = search (keeps, start_provisioning-Keeps, make_ready-Keeps) depth 12

  retry_or_fail-Keeps :
      (failure : ExecutionError) (r : Option JobRecord)
      → Keeps (retry_or_fail env o id worker failure r)
  unfolding retry_or_fail
  retry_or_fail-Keeps failure r = search (keeps, append-Keeps) depth 8

  provision_failed-Keeps : (thrown : Thrown) → Keeps (provision_failed env o id worker thrown)
  unfolding provision_failed
  provision_failed-Keeps thrown = search (keeps, retry_or_fail-Keeps)

  pub provision_execution-Keeps : Keeps (provision_execution env o id worker)
  unfolding provision_execution
  provision_execution-Keeps =
      with_lease-Keeps env o id worker _
        (Keeps-catching _ _ provision_body-Keeps provision_failed-Keeps)

  reports-Keeps :
      (maximum : ℕ) (out : Output) (rs : List Report)
      → Keeps (on_reports env o id worker maximum out rs)
  unfolding on_reports
  reports-Keeps maximum out [] = Keeps-pure out
  reports-Keeps maximum out (r ∷ rs) =
      Keeps-bind _ _ (report-Keeps maximum out r) (λ next. reports-Keeps maximum next rs)

  start_running-Keeps : (r : JobRecord) → Keeps (start_running env o id worker r)
  unfolding start_running
  start_running-Keeps r = search keeps

  time_out-Keeps : (result : CommandResult) → Keeps (time_out env o id worker result)
  unfolding time_out
  time_out-Keeps result = search keeps depth 10

  complete_step-Keeps :
      (r : JobRecord) (expected : Option Text) (out : Output) (result : CommandResult)
      → Keeps (complete_step env o id worker r expected out result)
  unfolding complete_step
  complete_step-Keeps r expected out result = search (keeps, append-Keeps, summary-Keeps) depth 10

  judge-Keeps :
      (r : JobRecord) (out : Output) (result : CommandResult) (fresh : Option Status)
      → Keeps (judge env o id worker r out result fresh)
  unfolding judge
  judge-Keeps r out result fresh = search (keeps, time_out-Keeps, complete_step-Keeps) depth 10

  run_command-Keeps :
      (r : JobRecord) (external : ℕ) → Keeps (run_command env o id worker r external)
  unfolding run_command
  run_command-Keeps r external =
      search (keeps, append-Keeps, reports-Keeps, usage-Keeps, judge-Keeps) depth 16

  run_body-Keeps : Keeps (run_body env o id worker)
  unfolding run_body run_ready
  run_body-Keeps = search (keeps, start_running-Keeps, run_command-Keeps) depth 12

  run_failed-Keeps : (thrown : Thrown) → Keeps (run_failed env o id worker thrown)
  unfolding run_failed orphan_or_fail
  run_failed-Keeps thrown = search keeps depth 10

  pub run_execution_step-Keeps : Keeps (run_execution_step env o id worker)
  unfolding run_execution_step
  run_execution_step-Keeps =
      with_lease-Keeps env o id worker _ (Keeps-catching _ _ run_body-Keeps run_failed-Keeps)
