-- ===== src/Execution/ToolRuns/Moves.antt =====
-- What the runs of tools leave of the jobs of the kernel and of the event logs.
use moatazalasrai.Prelude.{
  ℕ, ◌≡◌, refl, subst, Bool, false, List, [], ◌∷◌, none, String, Bool-cases, Option-cases, inl, inr,
  select_rows, find_row, any, arith,
}
use moatazalasrai.Execution.Status.{is_terminal}
use moatazalasrai.Execution.Errors.{ok, need-eq-ok, ok-injective}
use moatazalasrai.Execution.Schema.{Db, Event}
use moatazalasrai.Execution.Db.{of_job, find_job, find_job-is_job, set_job, add_task, add_audit}
use moatazalasrai.Execution.History.{status_in, append-JobsMove, update_rows-JobsMove_tool}
use moatazalasrai.Execution.Moves.{DbMoves, DbMoves-refl}
use moatazalasrai.Execution.Creation.Laws.{new_events-LogsKept}
use moatazalasrai.Execution.ToolRuns.{
  ToolRequest, new_tool_job, has_tool_key, create_tool_run, claim_row, claim_tool, finish_row,
  finish_tool, fail_row, fail_tool,
}

pub no_events :
    (id : ℕ) (es : List Event) → any (of_job id) es ≡ false → select_rows (of_job id) es ≡ []
unfolding select_rows
no_events id [] h = refl
no_events id (e ∷ es) h = ground (arith, no_events id es)

pub create_tool_run-DbMoves :
    (request : ToolRequest) (db : Db)
    → any (of_job request.row.id) db.events ≡ false
    → DbMoves db (create_tool_run request db)
unfolding create_tool_run new_tool_job add_task add_audit
create_tool_run-DbMoves request db fresh =
    elim (Option-cases (find_row (has_tool_key request.row) db.jobs)) [
      | inr (existing, found) ↦ rw (found, create_tool_run) (DbMoves-refl db)
      | inl missing ↦
          rw (missing, create_tool_run)
            (record {
              status = append-JobsMove (new_tool_job request.row) db.jobs refl;
              logs =
                  new_events-LogsKept request.row.id db.events _ _
                    (no_events request.row.id db.events fresh) (refl, refl) (refl, refl);
            })
    ]

-- An update of a job that runs a tool.
module _ (organization id : ℕ) (db : Db) (h : status_in id db.jobs ≡ none) where
  pub claim_tool-DbMoves :
      (now : ℕ) {claimed : Bool} {d : Db}
      → claim_tool organization id now db ≡ ok (claimed, d)
      → DbMoves db d
  unfolding claim_tool claim_row set_job
  claim_tool-DbMoves now {claimed} {d} e =
      let (job, found, rest) = need-eq-ok (find_job organization id db) _ _ e in
      let same_id = (find_job-is_job organization id db found).0 in
      elim (Bool-cases (is_terminal job.status)) [
        | inl over ↦ subst (λ r. DbMoves db r.1) (ok-injective (rw over at rest)) (DbMoves-refl db)
        | inr open_job ↦
            subst (λ r. DbMoves db r.1) (ok-injective (rw open_job at rest))
              (record {
                status =
                    update_rows-JobsMove_tool organization job.id (claim_row now job.started_at)
                      db.jobs (λ j. refl) (λ j. refl) (rw same_id h);
                logs = λ k n. n;
              })
      ]

  pub finish_tool-DbMoves :
      (now artifacts : ℕ) → DbMoves db (finish_tool organization id now artifacts db)
  unfolding finish_tool finish_row set_job
  finish_tool-DbMoves now artifacts = record {
    status =
        update_rows-JobsMove_tool organization id (finish_row now artifacts) db.jobs (λ j. refl)
          (λ j. refl) h;
    logs = λ k n. n;
  }

  pub fail_tool-DbMoves :
      (now : ℕ) (code : String) → DbMoves db (fail_tool organization id now code db)
  unfolding fail_tool fail_row set_job
  fail_tool-DbMoves now code = record {
    status =
        update_rows-JobsMove_tool organization id (fail_row now code) db.jobs (λ j. refl)
          (λ j. refl) h;
    logs = λ k n. n;
  }
