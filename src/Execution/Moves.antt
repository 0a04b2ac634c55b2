-- ===== src/Execution/Moves.antt =====
-- What any statement of the kernel may do to the database: every job moves along the transition
-- table, and the events of every job stay numbered without gaps.
use moatazalasrai.Prelude.{ℕ, ◌≡◌, sym, subst, inl, inr, find_row}
use moatazalasrai.Execution.Errors.{ok, need-eq-ok}
use moatazalasrai.Execution.Schema.{Db, Job, warn}
use moatazalasrai.Execution.Db.{set_job, add_task, add_audit}
use moatazalasrai.Execution.History.{JobsMove, JobsMove-refl, JobsMove-trans}
use moatazalasrai.Execution.Transition.{TransitionInput, write_transition, transition}
use moatazalasrai.Execution.Transition.Laws.{transition-Succeeds, transition-JobsMove}
use moatazalasrai.Execution.Cancellation.{
  Actor, CancelReply, may_see, write_cancellation, request_cancellation,
}
use moatazalasrai.Execution.Cancellation.Laws.{
  Answers, request_cancellation-Answers, request_cancellation-JobsMove,
}
use moatazalasrai.Execution.Events.Laws.{LogsKept, insert_event-LogsKept}

pub record DbMoves (d e : Db) : Type 0 where
  pub status : JobsMove d.jobs e.jobs
  pub logs : LogsKept d.events e.events

pub DbMoves-refl : (d : Db) → DbMoves d d
DbMoves-refl d = record { status = JobsMove-refl d.jobs; logs = λ j h. h }

pub DbMoves-trans : (c d e : Db) → DbMoves c d → DbMoves d e → DbMoves c e
DbMoves-trans c d e h k = record {
  status = JobsMove-trans c.jobs d.jobs e.jobs h.status k.status;
  logs = λ j n. k.logs j (h.logs j n);
}

LogsKept-eq : {d e : Db} → e ≡ d → LogsKept d.events e.events
LogsKept-eq {d} p = subst (λ (x : Db). LogsKept d.events x.events) (sym p) (λ j h. h)

write_transition-LogsKept :
    (now : ℕ) (input : TransitionInput) (job : Job) (db : Db)
    → LogsKept db.events (write_transition now input job db).1.events
unfolding write_transition set_job
write_transition-LogsKept now input job db =
    insert_event-LogsKept job.id _ input.source _ (set_job input.organization job.id _ db)

pub transition-DbMoves :
    (now : ℕ) (input : TransitionInput) (db : Db) {job : Job} {db' : Db}
    → transition now input db ≡ ok (job, db')
    → DbMoves db db'
transition-DbMoves now input db {job} {db'} h = record {
  status = transition-JobsMove now input db h;
  logs =
      let s = transition-Succeeds now input db h in
      elim s.outcome [
        | inl (_, _, _, e) ↦ LogsKept-eq e
        | inr (_, _, _, e) ↦
            subst (λ (x : Db). LogsKept db.events x.events) (sym e)
              (write_transition-LogsKept now input s.found db)
      ];
}

write_cancellation-LogsKept :
    (now : ℕ) (actor : Actor) (job : Job) (db : Db)
    → LogsKept db.events (write_cancellation now actor job db).events
unfolding write_cancellation add_audit add_task
write_cancellation-LogsKept now actor job db =
    insert_event-LogsKept job.id "cancel.requested" "api" warn (record db { jobs = _ })

pub request_cancellation-DbMoves :
    (now : ℕ) (actor : Actor) (id : ℕ) (db : Db) {reply : CancelReply} {db' : Db}
    → request_cancellation now actor id db ≡ ok (reply, db')
    → DbMoves db db'
unfolding request_cancellation
request_cancellation-DbMoves now actor id db {reply} {db'} h = record {
  status = request_cancellation-JobsMove now actor id db h;
  logs =
      let (job, found, _) = need-eq-ok (find_row (may_see actor id) db.jobs) _ _ h in
      let (r, d, e, a) = request_cancellation-Answers now actor id db job found in
      let same_db : d ≡ db' = cc (e, h) in
      subst (λ (x : Db). LogsKept db.events x.events) same_db (by_answer job r d a);
}
  where
    by_answer :
        (job : Job) (r : CancelReply) (d : Db)
        → Answers now actor job db r d
        → LogsKept db.events d.events
    by_answer job r d (inl (_, _, e)) = LogsKept-eq e
    by_answer job r d (inr (inl (_, _, e))) = LogsKept-eq e
    by_answer job r d (inr (inr (_, _, _, e))) =
        subst (λ (x : Db). LogsKept db.events x.events) (sym e)
          (write_cancellation-LogsKept now actor job db)
