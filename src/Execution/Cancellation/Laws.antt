-- ===== src/Execution/Cancellation/Laws.antt =====
-- What a request for cancellation does in each status.
use moatazalasrai.Prelude.{
  ◌==◌, ◌&&◌, ◌++◌, ◌∷◌, [], List, update_rows, update_rows-ext, or_else, ap, ℕ, ◌≡◌, refl, ◌⊎◌,
  inl, inr, sym, subst, Bool, true, false, ◌||◌, some, find_row, arith, &&-inv,
}
use moatazalasrai.Execution.Status.{
  Status, queued, stay, move, same, is_terminal, can_transition, cancel_requested, cancelling,
}
use moatazalasrai.Execution.Errors.{ok, need-eq-ok}
use moatazalasrai.Execution.Schema.{Db, Job, warn, cancel, cleanup_queue}
use moatazalasrai.Execution.Db.{next_sequence, is_job, insert_event, add_task, add_audit}
use moatazalasrai.Execution.History.{JobsMove, JobsMove-refl, update_rows-JobsMove_all}
use moatazalasrai.Execution.Cancellation.{
  Actor, may_see, CancelReply, cancel_row, is_cancellable, is_target, write_cancellation,
  request_cancellation,
}

-- The statuses that the update accepts are those from which the table allows a cancellation.
pub is_cancellable-can_transition :
    (s : Status) → is_cancellable s ≡ can_transition s cancel_requested
unfolding is_cancellable can_transition
is_cancellable-can_transition queued = refl
is_cancellable-can_transition _ = refl

-- The three answers to a request.
abbrev pub Answers : ℕ → Actor → Job → Db → CancelReply → Db → Type 0
Answers now actor job db reply db' =
    ((is_terminal job.status ≡ true) × (reply.accepted ≡ false) × (db' ≡ db))
    ⊎ (((job.status ≡ cancel_requested) ⊎ (job.status ≡ cancelling))
        × (reply.accepted ≡ true)
        × (db' ≡ db))
    ⊎ ((can_transition job.status cancel_requested ≡ true)
        × (reply.accepted ≡ true)
        × (reply.job.status ≡ cancel_requested)
        × (db' ≡ write_cancellation now actor job db))

abbrev is_ending : Status → Bool
is_ending s = same s cancel_requested || same s cancelling

-- Each status is in one of three classes, so that no request meets the last guard.
status_classes :
    (s : Status)
    → (is_terminal s ≡ true)
      ⊎ ((is_terminal s ≡ false)
          × (is_ending s ≡ true)
          × ((s ≡ cancel_requested) ⊎ (s ≡ cancelling)))
      ⊎ ((is_terminal s ≡ false) × (is_ending s ≡ false) × (is_cancellable s ≡ true))
unfolding is_terminal is_cancellable
status_classes queued = ground arith
status_classes _ = ground arith

-- A request for a job that the actor may see always succeeds, with one of three answers.
pub request_cancellation-Answers :
    (now : ℕ) (actor : Actor) (id : ℕ) (db : Db) (job : Job)
    → find_row (may_see actor id) db.jobs ≡ some job
    → (reply : CancelReply) × (db' : Db) × (request_cancellation now actor id db ≡ ok (reply, db'))
      × Answers now actor job db reply db'
unfolding request_cancellation
request_cancellation-Answers now actor id db job found = elim (status_classes job.status) [
  | inl over ↦ (
    record { job = job; accepted = false; terminal = true },
    db,
    rw (found, over),
    inl (over, refl, refl),
  )
  | inr (inl (alive, ending, which)) ↦ (
    record { job = job; accepted = true; terminal = false },
    db,
    rw (found, alive, ending),
    inr (inl (which, refl, refl)),
  )
  | inr (inr (alive, idle, open_job)) ↦ (
    record { job = cancel_row now job; accepted = true; terminal = false },
    write_cancellation now actor job db,
    rw (found, alive, idle, open_job),
    inr (
        inr (
          subst (λ b. b ≡ true) (is_cancellable-can_transition job.status) open_job,
          refl,
          refl,
          refl,
        )),
  )
]

-- The columns of the row that is written, and the event, the task and the audit row that are added,
-- beside which nothing changes.
abbrev pub Writes : ℕ → Actor → Job → Db → CancelReply → Db → Type 0
Writes now actor job db reply db' =
    (reply.job ≡ record job {
      status = cancel_requested;
      cancel_requested_at = some (or_else job.cancel_requested_at now);
      updated_at = now;
    })
    × (db' ≡ record db {
      jobs =
          update_rows
            (λ (j : Job).
              (j.id == job.id && j.organization == actor.organization)
              && can_transition j.status cancel_requested)
            (cancel_row now) db.jobs;
      events =
          db.events
          ++ record {
            job = job.id;
            sequence = next_sequence job.id db.events;
            kind = "cancel.requested";
            source = "api";
            level = warn;
          }
            ∷ [];
      tasks =
          db.tasks
          ++ record {
            name = cancel;
            organization = actor.organization;
            job = job.id;
            queue = cleanup_queue;
            max_attempts = 5;
            urgency = 10;
          }
            ∷ [];
      audits =
          db.audits
          ++ record {
            organization = actor.organization;
            actor = some actor.user;
            action = "execution.cancel_requested";
            resource = job.id;
          }
            ∷ [];
    })

-- A request for a job that the actor may see always succeeds, with one of three answers: the job
-- has ended and nothing is written; it is being cancelled already and nothing is written; or the
-- table allows the cancellation, the job is answered and its rows are written with the new status and
-- the time of the first request, and one event, one task of the priority -10 and one audit row are
-- added; nothing else is written.
pub request_cancellation-Writes :
    (now : ℕ) (actor : Actor) (id : ℕ) (db : Db) (job : Job)
    → find_row (may_see actor id) db.jobs ≡ some job
    → (reply : CancelReply) × (db' : Db) × (request_cancellation now actor id db ≡ ok (reply, db'))
      × (((is_terminal job.status ≡ true)
            × (reply ≡ record { job = job; accepted = false; terminal = true })
            × (db' ≡ db))
          ⊎ (((job.status ≡ cancel_requested) ⊎ (job.status ≡ cancelling))
              × (reply ≡ record { job = job; accepted = true; terminal = false })
              × (db' ≡ db))
          ⊎ ((can_transition job.status cancel_requested ≡ true)
              × (reply.accepted ≡ true)
              × (reply.terminal ≡ false)
              × Writes now actor job db reply db'))
unfolding request_cancellation write_cancellation cancel_row insert_event add_task add_audit
request_cancellation-Writes now actor id db job found = elim (status_classes job.status) [
  | inl over ↦ (
    record { job = job; accepted = false; terminal = true },
    db,
    rw (found, over),
    inl (over, refl, refl),
  )
  | inr (inl (alive, ending, which)) ↦ (
    record { job = job; accepted = true; terminal = false },
    db,
    rw (found, alive, ending),
    inr (inl (which, refl, refl)),
  )
  | inr (inr (alive, idle, open_job)) ↦ (
    record { job = cancel_row now job; accepted = true; terminal = false },
    write_cancellation now actor job db,
    rw (found, alive, idle, open_job),
    inr (
        inr (
          subst (λ b. b ≡ true) (is_cancellable-can_transition job.status) open_job,
          refl,
          refl,
          (
            refl,
            ap (λ (js : List Job). record (write_cancellation now actor job db) { jobs = js })
                (update_rows-ext _ _ (cancel_row now) db.jobs (λ j.
                  ap (λ b. is_job actor.organization job.id j && b)
                    (is_cancellable-can_transition j.status))),
          ),
        )),
  )
]

write_cancellation-JobsMove :
    (now : ℕ) (actor : Actor) (job : Job) (db : Db)
    → JobsMove db.jobs (write_cancellation now actor job db).jobs
unfolding write_cancellation cancel_row add_audit add_task insert_event
write_cancellation-JobsMove now actor job db =
    update_rows-JobsMove_all (is_target actor.organization job.id) (cancel_row now) db.jobs
      (λ j. refl) (λ j. refl)
      λ j t.
        let open_job = (&&-inv (is_job actor.organization job.id j) _ t).1 in
        move stay (subst (λ b. b ≡ true) (is_cancellable-can_transition j.status) open_job)

-- A request moves each job along the table, also where it races with other work.
pub request_cancellation-JobsMove :
    (now : ℕ) (actor : Actor) (id : ℕ) (db : Db) {reply : CancelReply} {db' : Db}
    → request_cancellation now actor id db ≡ ok (reply, db')
    → JobsMove db.jobs db'.jobs
unfolding request_cancellation
request_cancellation-JobsMove now actor id db {reply} {db'} h =
    let (job, found, _) = need-eq-ok (find_row (may_see actor id) db.jobs) _ _ h in
    let (r, d, e, a) = request_cancellation-Answers now actor id db job found in
    let same_db : d ≡ db' = cc (e, h) in
    subst (λ x. JobsMove db.jobs x.jobs) same_db (by_answer job r d a)
  where
    by_answer :
        (job : Job) (r : CancelReply) (d : Db)
        → Answers now actor job db r d
        → JobsMove db.jobs d.jobs
    by_answer job r d (inl (_, _, e)) =
        subst (λ (x : Db). JobsMove db.jobs x.jobs) (sym e) (JobsMove-refl db.jobs)
    by_answer job r d (inr (inl (_, _, e))) =
        subst (λ (x : Db). JobsMove db.jobs x.jobs) (sym e) (JobsMove-refl db.jobs)
    by_answer job r d (inr (inr (_, _, _, e))) =
        subst (λ (x : Db). JobsMove db.jobs x.jobs) (sym e)
          (write_cancellation-JobsMove now actor job db)
