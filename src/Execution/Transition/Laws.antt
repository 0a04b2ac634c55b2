-- ===== src/Execution/Transition/Laws.antt =====
-- When a transition succeeds, what it writes, and what it needs.
use moatazalasrai.Prelude.{
  ◌==◌, ◌&&◌, ◌++◌, ◌∷◌, [], update_rows, ℕ, ◌≡◌, refl, sym, ap, ◌≤◌, ◌⊎◌, inl, inr, true, false,
  some, Bool-cases, if◌then◌else◌, select_rows, length, or_else, arith, subst,
}
use moatazalasrai.Execution.Status.{
  running, failed, transition_event, Walk, stay, move, same, same→eq, one_of, is_terminal,
  can_transition, completed,
}
use moatazalasrai.Execution.Errors.{
  ok, err, ◌>>◌, refuse, guard-eq-ok, need-eq-ok, >>-eq-ok, ok-injective, terminal,
}
use moatazalasrai.Execution.Schema.{Db, Job, info, error}
use moatazalasrai.Execution.Db.{next_sequence, find_job, set_job, insert_event, find_job-again}
use moatazalasrai.Execution.History.{JobsMove, JobsMove-refl, update_rows-JobsMove}
use moatazalasrai.Execution.Transition.{
  TransitionInput, keep, event_level, is_incomplete, is_artifact_of, assert_completion_evidence,
  transition_row, check_transition, write_transition, transition,
}

-- The evidence that completion needs: no step of the job is open, the summary is verified, and
-- the artifacts that it requires are stored.
pub record HasEvidence (db : Db) (job : Job) : Type 0 where
  pub steps_done : length (select_rows (is_incomplete job.id) db.steps) ≡ 0
  pub verified : job.summary.execution_verified ≡ some true
  pub stored :
      or_else job.summary.required_artifact_count 0
      ≤ length (select_rows (is_artifact_of job.id) db.artifacts)

assert_completion_evidence-HasEvidence :
    (db : Db) (job : Job) → assert_completion_evidence db job ≡ ok tt → HasEvidence db job
unfolding assert_completion_evidence
assert_completion_evidence-HasEvidence db job h = ground arith

-- What the checks have established when they pass.
pub record IsAllowed (input : TransitionInput) (db : Db) (job : Job) : Type 0 where
  pub expected : one_of input.expected job.status ≡ true
  pub legal : can_transition job.status input.next ≡ true
  pub evidence : input.next ≡ completed → HasEvidence db job

check_transition-IsAllowed :
    (input : TransitionInput) (db : Db) (job : Job)
    → check_transition input db job ≡ ok tt
    → IsAllowed input db job
unfolding check_transition
check_transition-IsAllowed input db job h =
    let (expected, rest) = guard-eq-ok (one_of input.expected job.status) _ _ h in
    let (legal, last) = guard-eq-ok (can_transition job.status input.next) _ _ rest in
    record {
      expected = expected;
      legal = legal;
      evidence = λ e. assert_completion_evidence-HasEvidence db job (evidence_step e last);
    }
  where
    evidence_step :
        input.next ≡ completed
        → (if same input.next completed then assert_completion_evidence db job else ok tt) ≡ ok tt
        → assert_completion_evidence db job ≡ ok tt
    evidence_step e h = rw e at h

-- The two ways to succeed: of a job that has ended, and of one that has not.
pub record Succeeds (now : ℕ) (input : TransitionInput) (db : Db) (job : Job) (db' : Db)
    : Type 0 where
  pub found : Job
  pub is_found : find_job input.organization input.job db ≡ some found
  pub outcome :
      ((is_terminal found.status ≡ true) × (found.status ≡ input.next) × (job ≡ found) × (db' ≡ db))
      ⊎ ((is_terminal found.status ≡ false)
          × IsAllowed input db found
          × (job ≡ (write_transition now input found db).0)
          × (db' ≡ (write_transition now input found db).1))

-- A transition that succeeds found the job, in one of the two ways.
pub transition-Succeeds :
    (now : ℕ) (input : TransitionInput) (db : Db) {job : Job} {db' : Db}
    → transition now input db ≡ ok (job, db')
    → Succeeds now input db job db'
unfolding transition
transition-Succeeds now input db {job} {db'} h =
    let (found, is_found, rest) = need-eq-ok (find_job input.organization input.job db) _ _ h in
    record { found = found; is_found = is_found; outcome = ended found rest }
  where
    ended :
        (found : Job)
        → (if is_terminal found.status
            then (if same found.status input.next then ok (found, db) else err (refuse terminal))
            else (check_transition input db found >> ok (write_transition now input found db)))
          ≡ ok (job, db')
        → ((is_terminal found.status ≡ true)
            × (found.status ≡ input.next)
            × (job ≡ found)
            × (db' ≡ db))
          ⊎ ((is_terminal found.status ≡ false)
              × IsAllowed input db found
              × (job ≡ (write_transition now input found db).0)
              × (db' ≡ (write_transition now input found db).1))
    ended found e = elim (Bool-cases (is_terminal found.status)) [
      | inl over ↦ elim (Bool-cases (same found.status input.next)) [
        | inl hit ↦
            let p = ok-injective (rw (over, hit) at e) in
            inl (over, same→eq _ _ hit, sym (ap (λ r. r.0) p), sym (ap (λ r. r.1) p))
        | inr miss ↦ absurd (cc (rw (over, miss) at e))
      ]
      | inr open_job ↦
          let (checked, written) =
            >>-eq-ok (check_transition input db found) _ (rw open_job at e) in
          let p = ok-injective written in
          inr (
            open_job,
            check_transition-IsAllowed input db found checked,
            sym (ap (λ r. r.0) p),
            sym (ap (λ r. r.1) p),
          )
    ]

-- The columns of the row that is written, and the one event that is added, beside which nothing
-- changes.
abbrev pub Writes : ℕ → TransitionInput → Db → Job → Job → Db → Type 0
Writes now input db found job db' =
    (job ≡ record found {
      status = input.next;
      updated_at = now;
      started_at =
          if same input.next running then some (or_else found.started_at now) else found.started_at;
      completed_at = if is_terminal input.next then some now else found.completed_at;
      error_code = keep input.patch.error_code found.error_code;
      error_reference = keep input.patch.error_reference found.error_reference;
      attempt_count = or_else input.patch.attempt_count found.attempt_count;
    })
    × (db' ≡ record db {
      jobs =
          update_rows (λ (j : Job). j.id == found.id && j.organization == input.organization)
            (transition_row now input) db.jobs;
      events =
          db.events
          ++ record {
            job = found.id;
            sequence = next_sequence found.id db.events;
            kind = transition_event input.next;
            source = input.source;
            level = or_else input.level (if same input.next failed then error else info);
          }
            ∷ [];
    })

-- A transition that succeeds found the job. If the job had ended already, it had ended in the
-- wanted status and nothing is written. Otherwise its status was among the expected ones, the table
-- allows the move, a completion has its evidence (no open step, a verified summary, the required
-- artifacts), the job that is answered has the new status and its times, the rows with its id are
-- written, and one event with the next number and the name of the new status is added; nothing else
-- is written.
pub transition-Writes :
    (now : ℕ) (input : TransitionInput) (db : Db) {job : Job} {db' : Db}
    → transition now input db ≡ ok (job, db')
    → (found : Job) × (find_job input.organization input.job db ≡ some found)
      × (((is_terminal found.status ≡ true)
            × (found.status ≡ input.next)
            × (job ≡ found)
            × (db' ≡ db))
          ⊎ ((is_terminal found.status ≡ false)
              × IsAllowed input db found
              × Writes now input db found job db'))
unfolding write_transition transition_row set_job insert_event event_level
transition-Writes now input db {job} {db'} h =
    let s = transition-Succeeds now input db h in
    (
      s.found,
      s.is_found,
      elim s.outcome [
        | inl ended ↦ inl ended
        | inr (open_job, allowed, row, written) ↦ inr (open_job, allowed, (row, written))
      ],
    )

-- The update of an allowed transition moves its job by one step of the table, and no other job.
write_transition-JobsMove :
    (now : ℕ) (input : TransitionInput) (db : Db) (job : Job)
    → find_job input.organization input.job db ≡ some job
    → IsAllowed input db job
    → JobsMove db.jobs (write_transition now input job db).1.jobs
unfolding write_transition set_job insert_event transition_row find_job
write_transition-JobsMove now input db job found allowed =
    update_rows-JobsMove input.organization job.id (transition_row now input) (λ j. refl)
      (λ j. refl) db.jobs
      λ j e.
        subst (λ (x : Job). Walk x.status input.next)
          (sym (find_job-again input.organization input.job db found e)) (move stay allowed.legal)

-- Every transition that succeeds, by whichever branch, moves each job along the table.
pub transition-JobsMove :
    (now : ℕ) (input : TransitionInput) (db : Db) {job : Job} {db' : Db}
    → transition now input db ≡ ok (job, db')
    → JobsMove db.jobs db'.jobs
transition-JobsMove now input db {job} {db'} h =
    let s = transition-Succeeds now input db h in
    elim s.outcome [
      | inl (_, _, _, e) ↦ subst (λ d. JobsMove db.jobs d.jobs) (sym e) (JobsMove-refl db.jobs)
      | inr (_, allowed, _, e) ↦
          subst (λ d. JobsMove db.jobs d.jobs) (sym e)
            (write_transition-JobsMove now input db s.found s.is_found allowed)
    ]
