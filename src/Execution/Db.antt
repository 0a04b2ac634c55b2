-- ===== src/Execution/Db.antt =====
-- Queries and statements over the tables, as the kernel writes them in its `where` clauses. A
-- statement that throws inside a transaction leaves the database as it was, so a transaction is a
-- function into `Result`.
use moatazalasrai.Prelude.{
  ℕ, ◌≡◌, some_inv, sym, ◌∙◌, arith, find_row_sound, ◌+◌, Bool, ◌&&◌, List, [], ◌∷◌, ◌++◌, Option,
  some, String, ◌==◌, find_row, select_rows, update_rows, max_of,
}
use moatazalasrai.Execution.Errors.{Result}
use moatazalasrai.Execution.Schema.{Db, Job, Event, Level, Task, Audit}

-- A transaction: the result with the new database, or the thrown value.
abbrev pub Tx : Type 0 → Type 0
Tx A = Db → Result (A × Db)

-- `eq(executionJobs.id, id) and eq(executionJobs.organizationId, organization)`
abbrev pub is_job : ℕ → ℕ → Job → Bool
is_job organization id j = j.id == id && j.organization == organization

unfoldable pub find_job : ℕ → ℕ → Db → Option Job
find_job organization id db = find_row (is_job organization id) db.jobs

-- `update(executionJobs).set(f).where(is_job)`
unfoldable pub set_job : ℕ → ℕ → (Job → Job) → Db → Db
set_job organization id f db = record db { jobs = update_rows (is_job organization id) f db.jobs }

abbrev pub of_job : ℕ → Event → Bool
of_job job e = e.job == job

-- `coalesce(max(sequence), 0) + 1` over the events of a job.
unfoldable pub next_sequence : ℕ → List Event → ℕ
next_sequence job events = max_of (λ (e : Event). e.sequence) (select_rows (of_job job) events) + 1

unfoldable pub insert_event : ℕ → String → String → Level → Db → Db
insert_event job kind source level db = record db {
  events =
      db.events
      ++ record {
        job = job;
        sequence = next_sequence job db.events;
        kind = kind;
        source = source;
        level = level;
      }
        ∷ [];
}

-- `enqueueExecutionTaskTx`
unfoldable pub add_task : Task → Db → Db
add_task t db = record db { tasks = db.tasks ++ t ∷ [] }

unfoldable pub add_audit : Audit → Db → Db
add_audit a db = record db { audits = db.audits ++ a ∷ [] }

-- The job that is found has the id and the organization that were asked for.
pub find_job-is_job :
    (organization id : ℕ) (db : Db) {j : Job}
    → find_job organization id db ≡ some j
    → (j.id ≡ id) × (j.organization ≡ organization)
unfolding find_job
find_job-is_job organization id db {j} h =
    ground (arith, find_row_sound (is_job organization id) db.jobs h)

-- Looking the job up again by the id of the job that was found gives the same job.
pub find_job-again :
    (organization id : ℕ) (db : Db) {j k : Job}
    → find_job organization id db ≡ some j
    → find_row (is_job organization j.id) db.jobs ≡ some k
    → k ≡ j
unfolding find_job
find_job-again organization id db {j} {k} h e =
    let same_id = (find_job-is_job organization id db h).0 in some_inv (sym (rw same_id at e) ∙ h)
