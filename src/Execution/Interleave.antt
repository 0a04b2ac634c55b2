-- ===== src/Execution/Interleave.antt =====
-- The statements and transactions that other processes of the program may run between two
-- statements of a worker: any list of them, in any order. A run of a tool is among them: the task
-- `operational-tool-execute` writes only the job that the transaction which enqueued it inserted,
-- so its statement on the id of a job of the kernel does not occur, and has no effect here. The id of
-- a new job is random, so no event has it.
use moatazalasrai.Prelude.{
  any, Option, none, some, if◌then◌else◌, ℕ, ◌≡◌, refl, List, [], ◌∷◌, String, sym, subst, find_row,
  Option-cases, inl, inr, ◌==◌, Bool-cases, false, length,
}
use moatazalasrai.Prelude.Text.{Text}
use moatazalasrai.Execution.Errors.{Result, ok, err, ok-injective}
use moatazalasrai.Execution.Schema.{
  Scenario, Grant, Db, Job, Level, Usage, Workspace, Summary, Task, Audit, Artifact, info, warn,
}
use moatazalasrai.Execution.Db.{
  of_job, is_job, find_job, set_job, insert_event, add_task, add_audit,
}
use moatazalasrai.Execution.Transition.{TransitionInput, transition}
use moatazalasrai.Execution.Cancellation.{Actor, request_cancellation}
use moatazalasrai.Execution.Events.Laws.{LogsKept, insert_event-LogsKept}
use moatazalasrai.Execution.Grants.{insert_grant, consume_grant}
use moatazalasrai.Execution.Grants.Laws.{consume_grant-IsGranted}
use moatazalasrai.Execution.Moves.{
  DbMoves, DbMoves-refl, DbMoves-trans, transition-DbMoves, request_cancellation-DbMoves,
}
use moatazalasrai.Execution.Leases.{is_held, claim, acquire_lease, heartbeat_lease, release_lease}
use moatazalasrai.Execution.Events.{
  append_event, append_chunk, append_output, append_output_lem, OutputChunk, Stream, stdout, stderr,
}
use moatazalasrai.Execution.Status.{Status, stay}
use moatazalasrai.Execution.Records.{
  StepUpdate, update_step, update_usage, set_workspace, set_summary, revoke_grants, insert_artifact,
}
use moatazalasrai.Execution.Creation.{CreateSettings, Drawn, create_execution}
use moatazalasrai.Execution.Creation.Laws.{create_execution-Outcome}
use moatazalasrai.Execution.ToolRuns.{
  ToolRequest, create_tool_run, claim_tool, finish_tool, fail_tool,
}
use moatazalasrai.Execution.ToolRuns.Moves.{
  no_events, create_tool_run-DbMoves, claim_tool-DbMoves, finish_tool-DbMoves, fail_tool-DbMoves,
}
use moatazalasrai.Execution.History.{status_in, JobsMove, JobsMove-refl, update_rows-JobsMove_all}

pub data Op : Type 0 where
  transitions : ℕ → TransitionInput → Op
  cancels : ℕ → Actor → ℕ → Op
  appends : ℕ → ℕ → String → String → Level → Op
  acquires : ℕ → ℕ → ℕ → ℕ → ℕ → ℕ → Op
  beats : ℕ → ℕ → ℕ → ℕ → Op
  releases : ℕ → ℕ → Op
  steps : ℕ → ℕ → StepUpdate → Op
  uses : Usage → Op
  places : ℕ → ℕ → (Workspace → Workspace) → Op
  summarises : ℕ → ℕ → ℕ → Summary → Op
  revokes : ℕ → ℕ → ℕ → Op
  stores : Artifact → Op
  enqueues : Task → Op
  audits : Audit → Op
  issues : Grant → Op
  consumes : ℕ → ℕ → Text → Text → ℕ → Op
  creates : CreateSettings → Scenario → Actor → String → Drawn → Op
  creates_tool : ToolRequest → Op
  claims_tool : ℕ → ℕ → ℕ → Op
  finishes_tool : ℕ → ℕ → ℕ → ℕ → Op
  fails_tool : ℕ → ℕ → ℕ → String → Op

-- A transaction that throws is rolled back.
abbrev pub commit {ℓ} : {A : Type ℓ} → Db → Result (A × Db) → Db
commit db (ok (_, d)) = d
commit db (err _) = db

-- A statement that inserts a job with an id, and one that writes a job that runs a tool.
abbrev on_new : ℕ → Db → Db → Db
on_new id db d = if any (of_job id) db.events then db else d

abbrev unless_kernel : Option Status → Db → Db → Db
unless_kernel none db d = d
unless_kernel (some status) db d = db

abbrev on_tool : ℕ → Db → Db → Db
on_tool id db d = unless_kernel (status_in id db.jobs) db d

unfoldable pub apply_op : Op → Db → Db
apply_op (transitions now input) db = commit db (transition now input db)
apply_op (cancels now actor id) db = commit db (request_cancellation now actor id db)
apply_op (appends o j kind source level) db = commit db (append_event o j kind source level db)
apply_op (acquires o j w h now e) db = commit db (acquire_lease o j w h now e db)
apply_op (beats j h now ttl) db = commit db (heartbeat_lease j h now ttl db)
apply_op (releases j h) db = commit db (release_lease j h db)
apply_op (steps now j u) db = commit db (update_step now j u db)
apply_op (uses u) db = commit db (update_usage u db)
apply_op (places o i f) db = commit db (set_workspace o i f db)
apply_op (summarises now o j s) db = commit db (set_summary now o j s db)
apply_op (revokes now o j) db = commit db (revoke_grants now o j db)
apply_op (stores a) db = commit db (insert_artifact a db)
apply_op (enqueues t) db = add_task t db
apply_op (audits a) db = add_audit a db
apply_op (issues g) db = commit db (insert_grant g db)
apply_op (consumes j h host operation now) db = commit db (consume_grant j h host operation now db)
apply_op (creates s scenario actor key d) db =
    on_new d.job db (commit db (create_execution s scenario actor key d db))
apply_op (creates_tool request) db = on_new request.row.id db (create_tool_run request db)
apply_op (claims_tool o j now) db = on_tool j db (commit db (claim_tool o j now db))
apply_op (finishes_tool o j now artifacts) db = on_tool j db (finish_tool o j now artifacts db)
apply_op (fails_tool o j now code) db = on_tool j db (fail_tool o j now code db)

unfoldable pub apply_ops : List Op → Db → Db
unfolding apply_op
apply_ops [] db = db
apply_ops (o ∷ os) db = apply_ops os (apply_op o db)

-- The jobs of a database that a transaction has committed, or kept as they were.
pub commit-DbMoves {ℓ} :
    {A : Type ℓ} (db : Db) (r : Result (A × Db))
    → ((a : A) (d : Db) → r ≡ ok (a, d) → DbMoves db d)
    → DbMoves db (commit db r)
commit-DbMoves db (ok (a, d)) h = h a d refl
commit-DbMoves db (err e) h = DbMoves-refl db

-- A transaction that writes no job, and no event but at the end of its log.
abbrev pub KeepsJobs {ℓ} : {A : Type ℓ} → Db → Result (A × Db) → Type 0
KeepsJobs db (ok (_, d)) = (d.jobs ≡ db.jobs) × LogsKept db.events d.events
KeepsJobs db (err e) = Unit

pub KeepsJobs-DbMoves {ℓ} :
    {A : Type ℓ} (db : Db) (r : Result (A × Db))
    → KeepsJobs db r
    → (a : A) (d : Db) → r ≡ ok (a, d)
    → DbMoves db d
KeepsJobs-DbMoves db (ok (b, c)) k a d e =
    let same_db : c ≡ d = cc e in
    subst (DbMoves db) same_db
      (record { status = subst (JobsMove db.jobs) (sym k.0) (JobsMove-refl db.jobs); logs = k.1 })
KeepsJobs-DbMoves db (err x) k a d e = absurd (cc e)

pub append_event-KeepsJobs :
    (o j : ℕ) (kind source : String) (level : Level) (db : Db)
    → KeepsJobs db (append_event o j kind source level db)
unfolding append_event insert_event
append_event-KeepsJobs o j kind source level db = elim (Option-cases (find_job o j db)) [
  | inl missing ↦ rw missing tt
  | inr (job, there) ↦ rw there (refl, insert_event-LogsKept j kind source level db)
]

pub append_chunk-KeepsJobs :
    (o j : ℕ) (s : Stream) (c : OutputChunk) (db : Db) → KeepsJobs db (append_chunk o j s c db)
append_chunk-KeepsJobs o j s c db = elim (Bool-cases (length c.text == 0)) [
  | inl nothing ↦ unfold append_chunk in rw nothing (refl, λ k h. h)
  | inr something ↦ by_stream s something
]
  where
    by_stream : (s : Stream) → (length c.text == 0) ≡ false → KeepsJobs db (append_chunk o j s c db)
    by_stream stdout e =
        unfold append_chunk in rw e (append_event-KeepsJobs o j "stdout.chunk" "runner" info db)
    by_stream stderr e =
        unfold append_chunk in rw e (append_event-KeepsJobs o j "stderr.chunk" "runner" warn db)

pub append_output-KeepsJobs :
    (decode : List ℕ → Text) (o j : ℕ) (s : Stream) (chunk : List ℕ) (db : Db)
    → KeepsJobs db (append_output decode o j s chunk db)
append_output-KeepsJobs decode o j s chunk db =
    rw (append_output_lem decode o j s chunk) (append_chunk-KeepsJobs o j s _ db)

pub acquire_lease-KeepsJobs :
    (o j w h now e : ℕ) (db : Db) → KeepsJobs db (acquire_lease o j w h now e db)
unfolding acquire_lease
acquire_lease-KeepsJobs o j w h now e db = elim (Option-cases (find_job o j db)) [
  | inl missing ↦ rw missing tt
  | inr (job, there) ↦ elim (Option-cases (claim j w h now e db.leases)) [
    | inl refused ↦ rw (there, refused, acquire_lease) tt
    | inr (leases, won) ↦ rw (there, won, acquire_lease) (refl, λ k n. n)
  ]
]

pub heartbeat_lease-KeepsJobs :
    (j h now ttl : ℕ) (db : Db) → KeepsJobs db (heartbeat_lease j h now ttl db)
unfolding heartbeat_lease
heartbeat_lease-KeepsJobs j h now ttl db = elim (Option-cases (find_row (is_held j h) db.leases)) [
  | inl missing ↦ rw (missing, heartbeat_lease) tt
  | inr (l, there) ↦ rw (there, heartbeat_lease) (refl, λ k n. n)
]

pub update_usage-KeepsJobs : (u : Usage) (db : Db) → KeepsJobs db (update_usage u db)
unfolding update_usage
update_usage-KeepsJobs u db =
    elim (Option-cases (find_row (λ (x : Usage). x.job == u.job) db.usage)) [
      | inl missing ↦ rw (missing, update_usage) (refl, λ k n. n)
      | inr (x, there) ↦ rw (there, update_usage) (refl, λ k n. n)
    ]

pub set_summary-DbMoves :
    (now o j : ℕ) (s : Summary) (db : Db) {u : Unit {0}} {d : Db}
    → set_summary now o j s db ≡ ok (u, d)
    → DbMoves db d
unfolding set_summary set_job
set_summary-DbMoves now o j s db {u} {d} e =
    subst (λ r. DbMoves db r.1) (ok-injective e)
      (record {
        status =
            update_rows-JobsMove_all (is_job o j)
              (λ (x : Job). record x { summary = s; updated_at = now }) db.jobs (λ x. refl)
              (λ x. refl) (λ x t. stay);
        logs = λ k n. n;
      })

consume_grant-DbMoves :
    (j h : ℕ) (host operation : Text) (now : ℕ) (db : Db) {g : Grant} {d : Db}
    → consume_grant j h host operation now db ≡ ok (g, d)
    → DbMoves db d
consume_grant-DbMoves j h host operation now db e =
    subst (DbMoves db) (sym (consume_grant-IsGranted j h host operation now db e).1)
      (record { status = JobsMove-refl db.jobs; logs = λ k n. n })

on_new-DbMoves :
    (id : ℕ) (db d : Db)
    → (any (of_job id) db.events ≡ false → DbMoves db d)
    → DbMoves db (on_new id db d)
on_new-DbMoves id db d h = elim (Bool-cases (any (of_job id) db.events)) [
  | inl taken ↦ rw taken (DbMoves-refl db)
  | inr fresh ↦ rw fresh (h fresh)
]

on_tool-DbMoves :
    (id : ℕ) (db d : Db)
    → (status_in id db.jobs ≡ none → DbMoves db d)
    → DbMoves db (on_tool id db d)
on_tool-DbMoves id db d h = elim (Option-cases (status_in id db.jobs)) [
  | inl absent ↦ rw absent (h absent)
  | inr (status, kernel) ↦ rw kernel (DbMoves-refl db)
]

-- Whatever single statement another process runs, each job moves along the table and each log
-- stays numbered.
pub apply_op-DbMoves : (op : Op) (db : Db) → DbMoves db (apply_op op db)
unfolding apply_op
apply_op-DbMoves (transitions now input) db =
    commit-DbMoves db _ (λ a d e. transition-DbMoves now input db e)
apply_op-DbMoves (cancels now actor id) db =
    commit-DbMoves db _ (λ a d e. request_cancellation-DbMoves now actor id db e)
apply_op-DbMoves (appends o j kind source level) db =
    commit-DbMoves db _ (KeepsJobs-DbMoves db _ (append_event-KeepsJobs o j kind source level db))
apply_op-DbMoves (acquires o j w h now e) db =
    commit-DbMoves db _ (KeepsJobs-DbMoves db _ (acquire_lease-KeepsJobs o j w h now e db))
apply_op-DbMoves (beats j h now ttl) db =
    commit-DbMoves db _ (KeepsJobs-DbMoves db _ (heartbeat_lease-KeepsJobs j h now ttl db))
apply_op-DbMoves (releases j h) db =
    unfold release_lease in record { status = JobsMove-refl db.jobs; logs = λ k n. n }
apply_op-DbMoves (steps now j u) db =
    unfold update_step in record { status = JobsMove-refl db.jobs; logs = λ k n. n }
apply_op-DbMoves (uses u) db =
    commit-DbMoves db _ (KeepsJobs-DbMoves db _ (update_usage-KeepsJobs u db))
apply_op-DbMoves (places o i f) db =
    unfold set_workspace in record { status = JobsMove-refl db.jobs; logs = λ k n. n }
apply_op-DbMoves (summarises now o j s) db =
    commit-DbMoves db _ (λ a d e. set_summary-DbMoves now o j s db e)
apply_op-DbMoves (revokes now o j) db =
    unfold revoke_grants in record { status = JobsMove-refl db.jobs; logs = λ k n. n }
apply_op-DbMoves (stores a) db =
    unfold insert_artifact in record { status = JobsMove-refl db.jobs; logs = λ k n. n }
apply_op-DbMoves (enqueues t) db =
    unfold add_task in record { status = JobsMove-refl db.jobs; logs = λ k n. n }
apply_op-DbMoves (audits a) db =
    unfold add_audit in record { status = JobsMove-refl db.jobs; logs = λ k n. n }
apply_op-DbMoves (issues g) db =
    unfold insert_grant in record { status = JobsMove-refl db.jobs; logs = λ k n. n }
apply_op-DbMoves (consumes j h host operation now) db =
    commit-DbMoves db _ (λ g d e. consume_grant-DbMoves j h host operation now db e)
apply_op-DbMoves (creates s scenario actor key d) db = on_new-DbMoves d.job db _ λ fresh.
    commit-DbMoves db _ λ reply after e.
      (create_execution-Outcome s scenario actor key d db e (no_events d.job db.events fresh)).0
apply_op-DbMoves (creates_tool request) db =
    on_new-DbMoves request.row.id db _ (create_tool_run-DbMoves request db)
apply_op-DbMoves (claims_tool o j now) db =
    on_tool-DbMoves j db _
      λ absent. commit-DbMoves db _ (λ claimed d e. claim_tool-DbMoves o j db absent now e)
apply_op-DbMoves (finishes_tool o j now artifacts) db =
    on_tool-DbMoves j db _ (λ absent. finish_tool-DbMoves o j db absent now artifacts)
apply_op-DbMoves (fails_tool o j now code) db =
    on_tool-DbMoves j db _ (λ absent. fail_tool-DbMoves o j db absent now code)

pub apply_ops-DbMoves : (ops : List Op) (db : Db) → DbMoves db (apply_ops ops db)
unfolding apply_ops
apply_ops-DbMoves [] db = DbMoves-refl db
apply_ops-DbMoves (o ∷ os) db =
    DbMoves-trans db (apply_op o db) _ (apply_op-DbMoves o db)
      (apply_ops-DbMoves os (apply_op o db))
