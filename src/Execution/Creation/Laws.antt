-- ===== src/Execution/Creation/Laws.antt =====
-- Creation is idempotent in its key, and a new job starts queued with the first two events.
use moatazalasrai.Prelude.{
  ℕ, ◌≡◌, refl, subst, Bool, true, false, List, [], ◌∷◌, ◌++◌, Option, none, some, String, ◌⊎◌,
  ◌==◌, if◌then◌else◌, find_row, select_rows, Bool-cases, inl, inr, arith, ==_refl,
}
use text.Mathlib.TextPositions.{compare_refl}
use moatazalasrai.Execution.Status.{queued}
use moatazalasrai.Execution.Errors.{ok, bind-eq-ok, ok-injective}
use moatazalasrai.Prelude.Text.{codes, has_text, text_eq, trim}
use moatazalasrai.Execution.Schema.{
  Db, Job, Event, Scenario, NetworkPolicy, RunnerKind, Limits, allowlist, deny_all,
}
use moatazalasrai.Execution.Network.Policy.{parse_policy}
use moatazalasrai.Execution.Quota.{platform_limits}
use moatazalasrai.Execution.Quota.Laws.{platform_limits-is_valid}
use moatazalasrai.Execution.Validation.{diagnostic_request}
use moatazalasrai.Execution.Validation.Laws.{diagnostic_command-ok}
use moatazalasrai.Execution.Db.{of_job, add_task, add_audit}
use moatazalasrai.Execution.History.{append-JobsMove}
use moatazalasrai.Execution.Moves.{DbMoves, DbMoves-refl}
use moatazalasrai.Execution.Events.Laws.{IsNumbered, LogsKept}
use moatazalasrai.Execution.Cancellation.{Actor}
use moatazalasrai.Execution.Creation.{
  CreateSettings, Prepared, prepare, default_policy, Drawn, new_job, insert_execution, CreateReply,
  has_key, create_with, create_execution,
}

find_row-append_own :
    (p : Job → Bool) (js : List Job) (j : Job)
    → p j ≡ true
    → find_row p js ≡ none
    → find_row p (js ++ j ∷ []) ≡ some j
unfolding find_row
find_row-append_own p [] j own e = rw own refl
find_row-append_own p (x ∷ js) j own e = ground (arith, find_row-append_own p js j own)

-- What a successful creation has done.
create_execution-with :
    (s : CreateSettings) (scenario : Scenario) (actor : Actor) (key : String) (d : Drawn) (db : Db)
    {reply : CreateReply} {db' : Db}
    → create_execution s scenario actor key d db ≡ ok (reply, db')
    → (p : Prepared) × (create_with s scenario p actor key d
          (find_row (has_key actor.organization key) db.jobs)
          db
        ≡ (reply, db'))
unfolding create_execution
create_execution-with s scenario actor key d db {reply} {db'} h =
    let (p, _, rest) = bind-eq-ok (prepare s scenario) _ h in (p, ok-injective rest)

new_job-has_key :
    (s : CreateSettings) (scenario : Scenario) (p : Prepared) (actor : Actor) (key : String)
    (d : Drawn)
    → has_key actor.organization key (new_job s scenario p actor key d) ≡ true
unfolding new_job
new_job-has_key s scenario p actor key d = rw (==_refl actor.organization, compare_refl key) refl

-- After a creation the job of the reply is the one with the key.
create_with-find_row :
    (s : CreateSettings) (scenario : Scenario) (p : Prepared) (actor : Actor) (key : String)
    (d : Drawn) (db : Db) (o : Option Job)
    → find_row (has_key actor.organization key) db.jobs ≡ o
    → find_row (has_key actor.organization key) (create_with s scenario p actor key d o db).1.jobs
      ≡ some (create_with s scenario p actor key d o db).0.job
unfolding create_with insert_execution add_audit add_task
create_with-find_row s scenario p actor key d db (some j) e = e
create_with-find_row s scenario p actor key d db none e =
    find_row-append_own (has_key actor.organization key) db.jobs (new_job s scenario p actor key d)
      (new_job-has_key s scenario p actor key d) e

-- Creation is idempotent: after a creation has succeeded, any creation with the same key in the
-- same organization that gets as far as the database gives back the same job, marked as a
-- duplicate, and writes nothing, whatever its actor, scenario, settings, ids and time are.
pub create_execution-again :
    (s : CreateSettings) (scenario : Scenario) (actor : Actor) (key : String) (d : Drawn) (db : Db)
    {reply : CreateReply} {db' : Db}
    → create_execution s scenario actor key d db ≡ ok (reply, db')
    → (s' : CreateSettings) (scenario' : Scenario) (actor' : Actor) (d' : Drawn) {p' : Prepared}
    → actor'.organization ≡ actor.organization
    → prepare s' scenario' ≡ ok p'
    → create_execution s' scenario' actor' key d' db'
      ≡ ok (record { job = reply.job; duplicate = true }, db')
unfolding create_execution
create_execution-again s scenario actor key d db {reply} {db'} h s' scenario' actor' d' {p'}
      same_org ready =
    let (p, done) = create_execution-with s scenario actor key d db h in
    let found : find_row (has_key actor.organization key) db'.jobs ≡ some reply.job =
      subst (λ r. find_row (has_key actor.organization key) r.1.jobs ≡ some r.0.job) done
        (create_with-find_row s scenario p actor key d db _ refl) in
    rw (ready, same_org, found, create_with)

select_rows-own :
    (job : ℕ) (es : List Event) (first second : Event)
    → select_rows (of_job job) es ≡ []
    → (of_job job first ≡ true) × (of_job job second ≡ true)
    → select_rows (of_job job) (es ++ first ∷ second ∷ []) ≡ first ∷ second ∷ []
unfolding select_rows
select_rows-own job [] first second e own = rw (own.0, own.1)
select_rows-own job (x ∷ es) first second e own = elim (Bool-cases (of_job job x)) [
  | inl hit ↦ absurd (cc (rw hit at e))
  | inr miss ↦ rw miss (select_rows-own job es first second (rw miss at e) own)
]

select_rows-foreign :
    (k : ℕ) (es : List Event) (first second : Event)
    → (of_job k first ≡ false) × (of_job k second ≡ false)
    → select_rows (of_job k) (es ++ first ∷ second ∷ []) ≡ select_rows (of_job k) es
unfolding select_rows
select_rows-foreign k [] first second foreign = rw (foreign.0, foreign.1)
select_rows-foreign k (x ∷ es) first second foreign =
    rw (select_rows-foreign k es first second foreign) refl

-- The first two events of a job that has none.
pub new_events-LogsKept :
    (job : ℕ) (es : List Event) (first second : Event)
    → select_rows (of_job job) es ≡ []
    → (first.job ≡ job) × (first.sequence ≡ 1)
    → (second.job ≡ job) × (second.sequence ≡ 2)
    → LogsKept es (es ++ first ∷ second ∷ [])
new_events-LogsKept job es first second fresh f g k h = elim (Bool-cases (job == k)) [
  | inl hit ↦
      let same_job : job ≡ k = ground arith in
      rw (select_rows-own k es first second (rw same_job at fresh) (ground arith, ground arith))
        (f.1, (g.1, tt))
  | inr miss ↦ rw (select_rows-foreign k es first second (ground arith, ground arith)) h
]

-- The two ways in which a creation succeeds.
abbrev pub Outcome : ℕ → String → ℕ → Db → CreateReply → Db → Type 0
Outcome organization key job db reply db' =
    ((find_row (has_key organization key) db.jobs ≡ none)
      × (reply.duplicate ≡ false)
      × (reply.job.status ≡ queued)
      × IsNumbered job db'.events)
    ⊎ ((find_row (has_key organization key) db.jobs ≡ some reply.job)
        × (reply.duplicate ≡ true)
        × (db' ≡ db))

insert_execution-DbMoves :
    (s : CreateSettings) (scenario : Scenario) (p : Prepared) (actor : Actor) (key : String)
    (d : Drawn) (db : Db)
    → select_rows (of_job d.job) db.events ≡ []
    → DbMoves db (insert_execution s scenario p actor key d db)
unfolding insert_execution add_audit add_task
insert_execution-DbMoves s scenario p actor key d db fresh = record {
  status = append-JobsMove (new_job s scenario p actor key d) db.jobs (unfold new_job in refl);
  logs = new_events-LogsKept d.job db.events _ _ fresh (refl, refl) (refl, refl);
}

create_with-Outcome :
    (s : CreateSettings) (scenario : Scenario) (p : Prepared) (actor : Actor) (key : String)
    (d : Drawn) (db : Db) (o : Option Job)
    → find_row (has_key actor.organization key) db.jobs ≡ o
    → select_rows (of_job d.job) db.events ≡ []
    → DbMoves db (create_with s scenario p actor key d o db).1
      × Outcome actor.organization key d.job db
          (create_with s scenario p actor key d o db).0
          (create_with s scenario p actor key d o db).1
unfolding create_with
create_with-Outcome s scenario p actor key d db (some j) e fresh =
    (DbMoves-refl db, inr (e, refl, refl))
create_with-Outcome s scenario p actor key d db none e fresh =
    let moves = insert_execution-DbMoves s scenario p actor key d db fresh in
    (moves, inl (e, refl, (unfold new_job in refl), moves.logs d.job (rw fresh tt)))

-- A creation moves every job along the transition table, where a new job starts queued, and keeps
-- every event log numbered from 1 without a gap, if no events carry the id that it draws. Its reply
-- is a duplicate exactly when a job of the organization has the key already, and then nothing is
-- written.
pub create_execution-Outcome :
    (s : CreateSettings) (scenario : Scenario) (actor : Actor) (key : String) (d : Drawn) (db : Db)
    {reply : CreateReply} {db' : Db}
    → create_execution s scenario actor key d db ≡ ok (reply, db')
    → select_rows (of_job d.job) db.events ≡ []
    → DbMoves db db' × Outcome actor.organization key d.job db reply db'
create_execution-Outcome s scenario actor key d db {reply} {db'} h fresh =
    let (p, done) = create_execution-with s scenario actor key d db h in
    subst (λ r. DbMoves db r.1 × Outcome actor.organization key d.job db r.0 r.1) done
      (create_with-Outcome s scenario p actor key d db _ refl fresh)

abbrev policy_of : Bool → NetworkPolicy
policy_of open_network = record {
  mode = if open_network then allowlist else deny_all;
  allowed_hosts = [];
  allowed_ports = [];
  allow_dns = false;
  allowed_methods = codes "GET" ∷ codes "HEAD" ∷ [];
  max_requests = 0;
}

default_policy-ok : (b : Bool) → default_policy b ≡ ok (policy_of b)
unfolding default_policy parse_policy has_text text_eq trim
default_policy-ok true = refl
default_policy-ok false = refl

pub prepare-ok :
    (s : CreateSettings) (scenario : Scenario) (l : Limits) (runner : RunnerKind)
    → s.enabled ≡ true
    → s.runner ≡ some runner
    → platform_limits s.limits ≡ ok l
    → (p : Prepared) × (prepare s scenario ≡ ok p)
unfolding prepare
prepare-ok s scenario l runner enabled chosen limited = (
  record {
    limits = l;
    policy = policy_of s.open_network;
    runner = runner;
    request = diagnostic_request scenario l;
  },
  rw (
    enabled,
    limited,
    default_policy-ok s.open_network,
    chosen,
    diagnostic_command-ok scenario l (platform_limits-is_valid s.limits limited),
  ),
)

-- Where the kernel is enabled, names a runner and has valid limits, a creation succeeds for every
-- scenario, actor and key: no fixed command and no default policy is refused by the checks.
pub create_execution-succeeds :
    (s : CreateSettings) (scenario : Scenario) (actor : Actor) (key : String) (d : Drawn) (db : Db)
    (l : Limits) (runner : RunnerKind)
    → s.enabled ≡ true
    → s.runner ≡ some runner
    → platform_limits s.limits ≡ ok l
    → (reply : CreateReply) × (db' : Db) × (create_execution s scenario actor key d db
        ≡ ok (reply, db'))
unfolding create_execution
create_execution-succeeds s scenario actor key d db l runner enabled chosen limited =
    let (p, ready) = prepare-ok s scenario l runner enabled chosen limited in
    let done =
      create_with s scenario p actor key d (find_row (has_key actor.organization key) db.jobs) db in
    (done.0, done.1, rw ready)
