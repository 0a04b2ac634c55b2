-- ===== src/Execution/Tests/Jobs.antt =====
-- Jobs, leases and cancellation of lib/execution at concrete inputs.
use moatazalasrai.Prelude.{
  ◌≡◌, refl, ◌⊎◌, inl, inr, true, false, List, [], ◌∷◌, none, some, arith, find_row, update_rows,
  select_rows, All,
}
use moatazalasrai.Execution.Status.{
  queued, provisioning, completed, orphaned, cancel_requested, cancelling, can_transition,
  is_terminal,
}
use moatazalasrai.Execution.Errors.{ok, err, refuse_retryable, lease_unavailable}
use moatazalasrai.Execution.Schema.{Db, Job}
use moatazalasrai.Execution.Db.{find_job}
use moatazalasrai.Execution.History.{JobsMove, status_in}
use moatazalasrai.Execution.Transition.{TransitionInput, no_patch, transition, write_transition}
use moatazalasrai.Execution.Transition.Laws.{IsAllowed, transition-Writes}
use moatazalasrai.Execution.Transition
use moatazalasrai.Execution.Events.Laws.{IsNumbered}
use moatazalasrai.Execution.Leases.{acquire_lease, leases_job}
use moatazalasrai.Execution.Leases.Laws.{
  Holds, LeaseCall, claims, beats, releases, IsForeign, calls, calls-Holds,
}
use moatazalasrai.Execution.Leases.Exclusive.{IsFree, acquire_lease-refused, acquire_lease-Holds}
use moatazalasrai.Execution.Cancellation.{Actor, CancelReply, may_see, request_cancellation}
use moatazalasrai.Execution.Cancellation.Laws.{request_cancellation-Writes}
use moatazalasrai.Execution.Cancellation
use moatazalasrai.Execution.Interleave.{finishes_tool}
use moatazalasrai.Execution.Worker.Tasks.{
  WorkerTask, provisions, runs, cleans, reconciles, operates, after_tasks, after_tasks-JobsMove,
  after_tasks-terminal, after_tasks-IsNumbered,
}
use moatazalasrai.Execution.Tests.Samples.{db, leased_db, lease, env, world, job_in}

abbrev tasks : List WorkerTask
tasks =
    provisions 7 1 3
    ∷ runs 7 1 3
    ∷ cleans 7 1 3
    ∷ reconciles
    ∷ operates (finishes_tool 7 9 100 1 ∷ [])
    ∷ []

after_tasks-JobsMove_example : JobsMove world.db.jobs (after_tasks env tasks world).db.jobs
after_tasks-JobsMove_example = after_tasks-JobsMove env tasks world

job_2_completed : status_in 2 world.db.jobs ≡ some completed
unfolding status_in find_row
job_2_completed = refl

completed-is_terminal : is_terminal completed ≡ true
unfolding is_terminal
completed-is_terminal = refl

after_tasks-terminal_example : status_in 2 (after_tasks env tasks world).db.jobs ≡ some completed
after_tasks-terminal_example =
    after_tasks-terminal env tasks world 2 completed job_2_completed completed-is_terminal

job_1-IsNumbered : IsNumbered 1 world.db.events
unfolding select_rows
job_1-IsNumbered = (refl, (refl, tt))

after_tasks-IsNumbered_example : IsNumbered 1 (after_tasks env tasks world).db.events
after_tasks-IsNumbered_example = after_tasks-IsNumbered env tasks world 1 job_1-IsNumbered

-- The move from queued to provisioning.
abbrev to_provisioning : TransitionInput
to_provisioning = record {
  organization = 7;
  job = 1;
  expected = queued ∷ orphaned ∷ [];
  next = provisioning;
  source = "worker";
  level = none;
  patch = no_patch;
}

transition_run :
    transition 50 to_provisioning db ≡ ok (write_transition 50 to_provisioning (job_in 1 queued) db)
unfolding transition find_job find_row is_terminal can_transition
transition_run = refl

transition-Writes_example :
    (found : Job) × (find_job 7 1 db ≡ some found)
    × (((is_terminal found.status ≡ true)
          × (found.status ≡ provisioning)
          × ((write_transition 50 to_provisioning (job_in 1 queued) db).0 ≡ found)
          × ((write_transition 50 to_provisioning (job_in 1 queued) db).1 ≡ db))
        ⊎ ((is_terminal found.status ≡ false)
            × IsAllowed to_provisioning db found
            × Transition.Laws.Writes 50 to_provisioning db found
                (write_transition 50 to_provisioning (job_in 1 queued) db).0
                (write_transition 50 to_provisioning (job_in 1 queued) db).1))
transition-Writes_example = transition-Writes 50 to_provisioning db transition_run

job_1-Holds : Holds 1 11 100 leased_db.leases
unfolding find_row
job_1-Holds = record { lease = lease; first = refl; own = refl; lasts = omega arith }

-- Two other workers: a claim that comes too early, and calls with a token of their own.
abbrev others : List LeaseCall
others =
    record { job = 1; hash = 12; op = claims 4 60 120 }
    ∷ record { job = 1; hash = 12; op = beats 61 60 }
    ∷ record { job = 2; hash = 11; op = releases }
    ∷ []

others-IsForeign : All (IsForeign 1 11 100) others
others-IsForeign =
    (inr (omega arith, omega arith), (inr (omega arith, tt), (inl (omega arith), tt)))

calls-Holds_example : Holds 1 11 100 (calls 7 others leased_db).leases
calls-Holds_example = calls-Holds 1 11 100 7 others leased_db others-IsForeign job_1-Holds

job_1_found : find_job 7 1 leased_db ≡ some (job_in 1 queued)
unfolding find_job find_row
job_1_found = refl

acquire_lease-refused_example :
    acquire_lease 7 1 4 12 60 120 leased_db ≡ err (refuse_retryable lease_unavailable)
acquire_lease-refused_example =
    acquire_lease-refused 7 1 11 100 4 12 60 120 leased_db (job_in 1 queued) job_1_found job_1-Holds
      (omega arith)

-- The worker of token 12 comes after the lease of token 11 has run out.
abbrev taken_over : Db
taken_over = record leased_db {
  leases =
      record {
        job = 1;
        worker = 4;
        token_hash = 12;
        acquired_at = 100;
        heartbeat_at = 100;
        expires_at = 160;
      }
      ∷ [];
}

acquire_run : acquire_lease 7 1 4 12 100 160 leased_db ≡ ok (tt, taken_over)
unfolding acquire_lease find_job find_row update_rows
acquire_run = refl

acquire_lease-Holds_example :
    Holds 1 12 160 taken_over.leases × IsFree 100 (find_row (leases_job 1) leased_db.leases)
acquire_lease-Holds_example = acquire_lease-Holds 7 1 4 12 100 160 leased_db acquire_run

abbrev owner : Actor
owner = record { organization = 7; user = 5; member = true }

owner_sees : find_row (may_see owner 1) db.jobs ≡ some (job_in 1 queued)
unfolding find_row
owner_sees = refl

request_cancellation-Writes_example :
    (reply : CancelReply) × (db' : Db) × (request_cancellation 60 owner 1 db ≡ ok (reply, db'))
    × (((is_terminal queued ≡ true)
          × (reply ≡ record { job = job_in 1 queued; accepted = false; terminal = true })
          × (db' ≡ db))
        ⊎ (((queued ≡ cancel_requested) ⊎ (queued ≡ cancelling))
            × (reply ≡ record { job = job_in 1 queued; accepted = true; terminal = false })
            × (db' ≡ db))
        ⊎ ((can_transition queued cancel_requested ≡ true)
            × (reply.accepted ≡ true)
            × (reply.terminal ≡ false)
            × Cancellation.Laws.Writes 60 owner (job_in 1 queued) db reply db'))
request_cancellation-Writes_example =
    request_cancellation-Writes 60 owner 1 db (job_in 1 queued) owner_sees
