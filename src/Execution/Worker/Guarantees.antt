-- ===== src/Execution/Worker/Guarantees.antt =====
-- What a task of lib/execution/worker-runtime.ts does whatever happens to it: its lease is given
-- back, and a failure is followed by a cleanup.
use moatazalasrai.Prelude.{
  ℕ, suc, ◌≡◌, refl, List, [], ◌∷◌, ◌++◌, Option, none, some, String, find_row, delete_rows, arith,
  Bool-cases, Option-cases, inl, inr,
}
use moatazalasrai.Execution.Status.{Status, is_terminal}
use moatazalasrai.Execution.Errors.{ok, err, Thrown, ExecutionError, as_execution_error}
use moatazalasrai.Execution.Schema.{Lease, Task, cleanup, cleanup_queue}
use moatazalasrai.Execution.Leases.{is_held, release_lease}
use moatazalasrai.Execution.Machine.{
  Env, M, World, ◌>>=◌, ◌>>◌, bind_at, finally, finally_at, ignoring, tx, commit_at, query, time,
  pure,
}
use moatazalasrai.Execution.Worker.Common.{
  take_lease, give_lease, with_lease, fail_execution, fail_open, fail_transition, current_status,
  enqueue_cleanup, enqueue, plain_task,
}
use moatazalasrai.Execution.Db.{find_job, add_task}
use moatazalasrai.Execution.Interleave.{apply_ops}

delete_rows-find_row :
    (job hash : ℕ) (ls : List Lease)
    → find_row (is_held job hash) (delete_rows (is_held job hash) ls) ≡ none
unfolding find_row delete_rows
delete_rows-find_row job hash [] = refl
delete_rows-find_row job hash (l ∷ ls) = ground (arith, delete_rows-find_row job hash ls)

give_lease-gone :
    (env : Env) (job hash : ℕ) (w : World)
    → find_row (is_held job hash) (give_lease env job hash w).1.db.leases ≡ none
unfolding give_lease tx commit_at release_lease
give_lease-gone env job hash w = delete_rows-find_row job hash _

module _ {ℓ} {A : Type ℓ} (env : Env) (organization job worker : ℕ) (body : M A) (w : World) where
  -- Where the lease is taken, the body runs from there, its result or its failure is that of the
  -- task, and afterwards the lease is gone, whatever the body did or threw.
  pub with_lease-released :
      {hash : ℕ} {w' : World}
      → take_lease env organization job worker w ≡ (ok hash, w')
      → ((with_lease env organization job worker body w).0 ≡ (body w').0)
        × (find_row (is_held job hash) (with_lease env organization job worker body w).1.db.leases
            ≡ none)
  unfolding with_lease ◌>>=◌ bind_at finally finally_at ignoring
  with_lease-released {hash} {w'} taken = rw taken (refl, give_lease-gone env job hash (body w').1)

  -- Where the lease is refused, the body does not run, and the task fails as the lease did.
  pub with_lease-refused :
      {e : Thrown} {w' : World}
      → take_lease env organization job worker w ≡ (err e, w')
      → with_lease env organization job worker body w ≡ (err e, w')
  unfolding with_lease ◌>>=◌ bind_at
  with_lease-refused refused = rw refused refl

-- One step of a program that gives a value.
step {ℓ κ} :
    {A : Type ℓ} {B : Type κ} (m : M A) (f : A → M B) (w : World) {a : A} {w' : World}
    → m w ≡ (ok a, w')
    → (m >>= f) w ≡ f a w'
unfolding ◌>>=◌ bind_at
step m f w e = rw e refl

then_step {ℓ} :
    {B : Type ℓ} (m : M (Unit {0})) (k : M B) (w : World) {u : Unit {0}} {w' : World}
    → m w ≡ (ok u, w')
    → (m >> k) w ≡ k w'
unfolding ◌>>◌
then_step m k w e = step m (λ _. k) w e

ignoring_step {ℓ} : {A : Type ℓ} (m : M A) (w : World) → ignoring m w ≡ (ok tt, (m w).1)
unfolding ignoring
ignoring_step m w = refl

module _ (env : Env) (organization job : ℕ) where
  current_status_step :
      (w : World)
      → (s : Option Status) × (w' : World) × (current_status env organization job w ≡ (ok s, w'))
  unfolding current_status query tx commit_at
  current_status_step w =
      elim (Option-cases (find_job organization job (apply_ops (env.others w.tick) w.db))) [
        | inl missing ↦ (none, after, rw (missing, commit_at) refl)
        | inr (j, there) ↦ (some j.status, after, rw (there, commit_at) refl)
      ]
    where
      after : World
      after = record { db = apply_ops (env.others w.tick) w.db; tick = suc w.tick }

  fail_open_step :
      (expected : List Status) (failure : ExecutionError) (source : String) (s : Option Status)
      (w : World)
      → (w' : World) × (fail_open env organization job expected failure source s w ≡ (ok tt, w'))
  unfolding fail_open
  fail_open_step expected failure source none w = (w, refl)
  fail_open_step expected failure source (some s) w = elim (Bool-cases (is_terminal s)) [
    | inl over ↦ (w, rw over refl)
    | inr alive ↦ (
      (fail_transition env organization job expected failure source s w).1,
      rw alive (ignoring_step _ w),
    )
  ]

  time_step : (w : World) → time env w ≡ (ok (env.clock w.tick), record w { tick = suc w.tick })
  unfolding time
  time_step w = refl

  enqueue_cleanup_step :
      (failure : ExecutionError) (w : World)
      → ((enqueue_cleanup env organization job >> pure failure) w).0 ≡ ok failure
        × ((tasks : List Task) × (((enqueue_cleanup env organization job >> pure failure)
                w).1.db.tasks
              ≡ tasks ++ plain_task cleanup cleanup_queue 10 organization job ∷ []))
  unfolding enqueue_cleanup enqueue tx commit_at ◌>>◌ ◌>>=◌ bind_at add_task
  enqueue_cleanup_step failure w = (refl, (_, refl))

  -- A failure always ends with the classified error as its value, and the last task of the queue is
  -- then the cleanup of the job, whatever the status of the job is and whether its transition and
  -- its step could be written or not.
  pub fail_execution-cleanup :
      (expected : List Status) (thrown : Thrown) (source : String) (w : World)
      → ((fail_execution env organization job expected thrown source w).0
          ≡ ok (as_execution_error thrown))
        × ((tasks : List Task) × ((fail_execution env organization job expected thrown source
                w).1.db.tasks
              ≡ tasks ++ plain_task cleanup cleanup_queue 10 organization job ∷ []))
  unfolding fail_execution
  fail_execution-cleanup expected thrown source w =
      let (s, w1, read) = current_status_step w in
      let (w2, opened) = fail_open_step expected (as_execution_error thrown) source s w1 in
      rw
        (
          step _ _ w read,
          then_step _ _ w1 opened,
          step _ _ w2 (time_step w2),
          then_step _ _ _ (ignoring_step _ _),
        )
        (enqueue_cleanup_step (as_execution_error thrown) _)
