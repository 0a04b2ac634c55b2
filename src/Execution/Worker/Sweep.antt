-- ===== src/Execution/Worker/Sweep.antt =====
-- `reconcileExecutions` and `expireExecutions` of lib/execution/worker-runtime.ts, and
-- `findReconciliationCandidates` of lib/execution/repository.ts.
use moatazalasrai.Prelude.{
  ℕ, ◌*◌, ◌-◌, Bool, ◌&&◌, ◌||◌, List, [], ◌∷◌, none, some, if◌then◌else◌, leb, length, take,
  select_rows,
}
use moatazalasrai.Execution.Status.{
  Status, same, one_of, queued, provisioning, running, waiting_for_input, waiting_for_approval,
  cancel_requested, cancelling, orphaned, timed_out,
}
use moatazalasrai.Execution.Errors.{Result, ok, code_text, runner_timeout}
use moatazalasrai.Execution.Schema
use moatazalasrai.Execution.Schema.{Db, Job, warn, error}
use moatazalasrai.Execution.Transition.{no_patch}
use moatazalasrai.Execution.Settings.{reconcile_grace_seconds}
use moatazalasrai.Execution.Machine.{Env, M, pure, ◌>>=◌, ◌>>◌, ignoring, query, draw, time}
use moatazalasrai.Execution.Worker.Common.{
  plain_task, is_cancelling, enqueue, enqueue_cancel, enqueue_cleanup, change_status,
}

-- The statuses that the reconciler looks for.
unfoldable pub is_stale_status : Status → Bool
is_stale_status s =
    one_of (provisioning ∷ Status.ready ∷ running ∷ cancel_requested ∷ cancelling ∷ orphaned ∷ []) s

abbrev is_stale : ℕ → Job → Bool
is_stale before j = is_stale_status j.status && leb j.updated_at before

-- The statuses in which an execution expires.
unfoldable pub is_expirable : Status → Bool
is_expirable s =
    one_of
      (queued ∷ provisioning ∷ Status.ready ∷ running ∷ waiting_for_input ∷ waiting_for_approval
        ∷ orphaned ∷ [])
      s

abbrev is_expired : ℕ → Job → Bool
is_expired now j = leb j.expires_at now && is_expirable j.status

-- `order by updated_at`
unfoldable pub insert_oldest : Job → List Job → List Job
insert_oldest j [] = j ∷ []
insert_oldest j (x ∷ xs) =
    let later = insert_oldest j xs in
    if leb j.updated_at x.updated_at then j ∷ x ∷ xs else x ∷ later

unfoldable pub oldest_first : List Job → List Job
unfolding insert_oldest
oldest_first [] = []
oldest_first (x ∷ xs) = insert_oldest x (oldest_first xs)

unfoldable pub find_candidates : ℕ → Db → Result (List Job)
unfolding oldest_first is_stale_status
find_candidates before db = ok (take 100 (oldest_first (select_rows (is_stale before) db.jobs)))

unfoldable pub find_expired : ℕ → Db → Result (List Job)
unfolding is_expirable
find_expired now db = ok (take 100 (select_rows (is_expired now) db.jobs))

module _ (env : Env) where
  unfoldable pub orphan_stale : Job → M (Unit {0})
  orphan_stale j =
      if same j.status running
      then ignoring (
          change_status env (record {
            organization = j.organization;
            job = j.id;
            expected = running ∷ [];
            next = orphaned;
            source = "reconciler";
            level = some warn;
            patch = no_patch;
          }))
      else pure tt

  -- One round of the loop of `reconcileExecutions`.
  unfoldable pub reconcile_one : Job → M (Unit {0})
  reconcile_one j =
      if is_cancelling j.status
      then enqueue_cancel env j.organization j.id
      else if same j.status queued || same j.status provisioning
      then enqueue env (plain_task Schema.provision Schema.provision_queue 3 j.organization j.id)
      else if same j.status Status.ready || same j.status running || same j.status orphaned
      then (do
        orphan_stale j
        enqueue env (plain_task Schema.run_step Schema.run_queue 3 j.organization j.id))
      else pure tt

  unfoldable pub reconcile_all : List Job → M (Unit {0})
  unfolding reconcile_one
  reconcile_all [] = pure tt
  reconcile_all (j ∷ js) = reconcile_one j >> reconcile_all js

  unfoldable pub reconcile_executions : M ℕ
  unfolding reconcile_all
  reconcile_executions = do
    now ← time env
    candidates ←
        query env (find_candidates (now - reconcile_grace_seconds env.reconcile_grace * 1000))
    reconcile_all candidates
    pure (length candidates)

  unfoldable pub expire_one : Job → M (Unit {0})
  expire_one j = do
    reference ← draw env
    ignoring (
        change_status env (record {
          organization = j.organization;
          job = j.id;
          expected = j.status ∷ [];
          next = timed_out;
          source = "expiry";
          level = some error;
          patch = record {
            error_code = some (code_text runner_timeout);
            error_reference = some reference;
            attempt_count = none;
          };
        }))
    enqueue_cleanup env j.organization j.id

  unfoldable pub expire_all : List Job → M (Unit {0})
  unfolding expire_one
  expire_all [] = pure tt
  expire_all (j ∷ js) = expire_one j >> expire_all js

  unfoldable pub expire_executions : M ℕ
  unfolding expire_all
  expire_executions = do
    now ← time env
    rows ← query env (find_expired now)
    expire_all rows
    pure (length rows)
