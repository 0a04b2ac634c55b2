-- ===== src/Execution/Tests/Tasks.antt =====
-- Tasks of lib/execution/worker-runtime.ts in a small world.
use moatazalasrai.Prelude.{◌≡◌, refl, List, [], ◌∷◌, ◌++◌, none, find_row}
use moatazalasrai.Execution.Status.{running}
use moatazalasrai.Execution.Errors.{ok, other, as_execution_error}
use moatazalasrai.Execution.Schema.{Task, cleanup, cleanup_queue}
use moatazalasrai.Execution.Db.{find_job}
use moatazalasrai.Execution.Leases.{is_held, acquire_lease, claim}
use moatazalasrai.Execution.Settings.{lease_ttl_seconds}
use moatazalasrai.Execution.Interleave.{apply_ops}
use moatazalasrai.Execution.Machine.{World, draw, time, tx, commit_at, bind_at, ◌>>=◌, ◌>>◌}
use moatazalasrai.Execution.Worker.Common.{take_lease, with_lease, fail_execution, plain_task}
use moatazalasrai.Execution.Worker.Provision.{provision_body}
use moatazalasrai.Execution.Worker.Guarantees.{with_lease-released, fail_execution-cleanup}
use moatazalasrai.Execution.Tests.Samples.{env, world, db}

-- The world in which worker 3 has taken the lease of job 1 with the token 0.
abbrev taken_world : World
taken_world = record {
  db = record db {
    leases =
        record {
          job = 1;
          worker = 3;
          token_hash = 0;
          acquired_at = 1002;
          heartbeat_at = 1002;
          expires_at = 61001;
        }
        ∷ [];
  };
  tick = 3;
}

taken : take_lease env 7 1 3 world ≡ (ok 0, taken_world)
unfolding take_lease draw time tx commit_at bind_at ◌>>=◌ ◌>>◌ acquire_lease claim find_job find_row
    apply_ops lease_ttl_seconds
taken = refl

with_lease-released_example :
    ((with_lease env 7 1 3 (provision_body env 7 1 3) world).0
      ≡ (provision_body env 7 1 3 taken_world).0)
    × (find_row (is_held 1 0) (with_lease env 7 1 3 (provision_body env 7 1 3) world).1.db.leases
        ≡ none)
with_lease-released_example = with_lease-released env 7 1 3 (provision_body env 7 1 3) world taken

fail_execution-cleanup_example :
    ((fail_execution env 7 1 (running ∷ []) other "worker" world).0 ≡ ok (as_execution_error other))
    × ((tasks : List Task) × ((fail_execution env 7 1
            (running ∷ [])
            other
            "worker"
            world).1.db.tasks
          ≡ tasks ++ plain_task cleanup cleanup_queue 10 7 1 ∷ []))
fail_execution-cleanup_example = fail_execution-cleanup env 7 1 (running ∷ []) other "worker" world
