-- ===== src/Execution/Leases.antt =====
-- The leases of lib/execution/repository.ts: at most one worker handles a job. `hash` is the hash
-- of the worker's token; `now` is the time of the database.
pub mod Laws
pub mod Exclusive
use moatazalasrai.Prelude.{
  ℕ, ◌+◌, Bool, true, false, ◌&&◌, List, [], ◌∷◌, ◌++◌, Option, none, some, ◌==◌, leb,
  if◌then◌else◌, find_row, update_rows, delete_rows,
}
use moatazalasrai.Execution.Errors.{
  Result, ok, err, ◌>>=◌, need, refuse, refuse_retryable, not_found, lease_unavailable,
}
use moatazalasrai.Execution.Schema.{Db, Lease}
use moatazalasrai.Execution.Db.{Tx, find_job}

abbrev pub leases_job : ℕ → Lease → Bool
leases_job job l = l.job == job

-- `eq(jobId) and eq(leaseTokenHash)`
abbrev pub is_held : ℕ → ℕ → Lease → Bool
is_held job hash l = l.job == job && l.token_hash == hash

abbrev new_lease : ℕ → ℕ → ℕ → ℕ → ℕ → Lease
new_lease job worker hash now expires = record {
  job = job;
  worker = worker;
  token_hash = hash;
  acquired_at = now;
  heartbeat_at = now;
  expires_at = expires;
}

-- `insert … on conflict (job_id) do update … where expires_at <= now()`
unfoldable pub claim : ℕ → ℕ → ℕ → ℕ → ℕ → List Lease → Option (List Lease)
claim job worker hash now expires leases = elim (find_row (leases_job job) leases) [
  | none ↦ some (leases ++ new_lease job worker hash now expires ∷ [])
  | some held ↦
      if leb held.expires_at now
      then some (update_rows (leases_job job) (λ _. new_lease job worker hash now expires) leases)
      else none
]

-- The transaction of `acquireExecutionLease`; `expires` was computed before it.
unfoldable pub acquire_lease : ℕ → ℕ → ℕ → ℕ → ℕ → ℕ → Tx (Unit {0})
unfolding claim
acquire_lease organization job worker hash now expires db = do
  _ ← need (find_job organization job db) (refuse not_found)
  leases ← need (claim job worker hash now expires db.leases) (refuse_retryable lease_unavailable)
  ok (tt, record db { leases = leases })

unfoldable pub heartbeat_lease : ℕ → ℕ → ℕ → ℕ → Tx (Unit {0})
heartbeat_lease job hash now ttl db = do
  _ ← need (find_row (is_held job hash) db.leases) (refuse_retryable lease_unavailable)
  ok (
    tt,
    record db {
      leases =
          update_rows (is_held job hash)
            (λ (l : Lease). record l { heartbeat_at = now; expires_at = now + ttl }) db.leases;
    },
  )

unfoldable pub release_lease : ℕ → ℕ → Tx (Unit {0})
release_lease job hash db = ok (tt, record db { leases = delete_rows (is_held job hash) db.leases })
