-- ===== src/Execution/Leases/Exclusive.antt =====
-- When a worker gets the lease of a job.
use moatazalasrai.Prelude.{
  Option, none, some, ℕ, ◌≤◌, ◌<◌, ◌≡◌, refl, false, List, [], ◌∷◌, ◌++◌, none, some, leb, find_row,
  update_rows, arith, Option-cases, Bool-cases, some_inv, none-ne-some, subst, inl, inr, leb→le,
}
use moatazalasrai.Execution.Errors.{
  ok, err, refuse_retryable, lease_unavailable, need-eq-ok, ok-injective,
}
use moatazalasrai.Execution.Schema.{Db, Lease, Job}
use moatazalasrai.Execution.Db.{find_job}
use moatazalasrai.Execution.Leases.{leases_job, new_lease, claim, acquire_lease}
use moatazalasrai.Execution.Leases.Laws.{Holds}

module _ (job : ℕ) (n : Lease) (own : n.job ≡ job) where
  find_row-append_new :
      (leases : List Lease)
      → find_row (leases_job job) leases ≡ none
      → find_row (leases_job job) (leases ++ n ∷ []) ≡ some n
  unfolding find_row
  find_row-append_new [] e = ground arith
  find_row-append_new (x ∷ xs) e = ground (arith, find_row-append_new xs)

  find_row-replace_new :
      (leases : List Lease) (l : Lease)
      → find_row (leases_job job) leases ≡ some l
      → find_row (leases_job job) (update_rows (leases_job job) (λ _. n) leases) ≡ some n
  unfolding find_row update_rows
  find_row-replace_new [] l e = absurd (none-ne-some e)
  find_row-replace_new (x ∷ xs) l e = ground (arith, find_row-replace_new xs l)

-- While the lease of a job has not run out, every claim on the job is refused as retryable, and
-- the database is not written.
pub acquire_lease-refused :
    (organization job hash until worker h now expires : ℕ) (db : Db) (found : Job)
    → find_job organization job db ≡ some found
    → Holds job hash until db.leases
    → now < until
    → acquire_lease organization job worker h now expires db
      ≡ err (refuse_retryable lease_unavailable)
unfolding acquire_lease
acquire_lease-refused organization job hash until worker h now expires db found there holds early =
    let lasting : leb holds.lease.expires_at now ≡ false = ground (arith, holds.lasts) in
    rw (there, holds.first, lasting, claim)

-- No lease, or one that has run out.
abbrev pub IsFree : ℕ → Option Lease → Type 0
IsFree now none = Unit
IsFree now (some l) = l.expires_at ≤ now

claim-Holds :
    (job worker hash now expires : ℕ) (leases : List Lease) {leases' : List Lease}
    → claim job worker hash now expires leases ≡ some leases'
    → Holds job hash expires leases' × IsFree now (find_row (leases_job job) leases)
unfolding claim
claim-Holds job worker hash now expires leases {leases'} c =
    elim (Option-cases (find_row (leases_job job) leases)) [
      | inl free ↦ (
        subst (Holds job hash expires) (some_inv (rw (free, claim) at c))
            (holds (leases ++ mine ∷ []) (find_row-append_new job mine refl leases free)),
        rw free tt,
      )
      | inr (held, taken) ↦ elim (Bool-cases (leb held.expires_at now)) [
        | inl over ↦ (
          subst (Holds job hash expires) (some_inv (rw (taken, over, claim) at c)) (
              holds (update_rows (leases_job job) (λ _. mine) leases)
                (find_row-replace_new job mine refl leases held taken)),
          rw taken (leb→le _ _ over),
        )
        | inr lasting ↦ absurd (none-ne-some (rw (taken, lasting, claim) at c))
      ]
    ]
  where
    mine : Lease
    mine = new_lease job worker hash now expires

    holds : (ls : List Lease) → find_row (leases_job job) ls ≡ some mine → Holds job hash expires ls
    holds ls e = record { lease = mine; first = e; own = refl; lasts = omega arith }

-- A claim that succeeds gives the job to the token, for the time that was asked for, and it found
-- the job free or its lease run out.
pub acquire_lease-Holds :
    (organization job worker hash now expires : ℕ) (db : Db) {u : Unit {0}} {db' : Db}
    → acquire_lease organization job worker hash now expires db ≡ ok (u, db')
    → Holds job hash expires db'.leases × IsFree now (find_row (leases_job job) db.leases)
unfolding acquire_lease
acquire_lease-Holds organization job worker hash now expires db {u} {db'} h =
    let (_, _, rest) = need-eq-ok (find_job organization job db) _ _ h in
    let (leases, won, last) = need-eq-ok (claim job worker hash now expires db.leases) _ _ rest in
    let (holds, free) = claim-Holds job worker hash now expires db.leases won in
    (subst (λ r. Holds job hash expires r.1.leases) (ok-injective last) holds, free)
