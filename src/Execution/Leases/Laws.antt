-- ===== src/Execution/Leases/Laws.antt =====
-- A lease that has not run out keeps every other worker out, whatever the others try.
use moatazalasrai.Prelude.{
  ℕ, ◌+◌, ◌≤◌, ◌<◌, ◌≡◌, refl, ◌≢◌, ◌⊎◌, inl, inr, true, List, [], ◌∷◌, ◌++◌, some, leb, find_row,
  update_rows, delete_rows, All, arith, Option-cases, Bool-cases, some_inv, none-ne-some, sym,
  subst, ◌∙◌, ap,
}
use moatazalasrai.Execution.Errors.{Result, ok, err}
use moatazalasrai.Execution.Schema.{Db, Lease}
use moatazalasrai.Execution.Db.{find_job}
use moatazalasrai.Execution.Leases.{
  leases_job, is_held, new_lease, claim, acquire_lease, heartbeat_lease, release_lease,
}

-- A statement on the table of leases, with the job and the token hash that it is made for.
pub data LeaseOp : Type 0 where
  claims : ℕ → ℕ → ℕ → LeaseOp
  beats : ℕ → ℕ → LeaseOp
  releases : LeaseOp

pub record LeaseCall : Type 0 where
  pub job : ℕ
  pub hash : ℕ
  pub op : LeaseOp

-- A call that is refused leaves the database as it was.
abbrev pub after_call : Db → Result (Unit {0} × Db) → Db
after_call db (ok (_, d)) = d
after_call db (err _) = db

unfoldable pub run_op : ℕ → ℕ → ℕ → LeaseOp → Db → Result (Unit {0} × Db)
run_op organization job hash (claims worker now expires) db =
    acquire_lease organization job worker hash now expires db
run_op organization job hash (beats now ttl) db = heartbeat_lease job hash now ttl db
run_op organization job hash releases db = release_lease job hash db

unfoldable pub call : ℕ → LeaseCall → Db → Db
call organization c db = after_call db (run_op organization c.job c.hash c.op db)

unfoldable pub calls : ℕ → List LeaseCall → Db → Db
unfolding call
calls organization [] db = db
calls organization (c ∷ cs) db = calls organization cs (call organization c db)

-- The token with a hash holds the job, until a time at least.
pub record Holds (job hash until : ℕ) (leases : List Lease) : Type 0 where
  pub lease : Lease
  pub first : find_row (leases_job job) leases ≡ some lease
  pub own : lease.token_hash ≡ hash
  pub lasts : until ≤ lease.expires_at

abbrev pub ClaimsBefore : ℕ → LeaseOp → Type 0
ClaimsBefore until (claims worker now expires) = now < until
ClaimsBefore until (beats now ttl) = Unit
ClaimsBefore until releases = Unit

-- A call of another job, or one with another token that claims before the time.
abbrev pub IsForeign : ℕ → ℕ → ℕ → LeaseCall → Type 0
IsForeign job hash until c = (c.job ≢ job) ⊎ ((c.hash ≢ hash) × ClaimsBefore until c.op)

module _ (job hash until : ℕ) where
  delete-first :
      (j h : ℕ) (leases : List Lease) (l : Lease)
      → (j ≢ job) ⊎ (h ≢ l.token_hash)
      → find_row (leases_job job) leases ≡ some l
      → find_row (leases_job job) (delete_rows (is_held j h) leases) ≡ some l
  unfolding find_row delete_rows
  delete-first j h [] l f e = e
  delete-first j h (x ∷ xs) l f e = ground (arith, delete-first j h xs l f)

  update-first :
      (j h : ℕ) (f : Lease → Lease) (leases : List Lease) (l : Lease)
      → ((x : Lease) → (f x).job ≡ x.job)
      → (j ≢ job) ⊎ (h ≢ l.token_hash)
      → find_row (leases_job job) leases ≡ some l
      → find_row (leases_job job) (update_rows (is_held j h) f leases) ≡ some l
  unfolding find_row update_rows
  update-first j h f [] l same_job g e = e
  update-first j h f (x ∷ xs) l same_job g e =
      ground (arith, same_job x, update-first j h f xs l same_job g)

  append-first :
      (leases ls : List Lease) (l : Lease)
      → find_row (leases_job job) leases ≡ some l
      → find_row (leases_job job) (leases ++ ls) ≡ some l
  unfolding find_row
  append-first [] ls l e = absurd (cc e)
  append-first (x ∷ xs) ls l e = ground (arith, append-first xs ls l)

  replace-first :
      (j : ℕ) (n : Lease) (leases : List Lease) (l : Lease)
      → j ≢ job
      → n.job ≡ j
      → find_row (leases_job job) leases ≡ some l
      → find_row (leases_job job) (update_rows (leases_job j) (λ _. n) leases) ≡ some l
  unfolding find_row update_rows
  replace-first j n [] l g s e = e
  replace-first j n (x ∷ xs) l g s e = ground (arith, replace-first j n xs l g s)

  elsewhere :
      (j now : ℕ) (leases : List Lease) (l held : Lease)
      → find_row (leases_job j) leases ≡ some held
      → leb held.expires_at now ≡ true
      → (j ≢ job) ⊎ (now < l.expires_at)
      → find_row (leases_job job) leases ≡ some l
      → j ≢ job
  elsewhere j now leases l held taken over (inl ne) e = ne
  elsewhere j now leases l held taken over (inr early) e = λ p.
      let same_lease : held ≡ l = some_inv (sym (rw p at taken) ∙ e) in
      absurd (ground (arith, ap (λ (x : Lease). x.expires_at) same_lease))

  -- A claim that succeeds for another job, or at the time of the claim, leaves the first lease.
  claim-first :
      (j worker h now expires : ℕ) (leases : List Lease) (l : Lease) {leases' : List Lease}
      → (j ≢ job) ⊎ (now < l.expires_at)
      → find_row (leases_job job) leases ≡ some l
      → claim j worker h now expires leases ≡ some leases'
      → find_row (leases_job job) leases' ≡ some l
  unfolding claim
  claim-first j worker h now expires leases l {leases'} g e c =
      elim (Option-cases (find_row (leases_job j) leases)) [
        | inl free ↦ subst FirstIs (some_inv (rw (free, claim) at c)) (append-first leases _ l e)
        | inr (held, taken) ↦ elim (Bool-cases (leb held.expires_at now)) [
          | inl over ↦ subst FirstIs (some_inv (rw (taken, over, claim) at c)) (
              replace-first j (new_lease j worker h now expires) leases l
                (elsewhere j now leases l held taken over g e) refl e)
          | inr lasting ↦ absurd (none-ne-some (rw (taken, lasting, claim) at c))
        ]
      ]
    where
      FirstIs : List Lease → Type 0
      FirstIs ls = find_row (leases_job job) ls ≡ some l

  acquire-Holds :
      (organization j worker h now expires : ℕ) (db : Db)
      → (j ≢ job) ⊎ (now < until)
      → Holds job hash until db.leases
      → Holds job hash until
          (after_call db (acquire_lease organization j worker h now expires db)).leases
  unfolding acquire_lease
  acquire-Holds organization j worker h now expires db g holds =
      elim (Option-cases (find_job organization j db)) [
        | inl missing ↦ rw (missing, acquire_lease) holds
        | inr (found, there) ↦ elim (Option-cases (claim j worker h now expires db.leases)) [
          | inl refused ↦ rw (there, refused, acquire_lease) holds
          | inr (leases, won) ↦
              rw (there, won, acquire_lease)
                (record {
                  lease = holds.lease;
                  first =
                      claim-first j worker h now expires db.leases holds.lease (ground arith)
                        holds.first won;
                  own = holds.own;
                  lasts = holds.lasts;
                })
        ]
      ]

  not_own :
      (j h : ℕ) (l : Lease)
      → l.token_hash ≡ hash
      → (j ≢ job) ⊎ (h ≢ hash)
      → (j ≢ job) ⊎ (h ≢ l.token_hash)
  not_own j h l own g = ground arith

  heartbeat-Holds :
      (j h now ttl : ℕ) (db : Db)
      → (j ≢ job) ⊎ (h ≢ hash)
      → Holds job hash until db.leases
      → Holds job hash until (after_call db (heartbeat_lease j h now ttl db)).leases
  unfolding heartbeat_lease
  heartbeat-Holds j h now ttl db g holds = elim (Option-cases (find_row (is_held j h) db.leases)) [
    | inl missing ↦ rw (missing, heartbeat_lease) holds
    | inr (found, there) ↦
        rw (there, heartbeat_lease)
          (record {
            lease = holds.lease;
            first =
                update-first j h
                  (λ (l : Lease). record l { heartbeat_at = now; expires_at = now + ttl }) db.leases
                  holds.lease (λ x. refl) (not_own j h holds.lease holds.own g) holds.first;
            own = holds.own;
            lasts = holds.lasts;
          })
  ]

  release-Holds :
      (j h : ℕ) (db : Db)
      → (j ≢ job) ⊎ (h ≢ hash)
      → Holds job hash until db.leases
      → Holds job hash until (after_call db (release_lease j h db)).leases
  unfolding release_lease
  release-Holds j h db g holds = record {
    lease = holds.lease;
    first =
        delete-first j h db.leases holds.lease (not_own j h holds.lease holds.own g) holds.first;
    own = holds.own;
    lasts = holds.lasts;
  }

  call-Holds :
      (organization : ℕ) (c : LeaseCall) (db : Db)
      → IsForeign job hash until c
      → Holds job hash until db.leases
      → Holds job hash until (call organization c db).leases
  unfolding call run_op
  call-Holds organization c db g holds = by_op c.op g
    where
      by_op :
          (op : LeaseOp)
          → (c.job ≢ job) ⊎ ((c.hash ≢ hash) × ClaimsBefore until op)
          → Holds job hash until (after_call db (run_op organization c.job c.hash op db)).leases
      by_op (claims worker now expires) f =
          acquire-Holds organization c.job worker c.hash now expires db (ground arith) holds
      by_op (beats now ttl) f = heartbeat-Holds c.job c.hash now ttl db (ground arith) holds
      by_op releases f = release-Holds c.job c.hash db (ground arith) holds

  -- Whatever other workers do with their own tokens, and with claims made before the lease of this
  -- token runs out, the token keeps the job, for the time it had at least.
  pub calls-Holds :
      (organization : ℕ) (cs : List LeaseCall) (db : Db)
      → All (IsForeign job hash until) cs
      → Holds job hash until db.leases
      → Holds job hash until (calls organization cs db).leases
  unfolding calls
  calls-Holds organization [] db g holds = holds
  calls-Holds organization (c ∷ cs) db g holds =
      calls-Holds organization cs (call organization c db) g.1
        (call-Holds organization c db g.0 holds)
