-- ===== src/Execution/Grants/Laws.antt =====
-- A token is good for one use.
use moatazalasrai.Prelude.{
  ℕ, ◌≡◌, ◌<◌, ◌≢◌, refl, sym, subst, Bool, true, false, ◌&&◌, List, [], ◌∷◌, ◌++◌, none, some,
  ◌==◌, if◌then◌else◌, find_row, update_rows, All, arith, &&-inv, find_row_sound,
}
use moatazalasrai.Prelude.Text.{Text, has_text}
use moatazalasrai.Execution.Errors.{
  Result, ok, err, refuse, grant_invalid, guard-eq-ok, need-eq-ok, bind-eq-ok, ok-injective,
}
use moatazalasrai.Execution.Schema.{Db, Grant}
use moatazalasrai.Execution.Records.{is_unrevoked, is_live_grant, revoke_grants}
use moatazalasrai.Execution.Network.Hostname.{normalize_hostname}
use moatazalasrai.Execution.Grants.{insert_grant, is_live, is_open, revoke_at, consume_grant}

-- What a token was found good for.
pub record IsGranted (job hash : ℕ) (host operation : Text) (now : ℕ) (db : Db) (grant : Grant)
    : Type 0 where
  pub first : find_row (is_live job hash now) db.grants ≡ some grant
  pub own : (grant.job ≡ job) × (grant.token_hash ≡ hash)
  pub unrevoked : grant.revoked_at ≡ none
  pub in_time : now < grant.expires_at
  pub name : Text
  pub named : normalize_hostname host ≡ ok name
  pub listed :
      (has_text grant.allowed_hosts name ≡ true)
      × (has_text grant.allowed_operations operation ≡ true)

is_live-parts :
    (job hash now : ℕ) (g : Grant)
    → is_live job hash now g ≡ true
    → ((g.job ≡ job) × (g.token_hash ≡ hash)) × (g.revoked_at ≡ none) × (now < g.expires_at)
is_live-parts job hash now g h = ground arith

-- A token that is accepted belongs to a grant of the job that was neither revoked nor expired, and
-- that lists the host and the operation; the grant is revoked in the same step.
pub consume_grant-IsGranted :
    (job hash : ℕ) (host operation : Text) (now : ℕ) (db : Db) {grant : Grant} {db' : Db}
    → consume_grant job hash host operation now db ≡ ok (grant, db')
    → IsGranted job hash host operation now db grant
      × (db' ≡ record db { grants = update_rows (is_open grant.id) (revoke_at now) db.grants })
unfolding consume_grant
consume_grant-IsGranted job hash host operation now db {grant} {db'} h =
    let (g, found, h1) = need-eq-ok (find_row (is_live job hash now) db.grants) _ _ h in
    let (_, h2) = guard-eq-ok (g.token_hash == hash) _ _ h1 in
    let (name, named, h3) = bind-eq-ok (normalize_hostname host) _ h2 in
    let (listed, h4) =
      guard-eq-ok (has_text g.allowed_hosts name && has_text g.allowed_operations operation) _ _
        h3 in
    let (_, _, last) = need-eq-ok (find_row (is_open g.id) db.grants) _ _ h4 in
    let (own, unrevoked, in_time) =
      is_live-parts job hash now g (find_row_sound (is_live job hash now) db.grants found) in
    let same_pair = ok-injective last in
    subst
      (λ r.
        IsGranted job hash host operation now db r.0
        × (r.1 ≡ record db { grants = update_rows (is_open r.0.id) (revoke_at now) db.grants }))
      same_pair
      (
        record {
          first = found;
          own = own;
          unrevoked = unrevoked;
          in_time = in_time;
          name = name;
          named = named;
          listed = &&-inv (has_text g.allowed_hosts name) _ listed;
        },
        refl,
      )

-- Every grant of a token has been revoked.
abbrev pub IsSpent : ℕ → List Grant → Type 0
IsSpent hash gs = All (λ g. g.token_hash ≡ hash → is_unrevoked g.revoked_at ≡ false) gs

-- The index on the hashes: all rows with a hash are the one row with an id.
abbrev pub HasOne : ℕ → ℕ → List Grant → Type 0
HasOne hash id gs = All (λ g. g.token_hash ≡ hash → g.id ≡ id) gs

-- One row under the update of a consumption.
consumed_row :
    (hash id now : ℕ) (g : Grant)
    → (g.token_hash ≡ hash → g.id ≡ id)
    → (if is_open id g then revoke_at now g else g).token_hash ≡ hash
    → is_unrevoked (if is_open id g then revoke_at now g else g).revoked_at ≡ false
consumed_row hash id now g own e = ground arith

update_rows-IsSpent :
    (hash id now : ℕ) (gs : List Grant)
    → HasOne hash id gs
    → IsSpent hash (update_rows (is_open id) (revoke_at now) gs)
unfolding update_rows
update_rows-IsSpent hash id now [] h = tt
update_rows-IsSpent hash id now (g ∷ gs) h =
    (consumed_row hash id now g h.0, update_rows-IsSpent hash id now gs h.1)

-- One row under any update that only revokes.
revoked_row :
    (hash now : ℕ) (b : Bool) (g : Grant)
    → (g.token_hash ≡ hash → is_unrevoked g.revoked_at ≡ false)
    → (if b then revoke_at now g else g).token_hash ≡ hash
    → is_unrevoked (if b then revoke_at now g else g).revoked_at ≡ false
revoked_row hash now true g spent e = refl
revoked_row hash now false g spent e = spent e

IsSpent-revoke :
    (hash now : ℕ) (p : Grant → Bool) (gs : List Grant)
    → IsSpent hash gs
    → IsSpent hash (update_rows p (revoke_at now) gs)
unfolding update_rows
IsSpent-revoke hash now p [] h = tt
IsSpent-revoke hash now p (g ∷ gs) h =
    (revoked_row hash now (p g) g h.0, IsSpent-revoke hash now p gs h.1)

IsSpent-append :
    (hash : ℕ) (gs : List Grant) (g : Grant)
    → g.token_hash ≢ hash
    → IsSpent hash gs
    → IsSpent hash (gs ++ g ∷ [])
IsSpent-append hash [] g other h = (λ e. absurd (other e), tt)
IsSpent-append hash (x ∷ gs) g other h = (h.0, IsSpent-append hash gs g other h.1)

IsSpent-find_row :
    (job hash now : ℕ) (gs : List Grant)
    → IsSpent hash gs
    → find_row (is_live job hash now) gs ≡ none
unfolding find_row
IsSpent-find_row job hash now [] h = refl
IsSpent-find_row job hash now (g ∷ gs) h = ground (arith, h.0, IsSpent-find_row job hash now gs h.1)

-- What the kernel does to the table of grants.
pub data GrantCall : Type 0 where
  issues : Grant → GrantCall
  consumes : ℕ → ℕ → Text → Text → ℕ → GrantCall
  revokes : ℕ → ℕ → ℕ → GrantCall

-- A call that throws leaves the database as it was.
abbrev pub committed {ℓ} : {A : Type ℓ} → Db → Result (A × Db) → Db
committed db (ok (_, d)) = d
committed db (err _) = db

unfoldable pub grant_call : GrantCall → Db → Db
grant_call (issues g) db = committed db (insert_grant g db)
grant_call (consumes job hash host operation now) db =
    committed db (consume_grant job hash host operation now db)
grant_call (revokes now organization job) db = committed db (revoke_grants now organization job db)

unfoldable pub grant_calls : List GrantCall → Db → Db
unfolding grant_call
grant_calls [] db = db
grant_calls (c ∷ cs) db = grant_calls cs (grant_call c db)

-- A new grant has a token of its own.
abbrev pub IsFresh : ℕ → GrantCall → Type 0
IsFresh hash (issues g) = g.token_hash ≢ hash
IsFresh hash (consumes job h host operation now) = Unit
IsFresh hash (revokes now organization job) = Unit

consume_grant-IsSpent :
    (hash job h : ℕ) (host operation : Text) (now : ℕ) (db : Db) (r : Result (Grant × Db))
    → consume_grant job h host operation now db ≡ r
    → IsSpent hash db.grants
    → IsSpent hash (committed db r).grants
consume_grant-IsSpent hash job h host operation now db (err e) p spent = spent
consume_grant-IsSpent hash job h host operation now db (ok (g, d)) p spent =
    let (_, written) = consume_grant-IsGranted job h host operation now db p in
    subst (λ (x : Db). IsSpent hash x.grants) (sym written)
      (IsSpent-revoke hash now (is_open g.id) db.grants spent)

grant_call-IsSpent :
    (hash : ℕ) (c : GrantCall) (db : Db)
    → IsFresh hash c
    → IsSpent hash db.grants
    → IsSpent hash (grant_call c db).grants
unfolding grant_call insert_grant revoke_grants
grant_call-IsSpent hash (issues g) db fresh spent = IsSpent-append hash db.grants g fresh spent
grant_call-IsSpent hash (consumes job h host operation now) db fresh spent =
    consume_grant-IsSpent hash job h host operation now db _ refl spent
grant_call-IsSpent hash (revokes now organization job) db fresh spent =
    IsSpent-revoke hash now (is_live_grant organization job) db.grants spent

grant_calls-IsSpent :
    (hash : ℕ) (cs : List GrantCall) (db : Db)
    → All (IsFresh hash) cs
    → IsSpent hash db.grants
    → IsSpent hash (grant_calls cs db).grants
unfolding grant_calls
grant_calls-IsSpent hash [] db fresh spent = spent
grant_calls-IsSpent hash (c ∷ cs) db fresh spent =
    grant_calls-IsSpent hash cs (grant_call c db) fresh.1
      (grant_call-IsSpent hash c db fresh.0 spent)

IsSpent-refused :
    (job hash : ℕ) (host operation : Text) (now : ℕ) (db : Db)
    → IsSpent hash db.grants
    → consume_grant job hash host operation now db ≡ err (refuse grant_invalid)
unfolding consume_grant
IsSpent-refused job hash host operation now db spent =
    rw (IsSpent-find_row job hash now db.grants spent)

-- A token that has been accepted once is refused for ever after, for every job, host, operation
-- and time, whatever grants with other tokens are issued, used or revoked in between. Its rows must
-- be one row when it is accepted, as the unique index on the hashes keeps them.
pub consume_grant-once :
    (job hash : ℕ) (host operation : Text) (now : ℕ) (db : Db) {grant : Grant} {db' : Db}
    → consume_grant job hash host operation now db ≡ ok (grant, db')
    → HasOne hash grant.id db.grants
    → (cs : List GrantCall) → All (IsFresh hash) cs
    → (job' : ℕ) (host' operation' : Text) (now' : ℕ)
    → consume_grant job' hash host' operation' now' (grant_calls cs db')
      ≡ err (refuse grant_invalid)
consume_grant-once job hash host operation now db {grant} {db'} h one cs fresh job' host' operation'
      now' =
    let (_, written) = consume_grant-IsGranted job hash host operation now db h in
    IsSpent-refused job' hash host' operation' now' (grant_calls cs db') (
      grant_calls-IsSpent hash cs db' fresh (
        subst (λ (x : Db). IsSpent hash x.grants) (sym written)
          (update_rows-IsSpent hash grant.id now db.grants one)))
