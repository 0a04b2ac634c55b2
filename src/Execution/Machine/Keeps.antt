-- ===== src/Execution/Machine/Keeps.antt =====
-- Programs that move each job along the transition table and keep each event log numbered, whatever
-- runs between their statements and whatever the outside answers: one rule for each way to compose
-- programs.
use moatazalasrai.Prelude.{ℕ, ◌≡◌, refl, Bool, true, false, Option, none, some, if◌then◌else◌, suc}
use moatazalasrai.Execution.Errors.{Result, ok, err, Thrown}
use moatazalasrai.Execution.Schema.{Db}
use moatazalasrai.Execution.Interleave.{apply_ops, apply_ops-DbMoves, KeepsJobs, KeepsJobs-DbMoves}
use moatazalasrai.Execution.Moves.{DbMoves, DbMoves-refl, DbMoves-trans}
use moatazalasrai.Execution.Machine.{
  Env, Outside, World, M, by_option, pure, throw, from_result, bind_at, ◌>>=◌, ◌>>◌, catch_at,
  catching, ignoring, finally, commit_at, tx, query, read_only, draw, time, ask,
}

pub Keeps {ℓ} : {A : Type ℓ} → M A → Type 0
Keeps m = (w : World) → DbMoves w.db (m w).1.db

-- A transaction all of whose committed runs do so.
abbrev pub Moves {ℓ} : {A : Type ℓ} → (ℕ → Db → Result (A × Db)) → Type ℓ
Moves {A} f = (now : ℕ) (db : Db) (a : A) (d : Db) → f now db ≡ ok (a, d) → DbMoves db d

pub Keeps-pure {ℓ} : {A : Type ℓ} (a : A) → Keeps (pure a)
unfolding Keeps
Keeps-pure a w = DbMoves-refl w.db

pub Keeps-throw {ℓ} : (A : Type ℓ) (e : Thrown) → Keeps (throw {A = A} e)
unfolding Keeps
Keeps-throw A e w = DbMoves-refl w.db

pub Keeps-from_result {ℓ} : {A : Type ℓ} (r : Result A) → Keeps (from_result r)
unfolding Keeps
Keeps-from_result r w = DbMoves-refl w.db

bind_at-DbMoves {ℓ κ} :
    {A : Type ℓ} {B : Type κ} (r : Result A × World) (f : A → M B)
    → ((a : A) → Keeps (f a))
    → DbMoves r.1.db (bind_at r f).1.db
unfolding bind_at Keeps
bind_at-DbMoves (ok a, w) f h = h a w
bind_at-DbMoves (err e, w) f h = DbMoves-refl w.db

pub Keeps-bind {ℓ κ} :
    {A : Type ℓ} {B : Type κ} (m : M A) (f : A → M B)
    → Keeps m
    → ((a : A) → Keeps (f a))
    → Keeps (m >>= f)
unfolding Keeps ◌>>=◌
Keeps-bind m f h k w = DbMoves-trans w.db (m w).1.db _ (h w) (bind_at-DbMoves (m w) f k)

pub Keeps-then {ℓ} : {B : Type ℓ} (m : M (Unit {0})) (k : M B) → Keeps m → Keeps k → Keeps (m >> k)
unfolding ◌>>◌
Keeps-then m k h g = Keeps-bind m (λ _. k) h (λ _. g)

catch_at-DbMoves {ℓ} :
    {A : Type ℓ} (r : Result A × World) (f : Thrown → M A)
    → ((e : Thrown) → Keeps (f e))
    → DbMoves r.1.db (catch_at r f).1.db
unfolding catch_at Keeps
catch_at-DbMoves (ok a, w) f h = DbMoves-refl w.db
catch_at-DbMoves (err e, w) f h = h e w

pub Keeps-catching {ℓ} :
    {A : Type ℓ} (m : M A) (f : Thrown → M A)
    → Keeps m
    → ((e : Thrown) → Keeps (f e))
    → Keeps (catching m f)
unfolding Keeps catching
Keeps-catching m f h k w = DbMoves-trans w.db (m w).1.db _ (h w) (catch_at-DbMoves (m w) f k)

pub Keeps-ignoring {ℓ} : {A : Type ℓ} (m : M A) → Keeps m → Keeps (ignoring m)
unfolding Keeps ignoring
Keeps-ignoring m h w = h w

pub Keeps-finally {ℓ} :
    {A : Type ℓ} (m : M A) (last : M (Unit {0})) → Keeps m → Keeps last → Keeps (finally m last)
unfolding Keeps finally
Keeps-finally m last h k w = DbMoves-trans w.db (m w).1.db _ (h w) (k (m w).1)

pub Keeps-if {ℓ} :
    {A : Type ℓ} (b : Bool) (m n : M A) → Keeps m → Keeps n → Keeps (if b then m else n)
Keeps-if true m n h k = h
Keeps-if false m n h k = k

pub Keeps-option {ℓ κ} :
    {A : Type ℓ} {B : Type κ} (o : Option A) (m : M B) (f : A → M B)
    → Keeps m
    → ((a : A) → Keeps (f a))
    → Keeps (by_option o m f)
Keeps-option none m f h k = h
Keeps-option (some a) m f h k = k a

commit_at-DbMoves {ℓ} :
    {A : Type ℓ} (db : Db) (n : ℕ) (r : Result (A × Db))
    → ((a : A) (d : Db) → r ≡ ok (a, d) → DbMoves db d)
    → DbMoves db (commit_at db n r).1.db
unfolding commit_at
commit_at-DbMoves db n (ok (a, d)) h = h a d refl
commit_at-DbMoves db n (err e) h = DbMoves-refl db

module _ (env : Env) where
  pub Keeps-tx {ℓ} : {A : Type ℓ} (f : ℕ → Db → Result (A × Db)) → Moves f → Keeps (tx env f)
  unfolding Keeps tx
  Keeps-tx f h w =
      let db = apply_ops (env.others w.tick) w.db in
      DbMoves-trans w.db db _ (apply_ops-DbMoves (env.others w.tick) w.db)
        (commit_at-DbMoves db (suc w.tick) (f (env.clock w.tick) db) (h (env.clock w.tick) db))

  -- A transaction that writes no job.
  pub Keeps-tx_aside {ℓ} :
      {A : Type ℓ} (f : ℕ → Db → Result (A × Db))
      → ((now : ℕ) (db : Db) → KeepsJobs db (f now db))
      → Keeps (tx env f)
  Keeps-tx_aside f h = Keeps-tx f (λ now db a d e. KeepsJobs-DbMoves db (f now db) (h now db) a d e)

  read_only-KeepsJobs {ℓ} : {A : Type ℓ} (db : Db) (r : Result A) → KeepsJobs db (read_only db r)
  read_only-KeepsJobs db (ok a) = (refl, λ k n. n)
  read_only-KeepsJobs db (err e) = tt

  pub Keeps-query {ℓ} : {A : Type ℓ} (f : Db → Result A) → Keeps (query env f)
  unfolding query
  Keeps-query f =
      Keeps-tx_aside (λ _ db. read_only db (f db)) (λ now db. read_only-KeepsJobs db (f db))

  pub Keeps-draw : Keeps (draw env)
  unfolding Keeps draw
  Keeps-draw w = DbMoves-refl w.db

  pub Keeps-time : Keeps (time env)
  unfolding Keeps time
  Keeps-time w = DbMoves-refl w.db

  pub Keeps-ask {ℓ} : {A : Type ℓ} (f : Outside → Result A) → Keeps (ask env f)
  unfolding Keeps ask
  Keeps-ask f w = DbMoves-refl w.db

-- The meaning of the predicate, for its users.
pub Keeps-elim {ℓ} : {A : Type ℓ} (m : M A) → Keeps m → (w : World) → DbMoves w.db (m w).1.db
unfolding Keeps
Keeps-elim m h w = h w
