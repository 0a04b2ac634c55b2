-- ===== src/Execution/Machine.antt =====
-- A worker's program: it reads and writes the database in transactions, between which other
-- processes run, and it asks the clock, the source of random numbers and the runner, each of
-- which answers anew every time.
pub mod Keeps
use moatazalasrai.Prelude.{ℕ, ◌+◌, suc, Bool, true, false, List, Option, none, some, String}
use moatazalasrai.Prelude.Text.{Text}
use moatazalasrai.Execution.Errors.{Result, ok, err, Thrown}
use moatazalasrai.Execution.Schema.{Db, Limits, NetworkPolicy, Command, RunnerKind, Workspace}
use moatazalasrai.Execution.Db.{Tx}
use moatazalasrai.Execution.Settings.{Setting}
use moatazalasrai.Execution.Interleave.{Op, apply_ops}

-- `RunnerHealth`
pub record Health : Type 0 where
  pub healthy : Bool
  pub kind : RunnerKind
  pub command : Bool
  pub files : Bool
  pub cancellation : Bool
  pub network_isolation : Bool

-- What the runner reports while a command runs.
pub data Report : Type 0 where
  on_stdout on_stderr : List ℕ → Report
  on_state : String → Report

-- `CommandResult`
pub record CommandResult : Type 0 where
  pub exit_code : Option ℕ
  pub signal : Option String
  pub started_at : ℕ
  pub completed_at : ℕ
  pub stdout_bytes : ℕ
  pub stderr_bytes : ℕ
  pub timed_out : Bool

pub record FileEntry : Type 0 where
  pub path : Text
  pub size_bytes : ℕ
  pub is_file : Bool

-- The runner and the object storage, which the kernel calls and does not implement: the answer of
-- each call, which may be a thrown value. A download that breaks off throws.
pub record Outside : Type 0 where
  pub health : Result Health
  pub create : Workspace → Result ℕ
  pub execute : ℕ → Command → List Report × Result CommandResult
  pub list_files : ℕ → Result (List FileEntry)
  pub download : ℕ → Text → Result (List (List ℕ))
  pub terminate : ℕ → Result (Unit {0})
  pub destroy : ℕ → Result (Unit {0})
  pub put_object : List ℕ → Result (Unit {0})

-- Everything around a worker. `n` counts the worker's steps.
pub record Env : Type 0 where
  pub clock : ℕ → ℕ
  pub random : ℕ → ℕ
  pub others : ℕ → List Op
  pub outside : ℕ → Outside
  pub hash : ℕ → ℕ  -- SHA-256 of a token
  pub decode : List ℕ → Text  -- `TextDecoder.decode`
  pub to_text : List ℕ → Text  -- `Buffer.toString("utf8")`
  pub runner : Option RunnerKind  -- EXECUTION_RUNNER; none where it names no runner
  pub lease_ttl : Setting
  pub reconcile_grace : Setting

pub record World : Type 0 where
  pub db : Db
  pub tick : ℕ

abbrev pub M {ℓ} : Type ℓ → Type ℓ
M A = World → Result A × World

abbrev pub pure {ℓ} : {A : Type ℓ} → A → M A
pure a w = (ok a, w)

abbrev pub throw {ℓ} : {A : Type ℓ} → Thrown → M A
throw e w = (err e, w)

-- A pure step that may throw.
abbrev pub from_result {ℓ} : {A : Type ℓ} → Result A → M A
from_result r w = (r, w)

-- `value ? f(value) : m`, on a value that may be missing.
abbrev pub by_option {ℓ κ} : {A : Type ℓ} {B : Type κ} → Option A → M B → (A → M B) → M B
by_option none m f = m
by_option (some a) m f = f a

unfoldable pub bind_at {ℓ κ} :
    {A : Type ℓ} {B : Type κ} → Result A × World → (A → M B) → Result B × World
bind_at (ok a, w) f = f a w
bind_at (err e, w) f = (err e, w)

infixl 5 ◌>>=◌ ◌>>◌
unfoldable pub ◌>>=◌ {ℓ κ} : {A : Type ℓ} {B : Type κ} → M A → (A → M B) → M B
unfolding bind_at
◌>>=◌ m f w = bind_at (m w) f

unfoldable pub ◌>>◌ {ℓ} : {B : Type ℓ} → M (Unit {0}) → M B → M B
unfolding ◌>>=◌
m >> k = m >>= λ _. k

unfoldable pub catch_at {ℓ} : {A : Type ℓ} → Result A × World → (Thrown → M A) → Result A × World
catch_at (ok a, w) f = (ok a, w)
catch_at (err e, w) f = f e w

-- `try { m } catch (error) { … }`
unfoldable pub catching {ℓ} : {A : Type ℓ} → M A → (Thrown → M A) → M A
unfolding catch_at
catching m f w = catch_at (m w) f

abbrev drop_result {ℓ} : {A : Type ℓ} → Result A × World → Result (Unit {0}) × World
drop_result (_, w) = (ok tt, w)

-- `m.catch(() => undefined)`
unfoldable pub ignoring {ℓ} : {A : Type ℓ} → M A → M (Unit {0})
ignoring m w = drop_result (m w)

unfoldable pub finally_at {ℓ} : {A : Type ℓ} → Result A × World → M (Unit {0}) → Result A × World
finally_at (r, w) last = (r, (ignoring last w).1)

-- `try { m } finally { await last.catch(() => undefined) }`
unfoldable pub finally {ℓ} : {A : Type ℓ} → M A → M (Unit {0}) → M A
unfolding finally_at ignoring
finally m last w = finally_at (m w) last

unfoldable pub commit_at {ℓ} : {A : Type ℓ} → Db → ℕ → Result (A × Db) → Result A × World
commit_at db n (ok (a, d)) = (ok a, record { db = d; tick = n })
commit_at db n (err e) = (err e, record { db = db; tick = n })

abbrev read_only {ℓ} : {A : Type ℓ} → Db → Result A → Result (A × Db)
read_only db (ok a) = ok (a, db)
read_only db (err e) = err e

module _ (env : Env) where
  -- One statement or transaction, after what the others did. It is given the time.
  unfoldable pub tx {ℓ} : {A : Type ℓ} → (ℕ → Db → Result (A × Db)) → M A
  unfolding commit_at
  tx f w =
      let db = apply_ops (env.others w.tick) w.db in
      commit_at db (suc w.tick) (f (env.clock w.tick) db)

  -- A query.
  unfoldable pub query {ℓ} : {A : Type ℓ} → (Db → Result A) → M A
  unfolding tx
  query f = tx λ _ db. read_only db (f db)

  -- A number from the source of random numbers, the time, and an answer from outside.
  unfoldable pub draw : M ℕ
  draw w = (ok (env.random w.tick), record w { tick = suc w.tick })

  unfoldable pub time : M ℕ
  time w = (ok (env.clock w.tick), record w { tick = suc w.tick })

  unfoldable pub ask {ℓ} : {A : Type ℓ} → (Outside → Result A) → M A
  ask f w = (f (env.outside w.tick), record w { tick = suc w.tick })
