-- ===== src/AiSdk/Runs.antt =====
-- The tables of a run, its checkpoints (lib/ai-sdk/checkpoints.ts), steps (run-steps.ts) and events
-- (run-events.ts). Ids are numbers; the messages of a checkpoint and the payloads are not kept.
use moatazalasrai.Prelude.{
  ℕ, ◌+◌, ◌*◌, Bool, ◌&&◌, List, [], ◌∷◌, ◌++◌, Option, none, some, ◌==◌, ltb, leb, if◌then◌else◌,
  find_row, select_rows, update_rows, delete_rows, max_of, min, max,
}
use moatazalasrai.Api.{
  api, run_not_found, run_checkpoint_unavailable, Response, ok, err, ◌>>=◌, need,
}
use moatazalasrai.Execution.Settings.{Setting, unset, not_integer, negative, value}

-- `runStatus`
pub data RunStatus : Type 0 where
  queued running waiting_approval completed failed cancelled : RunStatus

pub record Run : Type 0 where
  pub id : ℕ
  pub organization : ℕ
  pub status : RunStatus

pub data StepType : Type 0 where
  model tool_call tool_result approval_requested approval_response fallback : StepType

pub data StepStatus : Type 0 where
  running completed failed waiting_approval : StepStatus

pub record RunStep : Type 0 where
  pub organization : ℕ
  pub run : ℕ
  pub number : ℕ
  pub step_type : StepType
  pub status : StepStatus
  pub tool_call : Option ℕ

pub data RunEventType : Type 0 where
  approval_requested approval_resolved : RunEventType

pub record RunEvent : Type 0 where
  pub run : ℕ
  pub sequence : ℕ
  pub event_type : RunEventType

-- What a checkpoint says of the approval that it waits for.
pub record Checkpoint : Type 0 where
  pub organization : ℕ
  pub run : ℕ
  pub version : ℕ
  pub approval_id : ℕ
  pub tool_call : ℕ
  pub expires_at : ℕ

pub record RunTables : Type 0 where
  pub runs : List Run
  pub steps : List RunStep
  pub events : List RunEvent
  pub checkpoints : List Checkpoint

-- `integerEnv` of lib/ai-sdk/limits.ts; a fraction counts as its floor, and `not_integer` is what is
-- no finite number.
unfoldable pub integer_env : ℕ → ℕ → ℕ → Setting → ℕ
integer_env default minimum maximum unset = min maximum (max minimum default)
integer_env default minimum maximum not_integer = default
integer_env default minimum maximum negative = min maximum minimum
integer_env default minimum maximum (value n) = min maximum (max minimum n)

unfoldable pub approval_ttl_seconds : Setting → ℕ
unfolding integer_env
approval_ttl_seconds s = integer_env 900 60 86400 s

unfoldable pub checkpoint_ttl_seconds : Setting → ℕ
unfolding integer_env
checkpoint_ttl_seconds s = integer_env 86400 300 604800 s

abbrev pub is_run : ℕ → ℕ → Run → Bool
is_run organization run r = r.id == run && r.organization == organization

abbrev pub lock_run : ℕ → ℕ → RunTables → Response Run
lock_run organization run t =
    need (find_row (is_run organization run) t.runs) (api 404 run_not_found)

abbrev pub is_checkpoint : ℕ → ℕ → Checkpoint → Bool
is_checkpoint organization run c = c.organization == organization && c.run == run

-- `saveRunCheckpoint`: the new one takes the place of the earlier ones.
unfoldable pub save_checkpoint : ℕ → ℕ → ℕ → ℕ → ℕ → Setting → RunTables → Response RunTables
unfolding checkpoint_ttl_seconds
save_checkpoint organization run approval call now ttl t = do
  _ ← lock_run organization run t
  let others = select_rows (is_checkpoint organization run) t.checkpoints
  ok (record t {
    checkpoints =
        delete_rows (is_checkpoint organization run) t.checkpoints
        ++ record {
          organization = organization;
          run = run;
          version = max_of (λ (c : Checkpoint). c.version) others + 1;
          approval_id = approval;
          tool_call = call;
          expires_at = now + checkpoint_ttl_seconds ttl * 1000;
        }
          ∷ [];
  })

-- `deleteRunCheckpoints`
unfoldable pub delete_checkpoints : ℕ → ℕ → RunTables → RunTables
delete_checkpoints organization run t = record t {
  checkpoints = delete_rows (is_checkpoint organization run) t.checkpoints;
}

-- `cleanupExpiredRunCheckpoints`
unfoldable pub cleanup_checkpoints : ℕ → RunTables → RunTables
cleanup_checkpoints now t = record t {
  checkpoints = delete_rows (λ c. leb c.expires_at now) t.checkpoints;
}

-- The row with the highest version, of those that are not out of time.
abbrev later_version : Option Checkpoint → Checkpoint → Option Checkpoint
later_version none c = some c
later_version (some best) c = if ltb best.version c.version then some c else some best

unfoldable pub latest : Option Checkpoint → List Checkpoint → Option Checkpoint
latest best [] = best
latest best (c ∷ rows) = latest (later_version best c) rows

-- `loadRunCheckpoint`: where none is left in time, all are deleted.
unfoldable pub load_checkpoint : ℕ → ℕ → ℕ → RunTables → Response Checkpoint × RunTables
unfolding latest delete_checkpoints
load_checkpoint organization run now t =
    elim (latest none
      (select_rows (λ c. is_checkpoint organization run c && ltb now c.expires_at) t.checkpoints)) [
        | none ↦ (err (api 409 run_checkpoint_unavailable), delete_checkpoints organization run t)
        | some c ↦ (ok c, t)
      ]

-- `createRunStepAllocator`: the first number that it gives.
unfoldable pub first_step : ℕ → ℕ → RunTables → Response ℕ
first_step organization run t = do
  _ ← lock_run organization run t
  ok (
      max_of (λ (s : RunStep). s.number)
        (select_rows (λ s. s.organization == organization && s.run == run) t.steps)
      + 1)

abbrev is_step : RunStep → RunStep → Bool
is_step step s = s.run == step.run && s.number == step.number

-- `persistRunStep`; the organization of a step that is there stays.
unfoldable pub persist_step : RunStep → RunTables → RunTables
persist_step step t = elim (find_row (is_step step) t.steps) [
  | none ↦ record t { steps = t.steps ++ step ∷ [] }
  | some _ ↦ record t {
    steps =
        update_rows (is_step step)
          (λ s. record s {
            step_type = step.step_type;
            status = step.status;
            tool_call = step.tool_call;
          })
          t.steps;
  }
]

-- `appendRunEvent`
unfoldable pub append_event : ℕ → ℕ → RunEventType → RunTables → Response RunTables
append_event organization run event_type t = do
  _ ← lock_run organization run t
  let current = select_rows (λ (e : RunEvent). e.run == run) t.events
  ok (record t {
    events =
        t.events
        ++ record {
          run = run;
          sequence = max_of (λ (e : RunEvent). e.sequence) current + 1;
          event_type = event_type;
        }
          ∷ [];
  })
