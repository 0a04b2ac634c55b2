-- ===== src/Execution/Events.antt =====
-- `appendExecutionEvent`, `safeOutputChunk`, `appendOutputEvent` and `listExecutionEvents` of
-- lib/execution/event-service.ts.
pub mod Laws
pub mod Listing
use moatazalasrai.Prelude.{
  ℕ, ◌≡◌, refl, ◌-◌, Bool, true, false, List, [], ◌∷◌, ◌++◌, Option, none, some, String, ◌==◌, ltb,
  ◌&&◌, not, if◌then◌else◌, length, take, select_rows, or_else, min, max,
}
use moatazalasrai.Prelude.Text.{Text}
use moatazalasrai.Execution.Errors.{Result, ok, err, ◌>>=◌, need, refuse, not_found}
use moatazalasrai.Execution.Schema.{Db, Job, Event, Level, info, warn}
use moatazalasrai.Execution.Db.{Tx, find_job, insert_event, of_job}

-- `appendExecutionEvent`; the row is locked while the sequence number is read.
unfoldable pub append_event : ℕ → ℕ → String → String → Level → Tx (Unit {0})
append_event organization job kind source level db = do
  _ ← need (find_job organization job db) (refuse not_found)
  ok (tt, insert_event job kind source level db)

pub record OutputChunk : Type 0 where
  pub text : Text
  pub bytes : ℕ
  pub original_bytes : ℕ
  pub truncated : Bool

pub data Stream : Type 0 where
  stdout stderr : Stream

-- Nothing is written for a chunk with an empty text.
unfoldable pub append_chunk : ℕ → ℕ → Stream → OutputChunk → Tx (Unit {0})
unfolding append_event
append_chunk organization job stream output db =
    if length output.text == 0 then ok (tt, db) else elim stream [
      | stdout ↦ append_event organization job "stdout.chunk" "runner" info db
      | stderr ↦ append_event organization job "stderr.chunk" "runner" warn db
    ]

-- `decode` is that of `TextDecoder`, which replaces what is not UTF-8.
module _ (decode : List ℕ → Text) where
  unfoldable pub safe_output_chunk : ℕ → List ℕ → OutputChunk
  safe_output_chunk maximum chunk =
      let kept = if ltb maximum (length chunk) then take maximum chunk else chunk in
      record {
        text = decode kept;
        bytes = length kept;
        original_bytes = length chunk;
        truncated = ltb (length kept) (length chunk);
      }

  -- `appendOutputEvent`
  unfoldable pub append_output : ℕ → ℕ → Stream → List ℕ → Tx (Unit {0})
  unfolding safe_output_chunk append_chunk
  append_output organization job stream chunk =
      append_chunk organization job stream (safe_output_chunk 32768 chunk)

pub append_output_lem :
    (decode : List ℕ → Text) (organization job : ℕ) (stream : Stream) (chunk : List ℕ)
    → append_output decode organization job stream chunk
      ≡ append_chunk organization job stream (safe_output_chunk decode 32768 chunk)
append_output_lem decode organization job stream chunk = unfold append_output in refl

-- `order by sequence`
unfoldable pub insert_by_sequence : Event → List Event → List Event
insert_by_sequence e [] = e ∷ []
insert_by_sequence e (x ∷ xs) =
    let later = insert_by_sequence e xs in
    if ltb e.sequence x.sequence then e ∷ x ∷ xs else x ∷ later

unfoldable pub sort_by_sequence : List Event → List Event
unfolding insert_by_sequence
sort_by_sequence [] = []
sort_by_sequence (x ∷ xs) = insert_by_sequence x (sort_by_sequence xs)

-- `listExecutionEvents`: the events of a job after a sequence number, in order, at most 500.
unfoldable pub list_events : ℕ → ℕ → Option ℕ → Option ℕ → Db → List Event
unfolding sort_by_sequence
list_events organization job after limit db = elim (find_job organization job db) [
  | none ↦ []
  | some _ ↦ take (min (max (or_else limit 200) 1) 500) (
      sort_by_sequence
        (select_rows (λ (e : Event). of_job job e && ltb (or_else after 0) e.sequence) db.events))
]
