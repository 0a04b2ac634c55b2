-- ===== src/AiSdk/Approvals.antt =====
-- The approval of tool calls: lib/ai-sdk/approvals.ts and external-approvals.ts. Ids are numbers.
-- The arguments of a call, its risk and its capability, which a row only carries, are not kept.
pub mod Decisions
pub mod Life
pub mod Ops
pub mod Refines
pub mod Unique
pub mod Decided
pub mod Once
use moatazalasrai.Prelude.{
  ℕ, ◌+◌, ◌*◌, Bool, true, false, ◌&&◌, ◌||◌, not, List, [], ◌∷◌, ◌++◌, map, Option, none, some,
  ◌==◌, ltb, leb, if◌then◌else◌, find_row, select_rows, update_rows, any,
}
use moatazalasrai.Prelude.Text.{Text, trim}
use moatazalasrai.Api.{
  Failure, api, internal, tool_approval_not_found, tool_approval_invalid, tool_approval_not_decided,
  tool_approval_already_decided, tool_approval_expired, tool_approval_not_consumable, Response, ok,
  err, ◌>>=◌, ◌>>◌, guard, need,
}
use moatazalasrai.Execution.Settings.{Setting}
use moatazalasrai.AiSdk.Runs.{
  Run, RunTables, RunStep, StepType, StepStatus, RunEventType, RunStatus, is_run, save_checkpoint,
  persist_step, append_event, approval_ttl_seconds,
}

-- `toolApprovalStatus`
pub data Status : Type 0 where
  pending approved rejected consumed expired : Status

unfoldable pub same_status : Status → Status → Bool
same_status pending pending = true
same_status approved approved = true
same_status rejected rejected = true
same_status consumed consumed = true
same_status expired expired = true
same_status _ _ = false

-- `toolApprovalsRuntime`
pub record Approval : Type 0 where
  pub id : ℕ
  pub organization : ℕ
  pub approval_id : ℕ
  pub run : Option ℕ
  pub tool_call : Option ℕ
  pub browser_step : Option ℕ
  pub sandbox_execution : Option ℕ
  pub tool : ℕ
  pub agent : Option ℕ
  pub status : Status
  pub requested_by : Option ℕ
  pub decided_by : Option ℕ
  pub decided_at : Option ℕ
  pub consumed_at : Option ℕ
  pub expires_at : ℕ
  pub reason : Option Text

-- What is written to the audit log about an approval.
pub data Action : Type 0 where
  requested approved rejected consumed expired : Action

pub record Entry : Type 0 where
  pub organization : ℕ
  pub actor : Option ℕ
  pub action : Action
  pub resource : ℕ

pub record Store : Type 0 where
  pub approvals : List Approval
  pub run_tables : RunTables
  pub audits : List Entry

-- Equal, and there: two nulls are not equal in a unique index.
abbrev both : Option ℕ → Option ℕ → Bool
both (some a) (some b) = a == b
both _ _ = false

-- The unique indexes of the table.
abbrev pub clashes : Approval → Approval → Bool
clashes new old =
    old.id == new.id
    || old.approval_id == new.approval_id
    || (both old.run new.run && both old.tool_call new.tool_call)
    || both old.browser_step new.browser_step
    || both old.sandbox_execution new.sandbox_execution

unfoldable pub insert_approval : Approval → List Approval → Response (List Approval)
insert_approval new rows = if any (clashes new) rows then err internal else ok (rows ++ new ∷ [])

abbrev pub write_audit : ℕ → Option ℕ → Action → ℕ → Store → Store
write_audit organization actor action resource store = record store {
  audits =
      store.audits
      ++ record { organization = organization; actor = actor; action = action; resource = resource }
        ∷ [];
}

-- The input of `requestToolApproval`, with the id that the database gives.
pub record ToolRequest : Type 0 where
  pub organization : ℕ
  pub user : Option ℕ
  pub run : ℕ
  pub agent : ℕ
  pub tool : ℕ
  pub tool_call : ℕ
  pub approval_id : ℕ
  pub reason : Text
  pub step_number : ℕ
  pub new_id : ℕ

abbrev pub of_tool_call : ToolRequest → Approval → Bool
of_tool_call input row =
    row.organization == input.organization
    && both row.run (some input.run)
    && both row.tool_call (some input.tool_call)

abbrev pub requested_row : ToolRequest → ℕ → Approval
requested_row input expires = record {
  id = input.new_id;
  organization = input.organization;
  approval_id = input.approval_id;
  run = some input.run;
  tool_call = some input.tool_call;
  browser_step = none;
  sandbox_execution = none;
  tool = input.tool;
  agent = some input.agent;
  status = pending;
  requested_by = input.user;
  decided_by = none;
  decided_at = none;
  consumed_at = none;
  expires_at = expires;
  reason = some input.reason;
}

-- The transaction: the row, the status of the run, and the audit.
abbrev pub insert_request : ToolRequest → ℕ → Store → Response Store
insert_request input expires store = do
  rows ← insert_approval (requested_row input expires) store.approvals
  ok (
      write_audit input.organization (some input.agent) requested input.new_id (record store {
        approvals = rows;
        run_tables = record store.run_tables {
          runs =
              update_rows (is_run input.organization input.run)
                (λ (r : Run). record r { status = RunStatus.waiting_approval })
                store.run_tables.runs;
        };
      }))

abbrev pub request_step : ToolRequest → RunStep
request_step input = record {
  organization = input.organization;
  run = input.run;
  number = input.step_number;
  step_type = StepType.approval_requested;
  status = StepStatus.waiting_approval;
  tool_call = some input.tool_call;
}

-- A statement that throws leaves the statements before it done.
abbrev pub after_event : Response RunTables → Approval → Store → Response Approval × Store
after_event (ok tables) row store = (ok row, record store { run_tables = tables })
after_event (err failure) row store = (err failure, store)

abbrev pub then_event : ℕ → Option ℕ → RunEventType → Approval → Store → Response Approval × Store
then_event organization none event row store = (ok row, store)
then_event organization (some run) event row store =
    after_event (append_event organization run event store.run_tables) row store

-- What follows the transaction of a request.
abbrev pub finish_request : ToolRequest → ℕ → Store → Response Store → Response Approval × Store
finish_request input expires saved (err failure) = (err failure, saved)
finish_request input expires saved (ok created) =
    then_event input.organization (some input.run) RunEventType.approval_requested
      (requested_row input expires)
      (record created { run_tables = persist_step (request_step input) created.run_tables })

-- `requestToolApproval`
unfoldable pub request_tool_approval :
    ToolRequest → ℕ → Setting → Setting → Store → Response Approval × Store
unfolding insert_approval
request_tool_approval input now ttl checkpoint_ttl store =
    elim (find_row (of_tool_call input) store.approvals) [
      | some existing ↦ (ok existing, store)
      | none ↦
          elim (save_checkpoint input.organization input.run input.approval_id input.tool_call now
            checkpoint_ttl store.run_tables) [
              | err failure ↦ (err failure, store)
              | ok tables ↦
                  let saved = record store { run_tables = tables } in
                  let expires = now + approval_ttl_seconds ttl * 1000 in
                  finish_request input expires saved (insert_request input expires saved)
            ]
    ]
