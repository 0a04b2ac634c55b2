-- ===== src/AiSdk/Approvals/Decisions.antt =====
-- Deciding, expiring and consuming approvals in lib/ai-sdk/approvals.ts, and the approvals of
-- external-approvals.ts.
use moatazalasrai.Prelude.{
  ℕ, ◌+◌, ◌*◌, Bool, true, false, ◌&&◌, ◌||◌, List, [], ◌∷◌, ◌++◌, Option, none, some, ◌==◌, ltb,
  leb, if◌then◌else◌, find_row, select_rows, update_rows,
}
use mathlib.Core.List.{reverse}
use moatazalasrai.Prelude.Text.{Text, trim}
use moatazalasrai.Api.{
  api, tool_approval_not_found, tool_approval_invalid, tool_approval_not_decided,
  tool_approval_already_decided, tool_approval_expired, tool_approval_not_consumable, Response, ok,
  err, ◌>>=◌, ◌>>◌, guard, need,
}
use moatazalasrai.Execution.Settings.{Setting}
use moatazalasrai.AiSdk.Runs.{RunEventType, approval_ttl_seconds}
use moatazalasrai.AiSdk.Approvals.{
  pending, approved, rejected, consumed, expired, same_status, Approval, Action, Entry, Store,
  insert_approval, write_audit, then_event,
}

-- The input of `requestExternalToolApproval`, with the ids that are made for it.
pub record ExternalRequest : Type 0 where
  pub organization : ℕ
  pub requested_by : Option ℕ
  pub agent : Option ℕ
  pub tool : ℕ
  pub reason : Text
  pub browser_step : Option ℕ
  pub sandbox_execution : Option ℕ
  pub approval_id : ℕ
  pub new_id : ℕ

abbrev is_some : Option ℕ → ℕ → Bool
is_some none n = false
is_some (some m) n = m == n

-- The row of the same step of the browser, or else of the same execution.
abbrev pub find_identity : ExternalRequest → List Approval → Option Approval
find_identity input rows = elim input.browser_step [
  | some step ↦
      find_row (λ row. row.organization == input.organization && is_some row.browser_step step) rows
  | none ↦ elim input.sandbox_execution [
    | some execution ↦
        find_row
          (λ row. row.organization == input.organization && is_some row.sandbox_execution execution)
          rows
    | none ↦ none
  ]
]

abbrev pub external_row : ExternalRequest → ℕ → Approval
external_row input expires = record {
  id = input.new_id;
  organization = input.organization;
  approval_id = input.approval_id;
  run = none;
  tool_call = none;
  browser_step = input.browser_step;
  sandbox_execution = input.sandbox_execution;
  tool = input.tool;
  agent = input.agent;
  status = pending;
  requested_by = input.requested_by;
  decided_by = none;
  decided_at = none;
  consumed_at = none;
  expires_at = expires;
  reason = some input.reason;
}

-- `input.agentId ?? input.requestedByUserId`
abbrev actor_of : ExternalRequest → Option ℕ
actor_of input = elim input.agent [ some agent ↦ some agent | none ↦ input.requested_by ]

-- `requestExternalToolApproval`
unfoldable pub request_external : ExternalRequest → ℕ → Setting → Store → Response Approval × Store
unfolding insert_approval
request_external input now ttl store = elim (find_identity input store.approvals) [
  | some existing ↦ (ok existing, store)
  | none ↦
      let row = external_row input (now + approval_ttl_seconds ttl * 1000) in
      elim (insert_approval row store.approvals) [
        | err failure ↦ (err failure, store)
        | ok rows ↦ (
          ok row,
          write_audit input.organization (actor_of input) Action.requested input.new_id
              (record store { approvals = rows }),
        )
      ]
]

abbrev pub expire_row : Approval → Approval
expire_row row = record row { status = expired }

abbrev pub is_overdue : ℕ → ℕ → Approval → Bool
is_overdue organization now row =
    row.organization == organization && same_status row.status pending && leb row.expires_at now

unfoldable pub expired_entries : ℕ → List Approval → List Entry
expired_entries organization [] = []
expired_entries organization (row ∷ rows) =
    record { organization = organization; actor = none; action = Action.expired; resource = row.id }
    ∷ expired_entries organization rows

-- `expirePendingApprovals`
unfoldable pub expire_pending : ℕ → ℕ → Store → Store
unfolding expired_entries
expire_pending organization now store = record store {
  approvals = update_rows (is_overdue organization now) expire_row store.approvals;
  audits =
      store.audits
      ++ expired_entries organization (select_rows (is_overdue organization now) store.approvals);
}

abbrev pub is_approval : ℕ → ℕ → Approval → Bool
is_approval organization approval row =
    row.organization == organization && row.approval_id == approval

-- `listPendingToolApprovals`, without the names that are looked up. The rows of a table stand in the
-- order of their creation, and the latest is listed first.
unfoldable pub list_pending : ℕ → ℕ → Store → List Approval × Store
unfolding expire_pending
list_pending organization now store =
    let swept = expire_pending organization now store in
    (
      reverse (
          select_rows
            (λ row.
              row.organization == organization
              && same_status row.status pending
              && ltb now row.expires_at)
            swept.approvals),
      swept,
    )

-- `getToolApproval`
unfoldable pub get_approval : ℕ → ℕ → ℕ → Store → Response Approval × Store
unfolding expire_pending
get_approval organization approval now store =
    let swept = expire_pending organization now store in
    (
      need (find_row (is_approval organization approval) swept.approvals)
          (api 404 tool_approval_not_found),
      swept,
    )

abbrev is_there : Option ℕ → Bool
is_there none = false
is_there (some n) = true

-- `getToolApprovalForResume`
unfoldable pub get_for_resume : ℕ → ℕ → Store → Response Approval
get_for_resume organization approval store = do
  row ←
      need (find_row (is_approval organization approval) store.approvals)
        (api 404 tool_approval_not_found)
  guard (is_there row.run && is_there row.tool_call) (api 409 tool_approval_invalid)
  guard (same_status row.status approved || same_status row.status rejected)
      (api 409 tool_approval_not_decided)
  ok row

pub record Decision : Type 0 where
  pub organization : ℕ
  pub approval_id : ℕ
  pub user : ℕ
  pub accepts : Bool
  pub reason : Option Text

-- `input.reason?.trim() || current.reason`
abbrev reason_of : Option Text → Option Text → Option Text
reason_of none current = current
reason_of (some reason) current = elim (trim reason) [ [] ↦ current | c ∷ s ↦ some (c ∷ s) ]

abbrev pub decided_row : Decision → ℕ → Approval → Approval → Approval
decided_row input now seen row = record row {
  status = if input.accepts then approved else rejected;
  decided_by = some input.user;
  decided_at = some now;
  reason = reason_of input.reason seen.reason;
}

abbrev pub is_pending : ℕ → Approval → Bool
is_pending id row = row.id == id && same_status row.status pending

-- The first statement of the transaction of `decideToolApproval`, and its checks.
unfoldable pub read_decision : Decision → Store → Response Approval
read_decision input store = do
  current ←
      need (find_row (is_approval input.organization input.approval_id) store.approvals)
        (api 404 tool_approval_not_found)
  guard (same_status current.status pending) (api 409 tool_approval_already_decided)
  ok current

-- The statements that write, given the row that was read: nothing locks it, so it may have changed.
unfoldable pub write_decision : Decision → ℕ → Approval → Store → Response Approval × Store
write_decision input now seen store =
    if leb seen.expires_at now
    then (
      err (api 409 tool_approval_expired),
      write_audit input.organization (some input.user) Action.expired seen.id (record store {
        approvals = update_rows (λ row. row.id == seen.id) expire_row store.approvals;
      }),
    )
    else elim (find_row (is_pending seen.id) store.approvals) [
      | none ↦ (err (api 409 tool_approval_already_decided), store)
      | some row ↦
          let updated = decided_row input now seen row in
          then_event input.organization updated.run RunEventType.approval_resolved updated (
            write_audit input.organization (some input.user)
              (if input.accepts then Action.approved else Action.rejected) row.id
              (record store {
                approvals =
                    update_rows (is_pending seen.id) (decided_row input now seen) store.approvals;
              }))
    ]

-- `decideToolApproval`, where nothing comes between.
unfoldable pub decide : Decision → ℕ → Store → Response Approval × Store
unfolding read_decision write_decision
decide input now store = elim (read_decision input store) [
  | err failure ↦ (err failure, store)
  | ok seen ↦ write_decision input now seen store
]

abbrev pub is_consumable : ℕ → ℕ → Approval → Bool
is_consumable organization approval row =
    is_approval organization approval row
    && (same_status row.status approved || same_status row.status rejected)

abbrev pub consumed_row : ℕ → Approval → Approval
consumed_row now row = record row { status = consumed; consumed_at = some now }

-- `consumeToolApproval`
unfoldable pub consume : ℕ → ℕ → ℕ → Store → Response Approval × Store
consume organization approval now store =
    elim (find_row (is_consumable organization approval) store.approvals) [
      | none ↦ (err (api 409 tool_approval_not_consumable), store)
      | some row ↦ (
        ok (consumed_row now row),
        write_audit organization none Action.consumed row.id (record store {
          approvals =
              update_rows (is_consumable organization approval) (consumed_row now) store.approvals;
        }),
      )
    ]
