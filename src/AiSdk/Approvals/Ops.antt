-- ===== src/AiSdk/Approvals/Ops.antt =====
-- Any sequence of the operations on approvals, by any users, and what each does to the table.
use moatazalasrai.Prelude.{
  ℕ, ◌+◌, ◌*◌, ◌≡◌, inl, inr, refl, List, [], ◌∷◌, some, Bool-cases, Option-cases, any, find_row,
}
use moatazalasrai.Api.{ok, err, internal, Response-cases}
use moatazalasrai.Execution.Settings.{Setting}
use moatazalasrai.AiSdk.Runs.{RunEventType, save_checkpoint, approval_ttl_seconds}
use moatazalasrai.AiSdk.Approvals.{
  pending, Approval, Store, clashes, insert_approval, ToolRequest, requested_row, insert_request,
  finish_request, request_tool_approval, of_tool_call,
}
use moatazalasrai.AiSdk.Approvals.Decisions.{
  ExternalRequest, find_identity, external_row, request_external, expire_pending, Decision,
  write_decision, consume,
}
use moatazalasrai.AiSdk.Approvals.Life.{
  Effect, added, unmoved, then_event-approvals, expire_pending-Effect, write_decision-Effect,
  consume-Effect,
}

-- A decision is written for a row that has been read at any earlier time, or never.
pub data Op : Type 0 where
  request : ToolRequest → ℕ → Setting → Setting → Op
  request_outside : ExternalRequest → ℕ → Setting → Op
  sweep : ℕ → ℕ → Op
  write : Decision → ℕ → Approval → Op
  spend : ℕ → ℕ → ℕ → Op

unfoldable pub apply_op : Op → Store → Store
apply_op (request input now ttl checkpoint_ttl) store =
    (request_tool_approval input now ttl checkpoint_ttl store).1
apply_op (request_outside input now ttl) store = (request_external input now ttl store).1
apply_op (sweep organization now) store = expire_pending organization now store
apply_op (write input now seen) store = (write_decision input now seen store).1
apply_op (spend organization approval now) store = (consume organization approval now store).1

unfoldable pub apply_ops : List Op → Store → Store
apply_ops [] store = store
apply_ops (op ∷ ops) store = apply_ops ops (apply_op op store)

refused : {xs : List Approval} → err internal ≡ ok xs → ⊥
refused h = cc

added_rows : {xs ys : List Approval} → ok xs ≡ ok ys → ys ≡ xs
added_rows h = cc

insert-Effect :
    (new : Approval) (xs ys : List Approval)
    → new.status ≡ pending
    → insert_approval new xs ≡ ok ys
    → Effect xs ys
unfolding insert_approval
insert-Effect new xs ys fresh h = elim (Bool-cases (any (clashes new) xs)) [
  | inl clash ↦ absurd (refused (rw clash at h))
  | inr free ↦ added new fresh free (added_rows (rw free at h))
]

finish_request-Effect :
    (input : ToolRequest) (expires : ℕ) (store : Store)
    → Effect store.approvals
        (finish_request input expires store (insert_request input expires store)).1.approvals
finish_request-Effect input expires store =
    elim (Response-cases (insert_approval (requested_row input expires) store.approvals)) [
      | inr (failure, failed) ↦ rw failed (unmoved store.approvals)
      | inl (rows, inserted) ↦ rw inserted (
          rw
            (then_event-approvals input.organization (some input.run)
              RunEventType.approval_requested (requested_row input expires) _)
            (insert-Effect (requested_row input expires) store.approvals rows refl inserted))
    ]

request-Effect :
    (input : ToolRequest) (now : ℕ) (ttl checkpoint_ttl : Setting) (store : Store)
    → Effect store.approvals (request_tool_approval input now ttl checkpoint_ttl store).1.approvals
unfolding request_tool_approval
request-Effect input now ttl checkpoint_ttl store =
    elim (Option-cases (find_row (of_tool_call input) store.approvals)) [
      | inr (existing, found) ↦ rw (found, request_tool_approval) (unmoved store.approvals)
      | inl missing ↦
          elim (Response-cases (
            save_checkpoint input.organization input.run input.approval_id input.tool_call now
              checkpoint_ttl store.run_tables)) [
                | inr (failure, failed) ↦
                    rw (missing, failed, request_tool_approval) (unmoved store.approvals)
                | inl (tables, saved) ↦
                    rw (missing, saved, request_tool_approval)
                      (finish_request-Effect input (now + approval_ttl_seconds ttl * 1000)
                        (record store { run_tables = tables }))
              ]
    ]

external-Effect :
    (input : ExternalRequest) (now : ℕ) (ttl : Setting) (store : Store)
    → Effect store.approvals (request_external input now ttl store).1.approvals
unfolding request_external
external-Effect input now ttl store =
    let row = external_row input (now + approval_ttl_seconds ttl * 1000) in
    elim (Option-cases (find_identity input store.approvals)) [
      | inr (existing, found) ↦ rw (found, request_external) (unmoved store.approvals)
      | inl missing ↦ elim (Response-cases (insert_approval row store.approvals)) [
        | inr (failure, failed) ↦ rw (missing, failed, request_external) (unmoved store.approvals)
        | inl (rows, inserted) ↦
            rw (missing, inserted, request_external)
              (insert-Effect row store.approvals rows refl inserted)
      ]
    ]

pub apply_op-Effect :
    (op : Op) (store : Store) → Effect store.approvals (apply_op op store).approvals
unfolding apply_op
apply_op-Effect (request input now ttl checkpoint_ttl) store =
    request-Effect input now ttl checkpoint_ttl store
apply_op-Effect (request_outside input now ttl) store = external-Effect input now ttl store
apply_op-Effect (sweep organization now) store = expire_pending-Effect organization now store
apply_op-Effect (write input now seen) store = write_decision-Effect input now seen store
apply_op-Effect (spend organization approval now) store =
    consume-Effect organization approval now store
