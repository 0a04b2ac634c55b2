-- ===== src/AiSdk/Tests.antt =====
-- Approvals of lib/ai-sdk at concrete inputs.
use moatazalasrai.Prelude.{
  ◌<◌, ◌≡◌, ◌≢◌, ◌↔◌, ◌⊎◌, ◌++◌, any, or_else, refl, true, false, List, [], ◌∷◌, none, some,
  if◌then◌else◌, find_row, select_rows, update_rows, delete_rows, max_of,
}
use moatazalasrai.Prelude.Text.{
  Text, has_text, codes, trim, to_lower, text_eq, includes_text, starts_with,
}
use moatazalasrai.Api.{ok, err, api, tool_approval_not_consumable}
use moatazalasrai.Execution.Settings.{unset}
use moatazalasrai.AiSdk.Runs.{
  RunStatus, save_checkpoint, append_event, persist_step, approval_ttl_seconds,
}
use moatazalasrai.AiSdk.Approvals.{
  pending, approved, rejected, Approval, Store, same_status, ToolRequest, requested_row,
  request_tool_approval,
}
use moatazalasrai.AiSdk.Approvals.Decisions.{
  Decision, decided_row, consumed_row, decide, read_decision, write_decision, is_approval, consume,
}
use moatazalasrai.AiSdk.Approvals.Decided.{decide-ok}
use moatazalasrai.AiSdk.Approvals.Ops.{Op, request, sweep, write, apply_op, apply_ops}
use moatazalasrai.AiSdk.Approvals.Refines.{Refines, apply_ops-Refines}
use moatazalasrai.AiSdk.Approvals.Once.{consume-once}
use moatazalasrai.AiSdk.ApprovalPolicy.{
  ToolCall, never, always, low, risk_of, has_side_effects, is_read_only, evaluation,
  evaluate_tool_approval, side_effect_capabilities, read_only_capabilities, side_effect_language,
  side_effect_words, side_effect_parts, side_effect_keys, has_part,
}
use moatazalasrai.AiSdk.ApprovalPolicy.Words.{ShowsWord, ShowsPart}
use moatazalasrai.AiSdk.ApprovalPolicy.Laws.{evaluate-requires}
use moatazalasrai.AiSdk.ApprovalPolicy.Redaction.{
  Value, text, number, object, field, end, redacted_summary, IsShown, redacted_summary-IsShown,
}

abbrev start : Store
start = record {
  approvals = [];
  run_tables = record {
    runs = record { id = 4; organization = 1; status = RunStatus.running } ∷ [];
    steps = [];
    events = [];
    checkpoints = [];
  };
  audits = [];
}

abbrev tool_request : ToolRequest
tool_request = record {
  organization = 1;
  user = some 7;
  run = 4;
  agent = 2;
  tool = 30;
  tool_call = 40;
  approval_id = 50;
  reason = codes "writes";
  step_number = 1;
  new_id = 60;
}

abbrev row : Approval
row = requested_row tool_request 900100

abbrev decision : Decision
decision = record { organization = 1; approval_id = 50; user = 8; accepts = true; reason = none }

abbrev given : Approval
given = decided_row decision 200 row row

abbrev before : List Op
before = request tool_request 100 unset unset ∷ write decision 200 row ∷ []

abbrev after_request : Store
after_request = apply_ops (request tool_request 100 unset unset ∷ []) start

decided : (decide decision 200 after_request).0 ≡ ok given
unfolding decide read_decision write_decision apply_ops apply_op request_tool_approval
    save_checkpoint append_event persist_step find_row select_rows update_rows delete_rows max_of
    same_status approval_ttl_seconds
decided = refl

decide-ok_example :
    (seen : Approval) × (find_row (is_approval 1 50) after_request.approvals ≡ some seen)
    × (seen.status ≡ pending)
    × (200 < seen.expires_at)
    × (given.id ≡ seen.id)
    × (given.status ≡ (if true then approved else rejected))
    × (given.decided_by ≡ some 8)
    × (given.decided_at ≡ some 200)
decide-ok_example = decide-ok decision 200 after_request {given = given} decided

taken : (consume 1 50 300 (apply_ops before start)).0 ≡ ok (consumed_row 300 given)
unfolding consume write_decision apply_ops apply_op request_tool_approval save_checkpoint
    append_event persist_step find_row select_rows update_rows delete_rows max_of same_status
    approval_ttl_seconds
taken = refl

-- The same decision, written again, and the expiry of what is pending come between.
consume-once_example :
    consume 1 50 400 (
      apply_ops
        (write decision 350 row ∷ sweep 1 360 ∷ [])
        (consume 1 50 300 (apply_ops before start)).1)
    ≡ (
      err (api 409 tool_approval_not_consumable),
      apply_ops
          (write decision 350 row ∷ sweep 1 360 ∷ [])
          (consume 1 50 300 (apply_ops before start)).1,
    )
consume-once_example =
    consume-once before (write decision 350 row ∷ sweep 1 360 ∷ []) start 1 50 300 400
      {row = consumed_row 300 given} refl taken

apply_ops-Refines_example : Refines start.approvals (apply_ops before start).approvals
apply_ops-Refines_example = apply_ops-Refines before start

abbrev call : ToolCall
call = record {
  mode = never;
  risk = codes "low";
  capability = codes "search";
  name = codes "find pages";
  description = some (codes "Looks for pages. Nothing is deleted.");
  read_only_hint = false;
  destructive_hint = false;
  open_world_hint = false;
  argument_names = codes "query" ∷ [];
}

-- "deleted" is not the word "delete".
runs_alone : (evaluate_tool_approval call).requires_approval ≡ false
unfolding evaluate_tool_approval evaluation risk_of has_side_effects is_read_only to_lower trim
    text_eq includes_text starts_with
runs_alone = refl

evaluate-requires_example : ((evaluate_tool_approval call).requires_approval ≡ false) ↔ (
    (call.mode ≢ always)
    × (risk_of call.risk ≡ low)
    × (call.destructive_hint ≡ false)
    × (has_text side_effect_capabilities (to_lower (trim call.capability)) ≡ false)
    × (side_effect_language (call.name ++ b' ' ∷ or_else call.description []) ≡ false)
    × (any (has_part side_effect_keys) call.argument_names ≡ false)
    × (¬ ShowsWord side_effect_words false (call.name ++ b' ' ∷ or_else call.description []))
    × (¬ ShowsPart side_effect_parts (call.name ++ b' ' ∷ or_else call.description []))
    × (¬ (
        (name : Text) × (has_text call.argument_names name ≡ true)
        × ShowsPart side_effect_keys name))
    × ((call.read_only_hint ≡ true)
        ⊎ ((has_text read_only_capabilities (to_lower (trim call.capability)) ≡ true)
            × (call.open_world_hint ≡ false))))
evaluate-requires_example = evaluate-requires call

abbrev arguments : Value
arguments = object (field (codes "API-Key") (text (codes "k1")) (field (codes "n") (number 3) end))

redacted_summary-IsShown_example : IsShown 4 (redacted_summary arguments)
redacted_summary-IsShown_example = redacted_summary-IsShown arguments
