-- ===== src/AiSdk/Approvals/Decided.antt =====
-- What it takes to decide on an approval.
use moatazalasrai.Prelude.{
  ℕ, ◌<◌, ◌≡◌, inl, inr, Option, none, some, ap, ◌∙◌, subst, ◌==◌, ==_iff, find_row_sound, leb,
  if◌then◌else◌, arith, Bool-cases, Option-cases, find_row, &&-inv,
}
use moatazalasrai.Api.{
  Failure, Response, ok, err, api, tool_approval_not_found, tool_approval_already_decided,
  tool_approval_expired, Response-cases, bind-eq-ok, guard-eq-ok, need,
}
use moatazalasrai.AiSdk.Runs.{RunTables, RunEventType}
use moatazalasrai.AiSdk.Approvals.{
  pending, approved, rejected, same_status, Approval, Store, after_event, then_event,
}
use moatazalasrai.AiSdk.Approvals.Decisions.{
  Decision, decided_row, is_pending, is_approval, read_decision, write_decision, decide,
}
use moatazalasrai.AiSdk.Approvals.Life.{same_status-eq}

need-found :
    (found : Option Approval) {row : Approval}
    → need found (api 404 tool_approval_not_found) ≡ ok row
    → found ≡ some row
need-found none h = cc
need-found (some row) h = cc

read_decision-ok :
    (input : Decision) (store : Store) {seen : Approval}
    → read_decision input store ≡ ok seen
    → (find_row (is_approval input.organization input.approval_id) store.approvals ≡ some seen)
      × (seen.status ≡ pending)
unfolding read_decision
read_decision-ok input store {seen} h =
    let (current, found, rest) = bind-eq-ok (need _ _) _ {last = seen} h in
    let (open_still, same) =
      guard-eq-ok (same_status current.status pending) _ (ok current) {a = seen} rest in
    let equal : current ≡ seen = cc same in
    (
      need-found _ {row = seen} (found ∙ ap ok equal),
      subst (λ x. x.status ≡ pending) equal (same_status-eq current.status pending open_still),
    )

event_ok :
    (result : Response RunTables) (row : Approval) (store : Store) {given : Approval}
    → (after_event result row store).0 ≡ ok given
    → given ≡ row
event_ok (ok tables) row store h = cc
event_ok (err failure) row store h = cc

then_event_ok :
    (organization : ℕ) (run : Option ℕ) (event : RunEventType) (row : Approval) (store : Store)
    {given : Approval}
    → (then_event organization run event row store).0 ≡ ok given
    → given ≡ row
then_event_ok organization none event row store h = cc
then_event_ok organization (some run) event row store {given} h =
    event_ok _ row store {given = given} h

failed_read : (failure : Failure) {row : Approval} → err failure ≡ ok row → ⊥
failed_read failure h = cc

late : {row : Approval} → err (api 409 tool_approval_expired) ≡ ok row → ⊥
late h = cc

gone : {row : Approval} → err (api 409 tool_approval_already_decided) ≡ ok row → ⊥
gone h = cc

write_decision-ok :
    (input : Decision) (now : ℕ) (seen : Approval) (store : Store) {given : Approval}
    → (write_decision input now seen store).0 ≡ ok given
    → (now < seen.expires_at)
      × ((row : Approval) × (find_row (is_pending seen.id) store.approvals ≡ some row)
          × (given ≡ decided_row input now seen row))
unfolding write_decision
write_decision-ok input now seen store {given} h = elim (Bool-cases (leb seen.expires_at now)) [
  | inl past ↦ absurd (late (rw (past, write_decision) at h))
  | inr in_time ↦ elim (Option-cases (find_row (is_pending seen.id) store.approvals)) [
    | inl missing ↦ absurd (gone (rw (in_time, missing, write_decision) at h))
    | inr (row, found) ↦ (
      ground (arith, in_time),
      (
        row,
        found,
        then_event_ok input.organization row.run RunEventType.approval_resolved
            (decided_row input now seen row) _ {given = given}
            (rw (in_time, found, write_decision) at h),
      ),
    )
  ]
]

-- A decision that succeeds is on an approval of the organization that was pending and whose time had
-- not run out. The row that is answered is that approval, with the status that was asked for, and
-- with the user and the time of the decision.
pub decide-ok :
    (input : Decision) (now : ℕ) (store : Store) {given : Approval}
    → (decide input now store).0 ≡ ok given
    → (seen : Approval) × (find_row
          (is_approval input.organization input.approval_id)
          store.approvals
        ≡ some seen)
      × (seen.status ≡ pending)
      × (now < seen.expires_at)
      × (given.id ≡ seen.id)
      × (given.status ≡ (if input.accepts then approved else rejected))
      × (given.decided_by ≡ some input.user)
      × (given.decided_at ≡ some now)
unfolding decide
decide-ok input now store {given} h = elim (Response-cases (read_decision input store)) [
  | inr (failure, failed) ↦ absurd (failed_read failure (rw (failed, decide) at h))
  | inl (seen, read) ↦
      let (found, open_still) = read_decision-ok input store {seen = seen} read in
      let (in_time, (row, there, equal)) =
        write_decision-ok input now seen store {given = given} (rw (read, decide) at h) in
      let same_row =
        (==_iff row.id seen.id).0
          (&&-inv (row.id == seen.id) _
            (find_row_sound (is_pending seen.id) store.approvals {x = row} there)).0 in
      (
        seen,
        found,
        open_still,
        in_time,
        ap (λ (x : Approval). x.id) equal ∙ same_row,
        ap (λ (x : Approval). x.status) equal,
        ap (λ (x : Approval). x.decided_by) equal,
        ap (λ (x : Approval). x.decided_at) equal,
      )
]
