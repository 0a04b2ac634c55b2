-- ===== src/AiSdk/Approvals/Life.antt =====
-- The life of an approval, as a state machine that the statements on the table refine.
use moatazalasrai.Prelude.{
  ℕ, ◌≡◌, ◌⊎◌, inl, inr, refl, sym, subst, Bool, true, false, ◌||◌, List, [], ◌∷◌, ◌++◌, Option,
  none, some, ◌==◌, leb, if◌then◌else◌, Bool-cases, Option-cases, any, update_rows, find_row,
  &&-inv,
}
use moatazalasrai.Api.{Response, ok, err}
use moatazalasrai.AiSdk.Runs.{RunTables, RunEventType, append_event}
use moatazalasrai.AiSdk.Approvals.{
  Status, pending, approved, rejected, consumed, expired, same_status, Approval, Store, clashes,
  after_event, then_event,
}
use moatazalasrai.AiSdk.Approvals.Decisions.{
  expire_row, is_overdue, expire_pending, Decision, decided_row, is_pending, write_decision,
  is_approval, is_consumable, consumed_row, consume,
}

-- One step of an approval. Any approval may be found expired: the write of a decision that comes too
-- late does not look at the status again.
pub data Step : Status → Status → Type 0 where
  approve : Step pending approved
  reject : Step pending rejected
  consume_approved : Step approved consumed
  consume_rejected : Step rejected consumed
  expire : (s : Status) → Step s expired

pub data Life (s : Status) : Status → Type 0 where
  here : Life s s
  next : {t u : Status} → Life s t → Step t u → Life s u

pub Life-trans : {s t u : Status} → Life s t → Life t u → Life s u
Life-trans first here = first
Life-trans first (next rest step) = next (Life-trans first rest) step

-- What a statement does to one row: the identity stays, the status moves, and a decision stays.
pub record Moved (x y : Approval) : Type 0 where
  pub same_id : y.id ≡ x.id
  pub same_organization : y.organization ≡ x.organization
  pub same_approval_id : y.approval_id ≡ x.approval_id
  pub same_expiry : y.expires_at ≡ x.expires_at
  pub life : Life x.status y.status
  pub decision :
      (x.status ≡ pending) ⊎ ((y.decided_by ≡ x.decided_by) × (y.decided_at ≡ x.decided_at))

pub Moved-refl : (x : Approval) → Moved x x
Moved-refl x = record {
  same_id = refl;
  same_organization = refl;
  same_approval_id = refl;
  same_expiry = refl;
  life = here;
  decision = inr (refl, refl);
}

pub same_status-eq : (s t : Status) → same_status s t ≡ true → s ≡ t
unfolding same_status
same_status-eq pending pending h = refl
same_status-eq approved approved h = refl
same_status-eq rejected rejected h = refl
same_status-eq consumed consumed h = refl
same_status-eq expired expired h = refl
same_status-eq s t h = cc

decides : (accepts : Bool) → Life pending (if accepts then approved else rejected)
decides true = next here approve
decides false = next here reject

-- The updates of a row, where their conditions hold.
expire-Moved : (x : Approval) → Moved x (expire_row x)
expire-Moved x = record {
  same_id = refl;
  same_organization = refl;
  same_approval_id = refl;
  same_expiry = refl;
  life = next here (expire x.status);
  decision = inr (refl, refl);
}

decided-Moved :
    (input : Decision) (now : ℕ) (seen x : Approval)
    → x.status ≡ pending
    → Moved x (decided_row input now seen x)
decided-Moved input now seen x h = record {
  same_id = refl;
  same_organization = refl;
  same_approval_id = refl;
  same_expiry = refl;
  life = subst (λ s. Life s (decided_row input now seen x).status) (sym h) (decides input.accepts);
  decision = inl h;
}

consumed-Moved :
    (now : ℕ) (x : Approval)
    → (x.status ≡ approved) ⊎ (x.status ≡ rejected)
    → Moved x (consumed_row now x)
consumed-Moved now x h = record {
  same_id = refl;
  same_organization = refl;
  same_approval_id = refl;
  same_expiry = refl;
  life = elim h [
    | inl e ↦ subst (λ s. Life s consumed) (sym e) (next here consume_approved)
    | inr e ↦ subst (λ s. Life s consumed) (sym e) (next here consume_rejected)
  ];
  decision = inr (refl, refl);
}

-- Rows that are moved in place.
abbrev pub Pointwise : List Approval → List Approval → Type 0
Pointwise [] [] = Unit {0}
Pointwise [] (y ∷ ys) = ⊥
Pointwise (x ∷ xs) [] = ⊥
Pointwise (x ∷ xs) (y ∷ ys) = Moved x y × Pointwise xs ys

pub Pointwise-refl : (xs : List Approval) → Pointwise xs xs
Pointwise-refl [] = tt
Pointwise-refl (x ∷ xs) = (Moved-refl x, Pointwise-refl xs)

Pointwise-update :
    (p : Approval → Bool) (f : Approval → Approval) (xs : List Approval)
    → ((x : Approval) → p x ≡ true → Moved x (f x))
    → Pointwise xs (update_rows p f xs)
unfolding update_rows
Pointwise-update p f [] h = tt
Pointwise-update p f (x ∷ xs) h = elim (Bool-cases (p x)) [
  | inl yes_here ↦ rw yes_here (h x yes_here, Pointwise-update p f xs h)
  | inr not_here ↦ rw not_here (Moved-refl x, Pointwise-update p f xs h)
]

-- What an operation does to the table: rows are moved in place, or one is added that clashes with
-- none of the others.
pub data Effect (xs ys : List Approval) : Type 0 where
  moved : Pointwise xs ys → Effect xs ys
  added :
      (new : Approval)
      → new.status ≡ pending
      → any (clashes new) xs ≡ false
      → ys ≡ xs ++ new ∷ []
      → Effect xs ys

pub unmoved : (xs : List Approval) → Effect xs xs
unmoved xs = moved (Pointwise-refl xs)

pub expire_pending-Effect :
    (organization now : ℕ) (store : Store)
    → Effect store.approvals (expire_pending organization now store).approvals
unfolding expire_pending
expire_pending-Effect organization now store = moved (
    Pointwise-update (is_overdue organization now) expire_row store.approvals
      (λ x h. expire-Moved x))

event_done :
    (result : Response RunTables) (row : Approval) (store : Store)
    → (after_event result row store).1.approvals ≡ store.approvals
event_done (ok tables) row store = refl
event_done (err failure) row store = refl

pub then_event-approvals :
    (organization : ℕ) (run : Option ℕ) (event : RunEventType) (row : Approval) (store : Store)
    → (then_event organization run event row store).1.approvals ≡ store.approvals
then_event-approvals organization none event row store = refl
then_event-approvals organization (some run) event row store =
    event_done (append_event organization run event store.run_tables) row store

pending-status : (id : ℕ) (x : Approval) → is_pending id x ≡ true → x.status ≡ pending
pending-status id x h = same_status-eq x.status pending (&&-inv (x.id == id) _ h).1

pub write_decision-Effect :
    (input : Decision) (now : ℕ) (seen : Approval) (store : Store)
    → Effect store.approvals (write_decision input now seen store).1.approvals
unfolding write_decision
write_decision-Effect input now seen store = elim (Bool-cases (leb seen.expires_at now)) [
  | inl late ↦ simp late (
      moved (
        Pointwise-update (λ row. row.id == seen.id) expire_row store.approvals
          (λ x h. expire-Moved x)))
  | inr in_time ↦ elim (Option-cases (find_row (is_pending seen.id) store.approvals)) [
    | inl missing ↦ simp (in_time, missing) (unmoved store.approvals)
    | inr (row, found) ↦
        rw (in_time, found, write_decision)
          (rw
            (then_event-approvals input.organization row.run RunEventType.approval_resolved
              (decided_row input now seen row) _)
            (moved (
              Pointwise-update (is_pending seen.id) (decided_row input now seen) store.approvals
                (λ x h. decided-Moved input now seen x (pending-status seen.id x h)))))
  ]
]

decided-or :
    (s : Status)
    → (same_status s approved || same_status s rejected) ≡ true
    → (s ≡ approved) ⊎ (s ≡ rejected)
unfolding same_status
decided-or approved h = inl refl
decided-or rejected h = inr refl
decided-or s h = cc

consumable-status :
    (organization approval : ℕ) (x : Approval)
    → is_consumable organization approval x ≡ true
    → (x.status ≡ approved) ⊎ (x.status ≡ rejected)
consumable-status organization approval x h =
    decided-or x.status (&&-inv (is_approval organization approval x) _ h).1

pub consume-Effect :
    (organization approval now : ℕ) (store : Store)
    → Effect store.approvals (consume organization approval now store).1.approvals
unfolding consume
consume-Effect organization approval now store =
    elim (Option-cases (find_row (is_consumable organization approval) store.approvals)) [
      | inl missing ↦ rw (missing, consume) (unmoved store.approvals)
      | inr (row, found) ↦
          rw (found, consume)
            (moved (
              Pointwise-update (is_consumable organization approval) (consumed_row now)
                store.approvals
                (λ x h. consumed-Moved now x (consumable-status organization approval x h))))
    ]
