-- ===== src/AiSdk/Approvals/Once.antt =====
-- No approval is consumed twice.
use moatazalasrai.Prelude.{
  ℕ, ◌≡◌, ◌⊎◌, inl, inr, refl, sym, ◌∙◌, subst, true, false, ◌||◌, List, [], ◌∷◌, ◌++◌, none, some,
  ◌==◌, arith, Bool-cases, Option-cases, any, All, find_row, update_rows, &&-inv, ||-inv, ==_iff,
}
use moatazalasrai.Api.{ok, err, api, tool_approval_not_consumable}
use moatazalasrai.AiSdk.Approvals.{
  Status, pending, approved, rejected, consumed, expired, same_status, Approval, Store, clashes,
}
use moatazalasrai.AiSdk.Approvals.Decisions.{is_approval, is_consumable, consumed_row, consume}
use moatazalasrai.AiSdk.Approvals.Life.{
  approve, reject, consume_approved, consume_rejected, expire, Life, here, next, Pointwise, Effect,
  moved, added,
}
use moatazalasrai.AiSdk.Approvals.Ops.{Op, apply_op, apply_ops, apply_op-Effect}
use moatazalasrai.AiSdk.Approvals.Unique.{
  has_id, IsUnique, has_id-Pointwise, clashes-approval_id, apply_ops-IsUnique,
}

-- The approval with an id is over: it is there, and is consumed or has expired.
abbrev IsOver : Status → Type 0
IsOver s = (s ≡ consumed) ⊎ (s ≡ expired)

over-pending : IsOver pending → ⊥
over-pending (inl h) = cc
over-pending (inr h) = cc

Life-IsOver : {s t : Status} → Life s t → IsOver s → IsOver t
Life-IsOver here h = h
Life-IsOver (next life (expire s)) h = inr refl
Life-IsOver (next life approve) h = absurd (over-pending (Life-IsOver life h))
Life-IsOver (next life reject) h = absurd (over-pending (Life-IsOver life h))
Life-IsOver (next life consume_approved) h = inl refl
Life-IsOver (next life consume_rejected) h = inl refl

abbrev IsSpent : ℕ → List Approval → Type 0
IsSpent approval xs =
    (has_id approval xs ≡ true) × All (λ x. (x.approval_id == approval) ≡ true → IsOver x.status) xs

All-Pointwise :
    (approval : ℕ) (xs ys : List Approval)
    → Pointwise xs ys
    → All (λ x. (x.approval_id == approval) ≡ true → IsOver x.status) xs
    → All (λ x. (x.approval_id == approval) ≡ true → IsOver x.status) ys
All-Pointwise approval [] [] h a = tt
All-Pointwise approval [] (y ∷ ys) h a = absurd h
All-Pointwise approval (x ∷ xs) [] h a = absurd h
All-Pointwise approval (x ∷ xs) (y ∷ ys) h a = (
  λ e. Life-IsOver h.0.life (a.0 (subst (λ i. (i == approval) ≡ true) h.0.same_approval_id e)),
  All-Pointwise approval xs ys h.1 a.1,
)

All-added :
    (approval : ℕ) (xs : List Approval) (new : Approval)
    → (new.approval_id == approval) ≡ false
    → All (λ x. (x.approval_id == approval) ≡ true → IsOver x.status) xs
    → All (λ x. (x.approval_id == approval) ≡ true → IsOver x.status) (xs ++ new ∷ [])
All-added approval [] new e a = (λ h. absurd (cc (h, e)), tt)
All-added approval (x ∷ xs) new e a = (a.0, All-added approval xs new e a.1)

has_id-added :
    (approval : ℕ) (xs : List Approval) (new : Approval)
    → has_id approval xs ≡ true
    → has_id approval (xs ++ new ∷ []) ≡ true
has_id-added approval [] new h = cc
has_id-added approval (x ∷ xs) new h = ground (arith, has_id-added approval xs new)

-- A new row has another id than one that is there.
free-other :
    (approval : ℕ) (xs : List Approval) (new : Approval)
    → any (clashes new) xs ≡ false
    → has_id approval xs ≡ true
    → (new.approval_id == approval) ≡ false
free-other approval [] new h e = cc
free-other approval (x ∷ xs) new h e =
    let (here_free, rest_free) = ||-inv (clashes new x) (any (clashes new) xs) h in
    let other = clashes-approval_id new x here_free in
    elim (Bool-cases (x.approval_id == approval)) [
      | inl same ↦ ground (arith, other, same)
      | inr different ↦ free-other approval xs new rest_free (rw different at e)
    ]

Effect-IsSpent :
    (approval : ℕ) {xs ys : List Approval}
    → Effect xs ys
    → IsSpent approval xs
    → IsSpent approval ys
Effect-IsSpent approval {xs} {ys} (moved steps) (there, over) =
    (has_id-Pointwise approval xs ys steps ∙ there, All-Pointwise approval xs ys steps over)
Effect-IsSpent approval {xs} {ys} (added new fresh free e) (there, over) =
    subst (IsSpent approval) (sym e) (
      has_id-added approval xs new there,
      All-added approval xs new (free-other approval xs new free there) over,
    )

apply_ops-IsSpent :
    (approval : ℕ) (ops : List Op) (store : Store)
    → IsSpent approval store.approvals
    → IsSpent approval (apply_ops ops store).approvals
unfolding apply_ops
apply_ops-IsSpent approval [] store h = h
apply_ops-IsSpent approval (op ∷ ops) store h =
    apply_ops-IsSpent approval ops (apply_op op store)
      (Effect-IsSpent approval (apply_op-Effect op store) h)

-- What consuming does to the rows.
consumable-id :
    (organization approval : ℕ) (x : Approval)
    → is_consumable organization approval x ≡ true
    → (x.approval_id == approval) ≡ true
consumable-id organization approval x h =
    (&&-inv (x.organization == organization) (x.approval_id == approval)
      (&&-inv (is_approval organization approval x) _ h).0).1

found-has_id :
    (organization approval : ℕ) (xs : List Approval) {row : Approval}
    → find_row (is_consumable organization approval) xs ≡ some row
    → has_id approval xs ≡ true
unfolding find_row
found-has_id organization approval [] h = cc
found-has_id organization approval (x ∷ xs) {row} h =
    elim (Bool-cases (is_consumable organization approval x)) [
      | inl taken ↦ rw (consumable-id organization approval x taken) refl
      | inr passed ↦ elim (Bool-cases (x.approval_id == approval)) [
        | inl same ↦ rw same refl
        | inr different ↦
            rw different (found-has_id organization approval xs {row = row} (rw passed at h))
      ]
    ]

absent-IsOver :
    (organization approval now : ℕ) (xs : List Approval)
    → has_id approval xs ≡ false
    → All
        (λ x. (x.approval_id == approval) ≡ true → IsOver x.status)
        (update_rows (is_consumable organization approval) (consumed_row now) xs)
unfolding update_rows
absent-IsOver organization approval now [] h = tt
absent-IsOver organization approval now (x ∷ xs) h =
    let (other, absent) = ||-inv (x.approval_id == approval) (has_id approval xs) h in
    elim (Bool-cases (is_consumable organization approval x)) [
      | inl taken ↦ absurd (cc (consumable-id organization approval x taken, other))
      | inr passed ↦
          rw passed (λ e. absurd (cc (e, other)), absent-IsOver organization approval now xs absent)
    ]

only_here :
    (approval : ℕ) (x : Approval) (xs : List Approval)
    → has_id x.approval_id xs ≡ false
    → (x.approval_id == approval) ≡ true
    → has_id approval xs ≡ false
only_here approval x xs h e =
    subst (λ a. has_id a xs ≡ false) ((==_iff x.approval_id approval).0 e) h

consumed-IsOver :
    (organization approval now : ℕ) (xs : List Approval) {row : Approval}
    → IsUnique xs
    → find_row (is_consumable organization approval) xs ≡ some row
    → All
        (λ x. (x.approval_id == approval) ≡ true → IsOver x.status)
        (update_rows (is_consumable organization approval) (consumed_row now) xs)
unfolding update_rows find_row
consumed-IsOver organization approval now [] u h = cc
consumed-IsOver organization approval now (x ∷ xs) {row} u h =
    elim (Bool-cases (is_consumable organization approval x)) [
      | inl taken ↦ rw taken (
        λ e. inl refl,
        absent-IsOver organization approval now xs
            (only_here approval x xs u.0 (consumable-id organization approval x taken)),
      )
      | inr passed ↦ rw passed (
        λ e. absurd (
            cc (
              found-has_id organization approval xs {row = row} (rw passed at h),
              only_here approval x xs u.0 e,
            )),
        consumed-IsOver organization approval now xs {row = row} u.1 (rw passed at h),
      )
    ]

update-has_id :
    (organization approval now : ℕ) (xs : List Approval)
    → has_id approval (update_rows (is_consumable organization approval) (consumed_row now) xs)
      ≡ has_id approval xs
unfolding update_rows
update-has_id organization approval now [] = refl
update-has_id organization approval now (x ∷ xs) =
    elim (Bool-cases (is_consumable organization approval x)) [
      | inl taken ↦ rw (taken, update-has_id organization approval now xs) refl
      | inr passed ↦ rw (passed, update-has_id organization approval now xs) refl
    ]

not_consumable : {row : Approval} → err (api 409 tool_approval_not_consumable) ≡ ok row → ⊥
not_consumable h = cc

over-decided :
    (s : Status) → IsOver s → (same_status s approved || same_status s rejected) ≡ true → ⊥
unfolding same_status
over-decided s (inl e) h = cc (rw e at h)
over-decided s (inr e) h = cc (rw e at h)

consume-IsSpent :
    (organization approval now : ℕ) (store : Store) {row : Approval}
    → IsUnique store.approvals
    → (consume organization approval now store).0 ≡ ok row
    → IsSpent approval (consume organization approval now store).1.approvals
unfolding consume
consume-IsSpent organization approval now store u h =
    elim (Option-cases (find_row (is_consumable organization approval) store.approvals)) [
      | inl missing ↦ absurd (not_consumable (rw (missing, consume) at h))
      | inr (row, found) ↦
          rw (found, consume)
            (
              update-has_id organization approval now store.approvals
                  ∙ found-has_id organization approval store.approvals {row = row} found,
              consumed-IsOver organization approval now store.approvals {row = row} u found,
            )
    ]

over-consumable :
    (organization approval : ℕ) (x : Approval)
    → ((x.approval_id == approval) ≡ true → IsOver x.status)
    → is_consumable organization approval x ≡ false
unfolding same_status
over-consumable organization approval x h =
    elim (Bool-cases (is_consumable organization approval x)) [
      | inr passed ↦ passed
      | inl taken ↦ absurd (
          over-decided x.status (h (consumable-id organization approval x taken))
            (&&-inv (is_approval organization approval x) _ taken).1)
    ]

none-consumable :
    (organization approval : ℕ) (xs : List Approval)
    → All (λ x. (x.approval_id == approval) ≡ true → IsOver x.status) xs
    → find_row (is_consumable organization approval) xs ≡ none
unfolding find_row
none-consumable organization approval [] h = refl
none-consumable organization approval (x ∷ xs) h =
    rw (over-consumable organization approval x h.0) (none-consumable organization approval xs h.1)

-- An approval that has been consumed is refused to every later call that would consume it, whatever
-- operations came before, from an empty table, and whatever operations come between.
pub consume-once :
    (before between : List Op) (start : Store) (organization approval now later : ℕ)
    {row : Approval}
    → start.approvals ≡ []
    → (consume organization approval now (apply_ops before start)).0 ≡ ok row
    → consume organization approval later
        (apply_ops between (consume organization approval now (apply_ops before start)).1)
      ≡ (
        err (api 409 tool_approval_not_consumable),
        apply_ops between (consume organization approval now (apply_ops before start)).1,
      )
unfolding consume
consume-once before between start organization approval now later {row} empty taken =
    let store = apply_ops before start in
    let unique = apply_ops-IsUnique before start (subst IsUnique (sym empty) tt) in
    let after = (consume organization approval now store).1 in
    let over =
      apply_ops-IsSpent approval between after
        (consume-IsSpent organization approval now store {row = row} unique taken) in
    rw (none-consumable organization approval (apply_ops between after).approvals over.1, consume)
      refl
