-- ===== src/AiSdk/Approvals/Refines.antt =====
-- Every sequence of operations on approvals refines their state machine.
use moatazalasrai.Prelude.{◌≡◌, ◌⊎◌, inl, inr, sym, ◌∙◌, subst, List, [], ◌∷◌, ◌++◌}
use moatazalasrai.AiSdk.Approvals.{Status, pending, Approval, Store}
use moatazalasrai.AiSdk.Approvals.Life.{
  approve, reject, consume_approved, consume_rejected, expire, Life, here, next, Life-trans, Moved,
  Moved-refl, Pointwise, Effect, moved, added,
}
use moatazalasrai.AiSdk.Approvals.Ops.{Op, apply_op, apply_ops, apply_op-Effect}

Life-pending : {s t : Status} → Life s t → t ≡ pending → s ≡ pending
Life-pending here h = h
Life-pending (next life approve) h = cc
Life-pending (next life reject) h = cc
Life-pending (next life consume_approved) h = cc
Life-pending (next life consume_rejected) h = cc
Life-pending (next life (expire s)) h = cc

decision_trans :
    {x y z : Approval}
    → Moved x y
    → Moved y z
    → (x.status ≡ pending) ⊎ ((z.decided_by ≡ x.decided_by) × (z.decided_at ≡ x.decided_at))
decision_trans {x} {y} {z} a b = elim a.decision [
  | inl open_still ↦ inl open_still
  | inr (user, time) ↦ elim b.decision [
    | inl back ↦ inl (Life-pending a.life back)
    | inr (user', time') ↦ inr (user' ∙ user, time' ∙ time)
  ]
]

Moved-trans : {x y z : Approval} → Moved x y → Moved y z → Moved x z
Moved-trans a b = record {
  same_id = b.same_id ∙ a.same_id;
  same_organization = b.same_organization ∙ a.same_organization;
  same_approval_id = b.same_approval_id ∙ a.same_approval_id;
  same_expiry = b.same_expiry ∙ a.same_expiry;
  life = Life-trans a.life b.life;
  decision = decision_trans a b;
}

-- Every row has moved along the state machine, and every row that is new started as pending.
abbrev pub Refines : List Approval → List Approval → Type 0
Refines [] [] = Unit {0}
Refines [] (y ∷ ys) = Life pending y.status × Refines [] ys
Refines (x ∷ xs) [] = ⊥
Refines (x ∷ xs) (y ∷ ys) = Moved x y × Refines xs ys

Refines-refl : (xs : List Approval) → Refines xs xs
Refines-refl [] = tt
Refines-refl (x ∷ xs) = (Moved-refl x, Refines-refl xs)

Refines-trans : (xs ys zs : List Approval) → Refines xs ys → Refines ys zs → Refines xs zs
Refines-trans [] [] zs a b = b
Refines-trans [] (y ∷ ys) [] a b = absurd b
Refines-trans [] (y ∷ ys) (z ∷ zs) a b = (Life-trans a.0 b.0.life, Refines-trans [] ys zs a.1 b.1)
Refines-trans (x ∷ xs) [] zs a b = absurd a
Refines-trans (x ∷ xs) (y ∷ ys) [] a b = absurd b
Refines-trans (x ∷ xs) (y ∷ ys) (z ∷ zs) a b = (Moved-trans a.0 b.0, Refines-trans xs ys zs a.1 b.1)

Pointwise-Refines : (xs ys : List Approval) → Pointwise xs ys → Refines xs ys
Pointwise-Refines [] [] h = tt
Pointwise-Refines [] (y ∷ ys) h = absurd h
Pointwise-Refines (x ∷ xs) [] h = absurd h
Pointwise-Refines (x ∷ xs) (y ∷ ys) h = (h.0, Pointwise-Refines xs ys h.1)

append-Refines :
    (xs : List Approval) (new : Approval) → new.status ≡ pending → Refines xs (xs ++ new ∷ [])
append-Refines [] new h = (subst (λ s. Life pending s) (sym h) here, tt)
append-Refines (x ∷ xs) new h = (Moved-refl x, append-Refines xs new h)

Effect-Refines : {xs ys : List Approval} → Effect xs ys → Refines xs ys
Effect-Refines {xs} {ys} (moved steps) = Pointwise-Refines xs ys steps
Effect-Refines {xs} {ys} (added new fresh free e) =
    subst (λ zs. Refines xs zs) (sym e) (append-Refines xs new fresh)

-- Whatever the operations are, in whatever order and by whomever, and whenever the row of a decision
-- was read: every approval lives by the state machine (pending, then approved or rejected, then
-- consumed, and expired from anywhere), keeps its identity and its time, and once it is not pending
-- keeps who decided it and when; and every approval that is new started as pending.
pub apply_ops-Refines :
    (ops : List Op) (store : Store) → Refines store.approvals (apply_ops ops store).approvals
unfolding apply_ops
apply_ops-Refines [] store = Refines-refl store.approvals
apply_ops-Refines (op ∷ ops) store =
    Refines-trans store.approvals (apply_op op store).approvals
      (apply_ops ops (apply_op op store)).approvals (Effect-Refines (apply_op-Effect op store))
      (apply_ops-Refines ops (apply_op op store))
