-- ===== src/AiSdk/Approvals/Unique.antt =====
-- The approval ids of the table stay distinct.
use moatazalasrai.Prelude.{
  ℕ, ◌≡◌, refl, sym, ap, ◌∙◌, subst, Bool, false, List, [], ◌∷◌, ◌++◌, ◌==◌, arith, any, ||-inv,
}
use moatazalasrai.AiSdk.Approvals.{Approval, Store, clashes}
use moatazalasrai.AiSdk.Approvals.Life.{Pointwise, Effect, moved, added}
use moatazalasrai.AiSdk.Approvals.Ops.{Op, apply_op, apply_ops, apply_op-Effect}

-- No two rows have the same approval id.
abbrev pub has_id : ℕ → List Approval → Bool
has_id approval = any λ row. row.approval_id == approval

abbrev pub IsUnique : List Approval → Type 0
IsUnique [] = Unit {0}
IsUnique (x ∷ xs) = (has_id x.approval_id xs ≡ false) × IsUnique xs

pub has_id-Pointwise :
    (approval : ℕ) (xs ys : List Approval)
    → Pointwise xs ys
    → has_id approval ys ≡ has_id approval xs
has_id-Pointwise approval [] [] h = refl
has_id-Pointwise approval [] (y ∷ ys) h = absurd h
has_id-Pointwise approval (x ∷ xs) [] h = absurd h
has_id-Pointwise approval (x ∷ xs) (y ∷ ys) h =
    cc (h.0.same_approval_id, has_id-Pointwise approval xs ys h.1)

Pointwise-IsUnique : (xs ys : List Approval) → Pointwise xs ys → IsUnique xs → IsUnique ys
Pointwise-IsUnique [] [] h u = tt
Pointwise-IsUnique [] (y ∷ ys) h u = absurd h
Pointwise-IsUnique (x ∷ xs) [] h u = absurd h
Pointwise-IsUnique (x ∷ xs) (y ∷ ys) h u = (
  ap (λ a. has_id a ys) h.0.same_approval_id ∙ has_id-Pointwise x.approval_id xs ys h.1 ∙ u.0,
  Pointwise-IsUnique xs ys h.1 u.1,
)

-- A row that clashes with none has an approval id of its own.
pub clashes-approval_id :
    (new x : Approval) → clashes new x ≡ false → (x.approval_id == new.approval_id) ≡ false
clashes-approval_id new x h = ground arith

has_id-append :
    (approval : ℕ) (xs : List Approval) (new : Approval)
    → has_id approval xs ≡ false
    → (new.approval_id == approval) ≡ false
    → has_id approval (xs ++ new ∷ []) ≡ false
has_id-append approval [] new h e = rw e refl
has_id-append approval (x ∷ xs) new h e =
    let (here_free, rest_free) = ||-inv (x.approval_id == approval) (has_id approval xs) h in
    rw (here_free, has_id-append approval xs new rest_free e) refl

==_sym_false : (a b : ℕ) → (a == b) ≡ false → (b == a) ≡ false
==_sym_false a b h = ground arith

append-IsUnique :
    (xs : List Approval) (new : Approval)
    → any (clashes new) xs ≡ false
    → IsUnique xs
    → IsUnique (xs ++ new ∷ [])
append-IsUnique [] new h u = (refl, tt)
append-IsUnique (x ∷ xs) new h u =
    let (here_free, rest_free) = ||-inv (clashes new x) (any (clashes new) xs) h in
    (
      has_id-append x.approval_id xs new u.0
          (==_sym_false x.approval_id new.approval_id (clashes-approval_id new x here_free)),
      append-IsUnique xs new rest_free u.1,
    )

Effect-IsUnique : {xs ys : List Approval} → Effect xs ys → IsUnique xs → IsUnique ys
Effect-IsUnique {xs} {ys} (moved steps) u = Pointwise-IsUnique xs ys steps u
Effect-IsUnique {xs} {ys} (added new fresh free e) u =
    subst IsUnique (sym e) (append-IsUnique xs new free u)

pub apply_ops-IsUnique :
    (ops : List Op) (store : Store)
    → IsUnique store.approvals
    → IsUnique (apply_ops ops store).approvals
unfolding apply_ops
apply_ops-IsUnique [] store u = u
apply_ops-IsUnique (op ∷ ops) store u =
    apply_ops-IsUnique ops (apply_op op store) (Effect-IsUnique (apply_op-Effect op store) u)
