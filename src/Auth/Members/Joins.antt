-- ===== src/Auth/Members/Joins.antt =====
-- What is found in the rows of selections and joins.
use moatazalasrai.Prelude.{
  ◌≡◌, refl, ap, ◌∙◌, Bool, true, false, ◌&&◌, ◌||◌, not, List, [], ◌∷◌, ◌++◌, map, arith,
  Bool-cases, inl, inr, String, str_eq, eq_iff, select_rows, any,
}
use moatazalasrai.Auth.Permissions.{Permission, permission_text}
use moatazalasrai.Auth.Members.{join_rows, distinct, known}

module _ {ℓ} {A : Type ℓ} (q : A → Bool) where
  pub any-append : (xs ys : List A) → any q (xs ++ ys) ≡ (any q xs || any q ys)
  any-append [] ys = refl
  any-append (x ∷ xs) ys = ground (arith, any-append xs ys)

  pub any-select :
      (p : A → Bool) (xs : List A) → any q (select_rows p xs) ≡ any (λ x. p x && q x) xs
  unfolding select_rows
  any-select p [] = refl
  any-select p (x ∷ xs) = ground (arith, any-select p xs)

  pub any-or : (r : A → Bool) (xs : List A) → (any q xs || any r xs) ≡ any (λ x. q x || r x) xs
  any-or r [] = refl
  any-or r (x ∷ xs) = ground (arith, any-or r xs)

  pub any-ext : (r : A → Bool) (xs : List A) → ((x : A) → q x ≡ r x) → any q xs ≡ any r xs
  any-ext r [] e = refl
  any-ext r (x ∷ xs) e = cc (e x, any-ext r xs e)

module _ {ℓ κ} {A : Type ℓ} {B : Type κ} (q : B → Bool) where
  pub any-join : (f : A → List B) (xs : List A) → any q (join_rows f xs) ≡ any (λ x. any q (f x)) xs
  unfolding join_rows
  any-join f [] = refl
  any-join f (x ∷ xs) =
      any-append q (f x) (join_rows f xs) ∙ ap (λ b. any q (f x) || b) (any-join f xs)

  pub any-map : (f : A → B) (xs : List A) → any q (map f xs) ≡ any (λ x. q (f x)) xs
  any-map f [] = refl
  any-map f (x ∷ xs) = cc (any-map f xs)

-- Leaving out what has been seen leaves out nothing that is asked for.
other-text : (t u s : String) → str_eq t u ≡ false → (not (str_eq s t) && str_eq s u) ≡ str_eq s u
other-text t u s h = ground (arith, eq_iff t u, eq_iff s t, eq_iff s u)

pub any-distinct :
    (u : String) (ts : List String) → any (λ s. str_eq s u) (distinct ts) ≡ any (λ s. str_eq s u) ts
unfolding distinct
any-distinct u [] = refl
any-distinct u (t ∷ ts) = elim (Bool-cases (str_eq t u)) [
  | inl same ↦ rw same refl
  | inr other ↦ rw other (
      any-select (λ s. str_eq s u) (λ s. not (str_eq s t)) (distinct ts)
      ∙ any-ext _ (λ s. str_eq s u) (distinct ts) (λ s. other-text t u s other)
      ∙ any-distinct u ts)
]

-- A text that is known stands for the permission with that text.
abbrev pub holds : String → Permission → Bool
holds u q = str_eq (permission_text q) u

known-found :
    (u : String) (ps : List Permission)
    → any (holds u) ps ≡ true
    → any (holds u) (known u ps) ≡ true
unfolding known
known-found u [] h = cc
known-found u (p ∷ ps) h = elim (Bool-cases (str_eq (permission_text p) u)) [
  | inl same ↦ rw (same, same) refl
  | inr other ↦ rw other (known-found u ps (rw other at h))
]

known-other :
    (t u : String) (ps : List Permission) → str_eq t u ≡ false → any (holds u) (known t ps) ≡ false
unfolding known
known-other t u [] h = refl
known-other t u (p ∷ ps) h = elim (Bool-cases (str_eq (permission_text p) t)) [
  | inl same ↦
      rw same
        (ground (arith, eq_iff (permission_text p) t, eq_iff (permission_text p) u, eq_iff t u))
  | inr other ↦ rw other (known-other t u ps h)
]

pub any-known :
    (t u : String) (ps : List Permission)
    → any (holds u) ps ≡ true
    → any (holds u) (known t ps) ≡ str_eq t u
any-known t u ps h = elim (Bool-cases (str_eq t u)) [
  | inl same ↦ rw (same, (eq_iff t u).0 same) (known-found u ps h)
  | inr other ↦ rw other (known-other t u ps other)
]
