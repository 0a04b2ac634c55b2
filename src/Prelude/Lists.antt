-- ===== src/Prelude/Lists.antt =====
-- Lists measured by native numbers, tables as lists of rows, and predicates on lists.
use Prim.Native.Nat.{ℕ, zero, suc, max}
use mathlib.Core.Path.{◌≡◌, refl}
use mathlib.Core.Bool.{Bool, true, false, ◌||◌}
use mathlib.Core.List.{List, [], ◌∷◌, ◌++◌}
use mathlib.Core.Logic.{inl, inr}
use mathlib.Core.Option.{Option, none, some}
use native.Mathlib.Omega.{arith}
use moatazalasrai.Prelude.Tests.{if◌then◌else◌, Bool-cases}

module _ {ℓ} {A : Type ℓ} where
  abbrev pub length : List A → ℕ
  length [] = 0
  length (x ∷ xs) = suc (length xs)

  abbrev pub take : ℕ → List A → List A
  take zero xs = []
  take (suc n) [] = []
  take (suc n) (x ∷ xs) = x ∷ take n xs

  -- `array.some`
  abbrev pub any : (A → Bool) → List A → Bool
  any p [] = false
  any p (x ∷ xs) = p x || any p xs

  -- The first row that a `where` condition selects.
  unfoldable pub find_row : (A → Bool) → List A → Option A
  find_row p [] = none
  find_row p (x ∷ xs) = if p x then some x else find_row p xs

  -- Every row that a `where` condition selects, in order.
  unfoldable pub select_rows : (A → Bool) → List A → List A
  select_rows p [] = []
  select_rows p (x ∷ xs) = let rest = select_rows p xs in if p x then x ∷ rest else rest

  -- `update … set … where …`
  unfoldable pub update_rows : (A → Bool) → (A → A) → List A → List A
  update_rows p f [] = []
  update_rows p f (x ∷ xs) = (if p x then f x else x) ∷ update_rows p f xs

  -- `delete … where …`
  unfoldable pub delete_rows : (A → Bool) → List A → List A
  delete_rows p [] = []
  delete_rows p (x ∷ xs) = let rest = delete_rows p xs in if p x then rest else x ∷ rest

  -- `coalesce(max(…), 0)` of a column.
  unfoldable pub max_of : (A → ℕ) → List A → ℕ
  max_of f [] = 0
  max_of f (x ∷ xs) = max (f x) (max_of f xs)

  -- `value ?? fallback`
  abbrev pub or_else : Option A → A → A
  or_else none a = a
  or_else (some b) a = b

module _ {ℓ} {A : Type ℓ} where
  -- A selected row satisfies the condition.
  pub find_row_sound : (p : A → Bool) (xs : List A) {x : A} → find_row p xs ≡ some x → p x ≡ true
  unfolding find_row
  find_row_sound p [] h = cc
  find_row_sound p (y ∷ ys) {x} h = ground (arith, find_row_sound p ys {x = x})

-- A predicate that holds of every element.
abbrev pub All {ℓ κ} : {A : Type ℓ} → (A → Type κ) → List A → Type κ
All P [] = Unit
All P (x ∷ xs) = P x × All P xs

-- `!array.some(p)`
pub any-eq-false {ℓ} :
    {A : Type ℓ} (p : A → Bool) (xs : List A) → any p xs ≡ false → All (λ x. p x ≡ false) xs
any-eq-false p [] h = tt
any-eq-false p (x ∷ xs) h = ground (arith, any-eq-false p xs)

-- Two conditions that agree select the same rows.
pub update_rows-ext {ℓ} :
    {A : Type ℓ} (p q : A → Bool) (f : A → A) (rows : List A)
    → ((x : A) → p x ≡ q x)
    → update_rows p f rows ≡ update_rows q f rows
unfolding update_rows
update_rows-ext p q f [] same = refl
update_rows-ext p q f (x ∷ rows) same = rw (same x, update_rows-ext p q f rows same) refl

-- What an update makes of a row that has been selected.
abbrev pub touched {ℓ} : {A : Type ℓ} → (A → Bool) → (A → A) → Option A → Option A
touched q f none = none
touched q f (some x) = some (if q x then f x else x)

-- An update that keeps a condition, and an insert, do to the row that the condition selects what
-- they do to each.
module _ {ℓ} {A : Type ℓ} (p : A → Bool) where
  pub find_row-update :
      (q : A → Bool) (f : A → A) (rows : List A)
      → ((x : A) → p (f x) ≡ p x)
      → find_row p (update_rows q f rows) ≡ touched q f (find_row p rows)
  unfolding find_row update_rows
  find_row-update q f [] same = refl
  find_row-update q f (x ∷ rows) same = elim (Bool-cases (q x)) [
    | inl taken ↦ elim (Bool-cases (p x)) [
      | inl mine ↦ rw (taken, same x, mine, taken) refl
      | inr other ↦ rw (taken, same x, other) (find_row-update q f rows same)
    ]
    | inr passed ↦ elim (Bool-cases (p x)) [
      | inl mine ↦ rw (passed, mine, passed) refl
      | inr other ↦ rw (passed, other) (find_row-update q f rows same)
    ]
  ]

  pub find_row-append :
      (rows : List A) (new : A)
      → find_row p (rows ++ new ∷ [])
        ≡ elim (find_row p rows) [ some x ↦ some x | none ↦ if p new then some new else none ]
  unfolding find_row
  find_row-append [] new = refl
  find_row-append (x ∷ rows) new = elim (Bool-cases (p x)) [
    | inl mine ↦ rw mine refl
    | inr other ↦ rw other (find_row-append rows new)
  ]

  pub any-update :
      (q : A → Bool) (f : A → A) (rows : List A)
      → ((x : A) → p (f x) ≡ p x)
      → any p (update_rows q f rows) ≡ any p rows
  unfolding update_rows
  any-update q f [] same = refl
  any-update q f (x ∷ rows) same = elim (Bool-cases (q x)) [
    | inl taken ↦ rw (taken, same x, any-update q f rows same) refl
    | inr passed ↦ rw (passed, any-update q f rows same) refl
  ]

  pub any-append : (rows : List A) (new : A) → any p (rows ++ new ∷ []) ≡ (any p rows || p new)
  any-append [] new = ground arith
  any-append (x ∷ rows) new = ground (arith, any-append rows new)
