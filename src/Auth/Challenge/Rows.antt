-- ===== src/Auth/Challenge/Rows.antt =====
-- What the statements on `mobile_mfa_challenges` make of the row with a given token.
use moatazalasrai.Prelude.{
  any-update, any-append, ℕ, ◌≡◌, inl, inr, refl, sym, ap, subst, Bool, true, false, ◌||◌, List, [],
  ◌∷◌, ◌++◌, some, ◌==◌, if◌then◌else◌, arith, some_inv, length, Bool-cases, find_row, select_rows,
  update_rows, ==_iff, ||-inv,
}
use moatazalasrai.Auth.Challenge.{Challenge, has_id, has_token, is_open}

-- The primary key.
abbrev pub IsKeyed : List Challenge → Type 0
IsKeyed [] = Unit {0}
IsKeyed (c ∷ rows) = (has_id c.id rows ≡ false) × IsKeyed rows

module _ (q : Challenge → Bool) (f : Challenge → Challenge) where
  pub update-IsKeyed :
      (rows : List Challenge)
      → ((c : Challenge) → (f c).id ≡ c.id)
      → IsKeyed rows
      → IsKeyed (update_rows q f rows)
  unfolding update_rows
  update-IsKeyed [] same k = tt
  update-IsKeyed (c ∷ rows) same k =
      let kept : (if q c then f c else c).id ≡ c.id = elim (Bool-cases (q c)) [
        | inl taken ↦ rw taken (same c)
        | inr passed ↦ rw passed refl
      ] in
      (
        rw (kept, any-update (λ x. x.id == c.id) q f rows (λ x. ap (λ i. i == c.id) (same x))) k.0,
        update-IsKeyed rows same k.1,
      )

other_id : (a b : ℕ) → (a == b) ≡ false → (b == a) ≡ false
other_id a b e = ground arith

pub append-IsKeyed :
    (rows : List Challenge) (new : Challenge)
    → has_id new.id rows ≡ false
    → IsKeyed rows
    → IsKeyed (rows ++ new ∷ [])
append-IsKeyed [] new absent k = (refl, tt)
append-IsKeyed (c ∷ rows) new absent k =
    let (different, rest) = ||-inv (c.id == new.id) (has_id new.id rows) absent in
    (
      rw (any-append (λ x. x.id == c.id) rows new, k.0, other_id c.id new.id different) refl,
      append-IsKeyed rows new rest k.1,
    )

itself : (n : ℕ) (b : Bool) → (n == n || b) ≡ true
itself n b = ground arith

or_later : (a b : Bool) → b ≡ true → (a || b) ≡ true
or_later a b e = ground arith

found-id :
    (h : ℕ) (rows : List Challenge) {c : Challenge}
    → find_row (has_token h) rows ≡ some c
    → has_id c.id rows ≡ true
unfolding find_row
found-id h [] e = cc
found-id h (x ∷ rows) {c} e = elim (Bool-cases (x.token_hash == h)) [
  | inl mine ↦
      let same : x ≡ c = some_inv (rw mine at e) in
      subst (λ y. (x.id == y.id || has_id y.id rows) ≡ true) same (itself x.id (has_id x.id rows))
  | inr other ↦ or_later (x.id == c.id) (has_id c.id rows) (found-id h rows {c = c} (rw other at e))
]

none_open :
    (id now : ℕ) (rows : List Challenge)
    → has_id id rows ≡ false
    → select_rows (is_open id now) rows ≡ []
unfolding select_rows
none_open id now [] absent = refl
none_open id now (c ∷ rows) absent = ground (arith, none_open id now rows)

no_rows : (0 == 1) ≡ true → ⊥
no_rows h = cc

head-open :
    (now : ℕ) (x : Challenge) (rows : List Challenge)
    → has_id x.id rows ≡ false
    → (length (select_rows (is_open x.id now) (x ∷ rows)) == 1) ≡ true
    → is_open x.id now x ≡ true
unfolding select_rows
head-open now x rows absent one = elim (Bool-cases (is_open x.id now x)) [
  | inl taken ↦ taken
  | inr passed ↦ absurd (no_rows (rw (passed, none_open x.id now rows absent) at one))
]

different :
    (id : ℕ) (x : Challenge) (rows : List Challenge)
    → has_id x.id rows ≡ false
    → has_id id rows ≡ true
    → (x.id == id) ≡ false
different id x rows absent there = elim (Bool-cases (x.id == id)) [
  | inl same ↦
      let gone : has_id id rows ≡ false =
        subst (λ i. has_id i rows ≡ false) ((==_iff x.id id).0 same) absent in
      absurd (cc (there, gone))
  | inr other ↦ other
]

-- As ids are unique, the one row that an update selects by the id of a row is that row.
pub selected-open :
    (h now : ℕ) (rows : List Challenge) {c : Challenge}
    → IsKeyed rows
    → find_row (has_token h) rows ≡ some c
    → (length (select_rows (is_open c.id now) rows) == 1) ≡ true
    → is_open c.id now c ≡ true
unfolding find_row select_rows
selected-open h now [] k e one = cc
selected-open h now (x ∷ rows) {c} k e one = elim (Bool-cases (x.token_hash == h)) [
  | inl mine ↦
      let same : x ≡ c = some_inv (rw mine at e) in
      subst (λ y. is_open y.id now y ≡ true) same
        (head-open now x rows k.0 (
          subst (λ y. (length (select_rows (is_open y.id now) (x ∷ rows)) == 1) ≡ true) (sym same)
            one))
  | inr other ↦
      let there : find_row (has_token h) rows ≡ some c = rw other at e in
      let unlike : (x.id == c.id) ≡ false =
        different c.id x rows k.0 (found-id h rows {c = c} there) in
      selected-open h now rows {c = c} k.1 there (rw unlike at one)
]
