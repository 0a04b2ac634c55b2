-- ===== src/Security/RateLimit/Laws.antt =====
-- How many calls of a key are let through in a window.
use moatazalasrai.Prelude.{
  ℕ, suc, ◌+◌, ◌-◌, ◌*◌, ◌≡◌, ◌≢◌, ◌⊎◌, inl, inr, refl, sym, subst, Bool, true, false, ◌&&◌, List,
  [], ◌∷◌, ◌++◌, none, some, ◌==◌, leb, min, if◌then◌else◌, find_row, update_rows, All, arith,
  Option-cases, Bool-cases, some_inv, ap,
}
use moatazalasrai.Security.RateLimit.{
  RateRow, RateCall, window_start, is_slot, raise, count_call, count_in_row, count_of, Verdict,
  passed, limited, enforce_rate_limit,
}

find_row-raise :
    (s k w e : ℕ) (rows : List RateRow) (r : RateRow)
    → find_row (is_slot s k w) rows ≡ some r
    → find_row (is_slot s k w) (update_rows (is_slot s k w) (raise e) rows) ≡ some (raise e r)
unfolding find_row update_rows
find_row-raise s k w e [] r h = absurd (cc h)
find_row-raise s k w e (x ∷ rows) r h = elim (Bool-cases (is_slot s k w x)) [
  | inl hit ↦
      let same_row : x ≡ r = some_inv (rw hit at h) in
      subst
        (λ y.
          find_row (is_slot s k w) (update_rows (is_slot s k w) (raise e) (x ∷ rows))
          ≡ some (raise e y))
        same_row (simp hit)
  | inr miss ↦ simp miss (find_row-raise s k w e rows r (rw miss at h))
]

find_row-new :
    (s k w : ℕ) (rows : List RateRow) (r : RateRow)
    → is_slot s k w r ≡ true
    → find_row (is_slot s k w) rows ≡ none
    → find_row (is_slot s k w) (rows ++ r ∷ []) ≡ some r
unfolding find_row
find_row-new s k w [] r own h = rw own refl
find_row-new s k w (x ∷ rows) r own h = elim (Bool-cases (is_slot s k w x)) [
  | inl hit ↦ absurd (cc (rw hit at h))
  | inr miss ↦ rw miss (find_row-new s k w rows r own (rw miss at h))
]

slot_refl : (s k w : ℕ) → (s == s && k == k && w == w) ≡ true
slot_refl s k w = ground arith

-- A call counts one in its own slot,
count_call-same :
    (s k w e : ℕ) (rows : List RateRow)
    → count_of s k w (count_call s k w e rows) ≡ suc (count_of s k w rows)
unfolding count_of count_call
count_call-same s k w e rows = elim (Option-cases (find_row (is_slot s k w) rows)) [
  | inl free ↦
      rw (free, count_call) (ap count_in_row (find_row-new s k w rows _ (slot_refl s k w) free))
  | inr (r, taken) ↦
      rw (taken, count_call) (rw (find_row-raise s k w e rows r taken, count_of) (omega arith))
]

abbrev IsOther : ℕ → ℕ → ℕ → ℕ → ℕ → ℕ → Type 0
IsOther s k w t l v = (s ≢ t) ⊎ (k ≢ l) ⊎ (w ≢ v)

find_row-raise_other :
    (s k w t l v e : ℕ) (rows : List RateRow)
    → IsOther s k w t l v
    → count_in_row (find_row (is_slot t l v) (update_rows (is_slot s k w) (raise e) rows))
      ≡ count_in_row (find_row (is_slot t l v) rows)
unfolding find_row update_rows
find_row-raise_other s k w t l v e [] o = refl
find_row-raise_other s k w t l v e (x ∷ rows) o =
    ground (arith, find_row-raise_other s k w t l v e rows o)

find_row-new_other :
    (t l v : ℕ) (rows : List RateRow) (r : RateRow)
    → is_slot t l v r ≡ false
    → find_row (is_slot t l v) (rows ++ r ∷ []) ≡ find_row (is_slot t l v) rows
unfolding find_row
find_row-new_other t l v [] r foreign = rw foreign refl
find_row-new_other t l v (x ∷ rows) r foreign = rw (find_row-new_other t l v rows r foreign) refl

-- and nothing in any other.
count_call-other :
    (s k w t l v e : ℕ) (rows : List RateRow)
    → IsOther s k w t l v
    → count_of t l v (count_call s k w e rows) ≡ count_of t l v rows
unfolding count_of count_call
count_call-other s k w t l v e rows o = elim (Option-cases (find_row (is_slot s k w) rows)) [
  | inl free ↦
      rw (free, count_call) (ap count_in_row (find_row-new_other t l v rows _ (ground arith)))
  | inr (r, taken) ↦ rw (taken, count_call) (find_row-raise_other s k w t l v e rows o)
]

-- The calls of one slot.
abbrev pub matches : ℕ → ℕ → ℕ → RateCall → Bool
matches s k w c = c.scope == s && c.key_hash == k && window_start c == w

abbrev pub is_passed : Verdict → Bool
is_passed passed = true
is_passed (limited n) = false

abbrev pub calls_to : ℕ → ℕ → ℕ → List RateCall → ℕ
calls_to s k w [] = 0
calls_to s k w (c ∷ cs) = if matches s k w c then suc (calls_to s k w cs) else calls_to s k w cs

-- How many calls of a slot are let through when calls are made one after the other.
unfoldable pub passed_calls : ℕ → ℕ → ℕ → List RateCall → List RateRow → ℕ
passed_calls s k w [] rows = 0
passed_calls s k w (c ∷ cs) rows =
    let rest = passed_calls s k w cs (enforce_rate_limit c rows).1 in
    if matches s k w c && is_passed (enforce_rate_limit c rows).0 then suc rest else rest

-- All calls of a slot have the limit.
abbrev pub HaveLimit : ℕ → ℕ → ℕ → ℕ → List RateCall → Type 0
HaveLimit s k w limit cs = All (λ c. matches s k w c ≡ true → c.limit ≡ limit) cs

enforce-count :
    (c : RateCall) (rows : List RateRow)
    → count_of c.scope c.key_hash (window_start c) (enforce_rate_limit c rows).1
      ≡ suc (count_of c.scope c.key_hash (window_start c) rows)
unfolding enforce_rate_limit
enforce-count c rows = count_call-same c.scope c.key_hash (window_start c) _ rows

enforce-passed :
    (c : RateCall) (rows : List RateRow)
    → is_passed (enforce_rate_limit c rows).0
      ≡ leb (suc (count_of c.scope c.key_hash (window_start c) rows)) c.limit
unfolding enforce_rate_limit
enforce-passed c rows =
    rw (count_call-same c.scope c.key_hash (window_start c) (window_start c + c.window_ms * 2) rows)
      (ground arith)

enforce-other :
    (s k w : ℕ) (c : RateCall) (rows : List RateRow)
    → matches s k w c ≡ false
    → count_of s k w (enforce_rate_limit c rows).1 ≡ count_of s k w rows
unfolding enforce_rate_limit
enforce-other s k w c rows foreign =
    count_call-other c.scope c.key_hash (window_start c) s k w _ rows (ground arith)

matches-eq :
    (s k w : ℕ) (c : RateCall)
    → matches s k w c ≡ true
    → (c.scope ≡ s) × (c.key_hash ≡ k) × (window_start c ≡ w)
matches-eq s k w c h = ground arith

enforce-own :
    (s k w : ℕ) (c : RateCall) (rows : List RateRow)
    → matches s k w c ≡ true
    → (count_of s k w (enforce_rate_limit c rows).1 ≡ suc (count_of s k w rows))
      × (is_passed (enforce_rate_limit c rows).0 ≡ leb (suc (count_of s k w rows)) c.limit)
enforce-own s k w c rows h =
    let (same_scope, same_key, same_window) = matches-eq s k w c h in
    (
      rw (sym same_scope, sym same_key, sym same_window) (enforce-count c rows),
      rw (sym same_scope, sym same_key, sym same_window) (enforce-passed c rows),
    )

min_step :
    (m n limit : ℕ)
    → (if leb (suc n) limit then suc (min m (limit - suc n)) else min m (limit - suc n))
      ≡ min (suc m) (limit - n)
min_step m n limit = ground arith

-- In each window exactly the first calls of a key are let through, as many as the limit leaves after
-- those that are counted already, whatever calls of other keys, scopes and windows come in between.
pub passed_calls-limit :
    (s k w limit : ℕ) (cs : List RateCall) (rows : List RateRow)
    → HaveLimit s k w limit cs
    → passed_calls s k w cs rows ≡ min (calls_to s k w cs) (limit - count_of s k w rows)
unfolding passed_calls
passed_calls-limit s k w limit [] rows h = omega arith
passed_calls-limit s k w limit (c ∷ cs) rows h = elim (Bool-cases (matches s k w c)) [
  | inl own ↦
      let (counted, passing) = enforce-own s k w c rows own in
      let within : is_passed (enforce_rate_limit c rows).0 ≡ leb (suc (count_of s k w rows)) limit =
        subst (λ n. is_passed (enforce_rate_limit c rows).0 ≡ leb (suc (count_of s k w rows)) n)
          (h.0 own) passing in
      rw (own, within, passed_calls-limit s k w limit cs (enforce_rate_limit c rows).1 h.1, counted)
        (min_step (calls_to s k w cs) (count_of s k w rows) limit)
  | inr foreign ↦
      rw
        (
          foreign,
          passed_calls-limit s k w limit cs (enforce_rate_limit c rows).1 h.1,
          enforce-other s k w c rows foreign,
        )
        refl
]
