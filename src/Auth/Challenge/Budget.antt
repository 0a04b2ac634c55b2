-- ===== src/Auth/Challenge/Budget.antt =====
-- The wrong codes and the logins that a challenge has left, and what a verification takes of them.
use moatazalasrai.Prelude.{
  touched, find_row-update, ℕ, ◌+◌, ◌-◌, ◌≤◌, ◌≡◌, inl, inr, refl, subst, Bool, true, false, ◌&&◌,
  List, Option, none, some, ◌==◌, ltb, if◌then◌else◌, arith, Bool-cases, find_row, ==_iff,
}
use moatazalasrai.Api.{Response}
use moatazalasrai.Auth.Challenge.{
  Challenge, Login, max_attempts, has_token, is_used, of_id, count_attempt, use_row, is_unused,
  is_open,
}
use moatazalasrai.Auth.Challenge.Rows.{IsKeyed, update-IsKeyed, selected-open}
use moatazalasrai.Auth.Challenge.Outcomes.{
  is_login, is_wrong, Outcome, refused, wrong, left, entered,
}

abbrev pub tally : Bool → ℕ
tally b = if b then 1 else 0

-- The wrong codes that are left, and the logins.
abbrev pub budget : Option Challenge → ℕ
budget none = max_attempts
budget (some c) = max_attempts - c.attempts

abbrev pub tickets : Option Challenge → ℕ
tickets none = 1
tickets (some c) = if is_used c.used_at then 0 else 1

-- No update gives any back.
module _ (q : Challenge → Bool) where
  counted-budget : (r : Option Challenge) → budget (touched q count_attempt r) ≤ budget r
  counted-budget none = omega arith
  counted-budget (some c) = ground arith

  counted-tickets : (r : Option Challenge) → tickets (touched q count_attempt r) ≤ tickets r
  counted-tickets none = omega arith
  counted-tickets (some c) = ground arith

  used-budget : (now : ℕ) (r : Option Challenge) → budget (touched q (use_row now) r) ≤ budget r
  used-budget now none = omega arith
  used-budget now (some c) = ground arith

  used-tickets : (now : ℕ) (r : Option Challenge) → tickets (touched q (use_row now) r) ≤ tickets r
  used-tickets now none = omega arith
  used-tickets now (some c) = ground arith

count_attempt-budget :
    (c : Challenge)
    → ltb c.attempts max_attempts ≡ true
    → 1 + budget (touched (of_id c.id) count_attempt (some c)) ≤ budget (some c)
count_attempt-budget c few = ground arith

use_row-tickets :
    (c : Challenge) (now : ℕ)
    → is_used c.used_at ≡ false
    → is_open c.id now c ≡ true
    → 1 + tickets (touched (is_open c.id now) (use_row now) (some c)) ≤ tickets (some c)
use_row-tickets c now unused taken = rw (taken, unused) (omega arith)

no_hit : (b c : Bool) → c ≡ false → tally (b && c) ≡ 0
no_hit b c e = ground arith

at_most_one : (b : Bool) → tally b ≤ 1
at_most_one b = ground arith

module _ (h h' now : ℕ) (before after : List Challenge) (answer : Response Login) where
  pub spends_budget :
      Outcome h' now before answer after
      → tally (h' == h && is_wrong answer) + budget (find_row (has_token h) after)
        ≤ budget (find_row (has_token h) before)
  spends_budget (refused no_login right same) = rw (same, right) (ground arith)
  spends_budget (left c no_login right moved) =
      rw (moved, find_row-update (has_token h) (is_unused c.id) (use_row now) before (λ c. refl))
        (omega (
          arith,
          no_hit (h' == h) (is_wrong answer) right,
          used-budget (is_unused c.id) now (find_row (has_token h) before),
        ))
  spends_budget (entered c found unused one right moved) =
      rw (moved, find_row-update (has_token h) (is_open c.id now) (use_row now) before (λ c. refl))
        (omega (
          arith,
          no_hit (h' == h) (is_wrong answer) right,
          used-budget (is_open c.id now) now (find_row (has_token h) before),
        ))
  spends_budget (wrong c found few no_login moved) = elim (Bool-cases (h' == h)) [
    | inl mine ↦
        let here : find_row (has_token h) before ≡ some c =
          subst (λ t. find_row (has_token t) before ≡ some c) ((==_iff h' h).0 mine) found in
        rw
          (moved, find_row-update (has_token h) (of_id c.id) count_attempt before (λ c. refl), here)
          (omega (arith, at_most_one (h' == h && is_wrong answer), count_attempt-budget c few))
    | inr theirs ↦
        rw
          (
            moved,
            find_row-update (has_token h) (of_id c.id) count_attempt before (λ c. refl),
            theirs,
          )
          (omega (arith, counted-budget (of_id c.id) (find_row (has_token h) before)))
  ]

  pub spends_tickets :
      IsKeyed before
      → Outcome h' now before answer after
      → tally (h' == h && is_login answer) + tickets (find_row (has_token h) after)
        ≤ tickets (find_row (has_token h) before)
  spends_tickets k (refused no_login right same) = rw (same, no_login) (ground arith)
  spends_tickets k (left c no_login right moved) =
      rw (moved, find_row-update (has_token h) (is_unused c.id) (use_row now) before (λ c. refl))
        (omega (
          arith,
          no_hit (h' == h) (is_login answer) no_login,
          used-tickets (is_unused c.id) now (find_row (has_token h) before),
        ))
  spends_tickets k (wrong c found few no_login moved) =
      rw (moved, find_row-update (has_token h) (of_id c.id) count_attempt before (λ c. refl))
        (omega (
          arith,
          no_hit (h' == h) (is_login answer) no_login,
          counted-tickets (of_id c.id) (find_row (has_token h) before),
        ))
  spends_tickets k (entered c found unused one right moved) = elim (Bool-cases (h' == h)) [
    | inl mine ↦
        let here : find_row (has_token h) before ≡ some c =
          subst (λ t. find_row (has_token t) before ≡ some c) ((==_iff h' h).0 mine) found in
        rw
          (
            moved,
            find_row-update (has_token h) (is_open c.id now) (use_row now) before (λ c. refl),
            here,
          )
          (omega (
            arith,
            at_most_one (h' == h && is_login answer),
            use_row-tickets c now unused (selected-open h' now before k found one),
          ))
    | inr theirs ↦
        rw
          (
            moved,
            find_row-update (has_token h) (is_open c.id now) (use_row now) before (λ c. refl),
            theirs,
          )
          (omega (arith, used-tickets (is_open c.id now) now (find_row (has_token h) before)))
  ]

  pub keeps_keys : IsKeyed before → Outcome h' now before answer after → IsKeyed after
  keeps_keys k (refused no_login right same) = rw same k
  keeps_keys k (left c no_login right moved) =
      rw moved (update-IsKeyed (is_unused c.id) (use_row now) before (λ c. refl) k)
  keeps_keys k (wrong c found few no_login moved) =
      rw moved (update-IsKeyed (of_id c.id) count_attempt before (λ c. refl) k)
  keeps_keys k (entered c found unused one right moved) =
      rw moved (update-IsKeyed (is_open c.id now) (use_row now) before (λ c. refl) k)

pub new_row :
    (new : Challenge) (mine : Bool)
    → (budget (if mine then some new else none) ≤ max_attempts)
      × (tickets (if mine then some new else none) ≤ 1)
new_row new true = (omega arith, ground arith)
new_row new false = (omega arith, omega arith)

pub budget-limit : (r : Option Challenge) → budget r ≤ 5
budget-limit none = omega arith
budget-limit (some c) = omega arith

pub tickets-limit : (r : Option Challenge) → tickets r ≤ 1
tickets-limit none = omega arith
tickets-limit (some c) = ground arith
