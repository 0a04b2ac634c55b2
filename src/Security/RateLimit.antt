-- ===== src/Security/RateLimit.antt =====
-- `enforceRateLimit` of lib/security/rate-limit.ts. A scope and the hash of a key are numbers; a
-- time is a number of milliseconds. The statement is committed before the check, so a call that is
-- refused is counted too.
pub mod Laws
use moatazalasrai.Prelude.{
  ℕ, ◌+◌, ◌-◌, ◌*◌, ◌/◌, Bool, true, false, ◌&&◌, List, [], ◌∷◌, ◌++◌, Option, none, some, ◌==◌,
  ltb, max, if◌then◌else◌, find_row, update_rows,
}

-- `rateLimits`
pub record RateRow : Type 0 where
  pub scope : ℕ
  pub key_hash : ℕ
  pub window_started_at : ℕ
  pub count : ℕ
  pub expires_at : ℕ

pub record RateCall : Type 0 where
  pub scope : ℕ
  pub key_hash : ℕ
  pub limit : ℕ
  pub window_ms : ℕ
  pub now : ℕ

-- `Math.floor(now / windowMs) * windowMs`
unfoldable pub window_start : RateCall → ℕ
window_start c = c.now / c.window_ms * c.window_ms

-- The target of the conflict.
abbrev pub is_slot : ℕ → ℕ → ℕ → RateRow → Bool
is_slot scope key_hash started r =
    r.scope == scope && r.key_hash == key_hash && r.window_started_at == started

abbrev pub raise : ℕ → RateRow → RateRow
raise expires r = record r { count = r.count + 1; expires_at = expires }

-- `insert … on conflict do update set count = count + 1`
unfoldable pub count_call : ℕ → ℕ → ℕ → ℕ → List RateRow → List RateRow
count_call scope key_hash started expires rows =
    elim (find_row (is_slot scope key_hash started) rows) [
      | none ↦
          rows
          ++ record {
            scope = scope;
            key_hash = key_hash;
            window_started_at = started;
            count = 1;
            expires_at = expires;
          }
            ∷ []
      | some _ ↦ update_rows (is_slot scope key_hash started) (raise expires) rows
    ]

abbrev count_in_row : Option RateRow → ℕ
count_in_row none = 0
count_in_row (some r) = r.count

-- The `count` of a slot: none yet is 0.
unfoldable pub count_of : ℕ → ℕ → ℕ → List RateRow → ℕ
count_of scope key_hash started rows = count_in_row (find_row (is_slot scope key_hash started) rows)

-- What a call is answered: let through, or refused with the seconds to wait.
pub data Verdict : Type 0 where
  passed : Verdict
  limited : ℕ → Verdict

unfoldable pub enforce_rate_limit : RateCall → List RateRow → Verdict × List RateRow
unfolding window_start count_call count_of
enforce_rate_limit c rows =
    let started = window_start c in
    let after = count_call c.scope c.key_hash started (started + c.window_ms * 2) rows in
    (
      if ltb c.limit (count_of c.scope c.key_hash started after)
          then limited (max 1 ((started + c.window_ms - c.now + 999) / 1000))
          else passed,
      after,
    )
