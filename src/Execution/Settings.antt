-- ===== src/Execution/Settings.antt =====
-- Numbers that the kernel reads from the environment: lib/execution/worker-runtime.ts,
-- credential-grant-service.ts, service.ts and quota-service.ts.
use moatazalasrai.Prelude.{ℕ, ◌≤◌, ◌&&◌, leb, ltb, if◌then◌else◌, min, max, arith}

-- `Number(process.env.NAME ?? fallback)`: not set; no safe integer; a negative one; any other.
pub data Setting : Type 0 where
  unset not_integer negative : Setting
  value : ℕ → Setting

-- `Number.isSafeInteger(value) ? Math.min(Math.max(value, low), high) : fallback`
unfoldable pub clamp : ℕ → ℕ → ℕ → Setting → ℕ
clamp low high fallback unset = min (max fallback low) high
clamp low high fallback not_integer = fallback
clamp low high fallback negative = low
clamp low high fallback (value n) = min (max n low) high

unfoldable pub lease_ttl_seconds : Setting → ℕ
unfolding clamp
lease_ttl_seconds s = clamp 30 300 60 s

unfoldable pub reconcile_grace_seconds : Setting → ℕ
unfolding clamp
reconcile_grace_seconds s = clamp 60 1800 120 s

unfoldable pub grant_ttl_seconds : Setting → ℕ
unfolding clamp
grant_ttl_seconds s = clamp 30 900 300 s

-- `integer` of service.ts: a value out of range gives the fallback.
unfoldable pub in_range : ℕ → ℕ → ℕ → Setting → ℕ
in_range fallback low high (value n) = if leb low n && leb n high then n else fallback
in_range fallback low high _ = fallback

-- `integer` of quota-service.ts: a positive value, or the fallback.
unfoldable pub positive : ℕ → Setting → ℕ
positive fallback (value n) = if ltb 0 n then n else fallback
positive fallback _ = fallback

-- Whatever the environment holds, a lease lasts from half a minute to five minutes, a grant from
-- half a minute to fifteen, and a job is left alone for one to thirty minutes.
pub settings_bounds :
    (s : Setting)
    → ((30 ≤ lease_ttl_seconds s) × (lease_ttl_seconds s ≤ 300))
      × ((30 ≤ grant_ttl_seconds s) × (grant_ttl_seconds s ≤ 900))
      × ((60 ≤ reconcile_grace_seconds s) × (reconcile_grace_seconds s ≤ 1800))
unfolding lease_ttl_seconds grant_ttl_seconds reconcile_grace_seconds
settings_bounds unset = omega arith
settings_bounds not_integer = omega arith
settings_bounds negative = omega arith
settings_bounds (value n) = omega arith
