-- ===== src/Security/Tests.antt =====
-- Rate limits of lib/security/rate-limit.ts at concrete inputs.
mod Codes
use moatazalasrai.Prelude.{ℕ, ◌-◌, ◌≡◌, refl, List, [], ◌∷◌, min}
use moatazalasrai.Security.RateLimit.{RateCall, count_of}
use moatazalasrai.Security.RateLimit.Laws.{calls_to, passed_calls, passed_calls-limit, HaveLimit}

abbrev call_at : ℕ → ℕ → RateCall
call_at key time = record { scope = 1; key_hash = key; limit = 2; window_ms = 60000; now = time }

-- Three calls of key 8, one of key 9 between them, all in the window that starts at 60000.
abbrev minute : List RateCall
minute = call_at 8 60000 ∷ call_at 9 60001 ∷ call_at 8 60500 ∷ call_at 8 119999 ∷ []

minute-HaveLimit : HaveLimit 1 8 60000 2 minute
minute-HaveLimit = (λ _. refl, (λ _. refl, (λ _. refl, (λ _. refl, tt))))

passed_calls-limit_example :
    passed_calls 1 8 60000 minute [] ≡ min (calls_to 1 8 60000 minute) (2 - count_of 1 8 60000 [])
passed_calls-limit_example = passed_calls-limit 1 8 60000 2 minute [] minute-HaveLimit
