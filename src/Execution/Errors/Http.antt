-- ===== src/Execution/Errors/Http.antt =====
-- `executionErrorHttpStatus` of lib/execution/errors.ts.
use moatazalasrai.Prelude.{
  ◌≡◌, Bool, true, false, ◌||◌, ◌↔◌, ◌⊎◌, String, none, some, ℕ, str_eq, if◌then◌else◌, arith,
}
use text.Mathlib.Text.{find?}
use moatazalasrai.Execution.Errors.{
  ErrorCode, code_text, not_found, artifact_not_found, kernel_disabled, network_denied,
  input_not_allowed, invalid_transition, terminal, lease_unavailable, runner_timeout,
}

-- `text.includes(part)`
abbrev includes : String → String → Bool
includes text part = elim (find? text part) [ none ↦ false | some _ ↦ true ]

abbrev is_code : ErrorCode → ErrorCode → Bool
is_code a b = str_eq (code_text a) (code_text b)

unfoldable pub http_status : ErrorCode → ℕ
unfolding code_text
http_status c =
    if is_code c not_found || is_code c artifact_not_found
    then 404
    else if is_code c kernel_disabled
    then 404
    else if includes (code_text c) "FORBIDDEN" || is_code c network_denied
    then 403
    else if includes (code_text c) "INVALID" || is_code c input_not_allowed
    then 422
    else if includes (code_text c) "LIMIT"
    then 429
    else if is_code c invalid_transition || is_code c terminal || is_code c lease_unavailable
    then 409
    else if is_code c runner_timeout
    then 504
    else 502

-- Exactly two codes are answered by 409 (conflict): a finished execution and a held lease. The
-- code of a refused transition, which the source lists beside them, is answered by 422, since its
-- text contains "INVALID" and that test comes first.
pub http_status-conflict :
    (c : ErrorCode)
    → ((http_status c ≡ 409) ↔ ((c ≡ terminal) ⊎ (c ≡ lease_unavailable)))
      × (http_status invalid_transition ≡ 422)
unfolding http_status
http_status-conflict terminal = ground arith
http_status-conflict _ = ground arith
