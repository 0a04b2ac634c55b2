-- ===== src/Execution/Errors.antt =====
-- lib/execution/errors.ts: the error codes, the classification of a thrown value, and the HTTP
-- status of each code. Messages and `details` are not kept.
pub mod Http
use moatazalasrai.Prelude.{
  ◌≡◌, refl, Bool, true, false, ◌||◌, String, if◌then◌else◌, Option, none, some, ℕ,
}

pub data ErrorCode : Type 0 where
  kernel_disabled not_found invalid_transition terminal idempotency_conflict : ErrorCode
  input_not_allowed limit_exceeded output_limit artifact_limit path_invalid : ErrorCode
  network_denied runner_unavailable runner_protocol_error runner_timeout : ErrorCode
  runner_cancel_failed workspace_not_ready lease_unavailable grant_invalid : ErrorCode
  grant_expired grant_replayed credential_forbidden artifact_invalid : ErrorCode
  artifact_not_found database_unavailable : ErrorCode

-- The text of a code, as it is stored and compared.
unfoldable pub code_text : ErrorCode → String
code_text kernel_disabled = "EXECUTION_KERNEL_DISABLED"
code_text not_found = "EXECUTION_NOT_FOUND"
code_text invalid_transition = "EXECUTION_INVALID_TRANSITION"
code_text terminal = "EXECUTION_TERMINAL"
code_text idempotency_conflict = "EXECUTION_IDEMPOTENCY_CONFLICT"
code_text input_not_allowed = "EXECUTION_INPUT_NOT_ALLOWED"
code_text limit_exceeded = "EXECUTION_LIMIT_EXCEEDED"
code_text output_limit = "EXECUTION_OUTPUT_LIMIT"
code_text artifact_limit = "EXECUTION_ARTIFACT_LIMIT"
code_text path_invalid = "EXECUTION_PATH_INVALID"
code_text network_denied = "EXECUTION_NETWORK_DENIED"
code_text runner_unavailable = "EXECUTION_RUNNER_UNAVAILABLE"
code_text runner_protocol_error = "EXECUTION_RUNNER_PROTOCOL_ERROR"
code_text runner_timeout = "EXECUTION_RUNNER_TIMEOUT"
code_text runner_cancel_failed = "EXECUTION_RUNNER_CANCEL_FAILED"
code_text workspace_not_ready = "EXECUTION_WORKSPACE_NOT_READY"
code_text lease_unavailable = "EXECUTION_LEASE_UNAVAILABLE"
code_text grant_invalid = "EXECUTION_GRANT_INVALID"
code_text grant_expired = "EXECUTION_GRANT_EXPIRED"
code_text grant_replayed = "EXECUTION_GRANT_REPLAYED"
code_text credential_forbidden = "EXECUTION_CREDENTIAL_FORBIDDEN"
code_text artifact_invalid = "EXECUTION_ARTIFACT_INVALID"
code_text artifact_not_found = "EXECUTION_ARTIFACT_NOT_FOUND"
code_text database_unavailable = "EXECUTION_DATABASE_UNAVAILABLE"

pub record ExecutionError : Type 0 where
  pub code : ErrorCode
  pub retryable : Bool

-- What code can throw: an `ExecutionError`, an `AbortError`, or any other value.
pub data Thrown : Type 0 where
  execution : ExecutionError → Thrown
  abort : Thrown
  other : Thrown

-- `new ExecutionError(code, message)`: not retryable unless said.
abbrev pub refuse : ErrorCode → Thrown
refuse c = execution (record { code = c; retryable = false })

abbrev pub refuse_retryable : ErrorCode → Thrown
refuse_retryable c = execution (record { code = c; retryable = true })

-- `asExecutionError`
unfoldable pub as_execution_error : Thrown → ExecutionError
as_execution_error (execution e) = e
as_execution_error abort = record { code = runner_timeout; retryable = true }
as_execution_error other = record { code = runner_unavailable; retryable = true }

-- The result of fallible code.
pub data Result {ℓ} (A : Type ℓ) : Type ℓ where
  ok : A → Result A
  err : Thrown → Result A

-- `if (!row) throw e`
abbrev pub need {ℓ} : {A : Type ℓ} → Option A → Thrown → Result A
need none e = err e
need (some row) e = ok row

-- `if (!test) throw e`
abbrev pub guard : Bool → Thrown → Result (Unit {0})
guard test thrown = if test then ok tt else err thrown

infixl 5 ◌>>=◌ ◌>>◌
abbrev pub ◌>>=◌ {ℓ κ} : {A : Type ℓ} {B : Type κ} → Result A → (A → Result B) → Result B
ok a >>= next = next a
err thrown >>= next = err thrown

-- Two steps of which the first gives no value.
abbrev pub ◌>>◌ {ℓ} : {B : Type ℓ} → Result (Unit {0}) → Result B → Result B
first >> next = first >>= λ _. next

-- Inversion of the steps of a successful `do` block.
pub guard-eq-ok {ℓ} :
    {A : Type ℓ} (b : Bool) (e : Thrown) (k : Result A) {a : A}
    → (guard b e >> k) ≡ ok a
    → (b ≡ true) × (k ≡ ok a)
guard-eq-ok true e k h = (refl, h)
guard-eq-ok false e k h = cc

pub >>-eq-ok {ℓ} :
    {A : Type ℓ} (m : Result (Unit {0})) (k : Result A) {a : A}
    → (m >> k) ≡ ok a
    → (m ≡ ok tt) × (k ≡ ok a)
>>-eq-ok (ok tt) k h = (refl, h)
>>-eq-ok (err e) k h = cc

pub need-eq-ok {ℓ κ} :
    {A : Type ℓ} {B : Type κ} (o : Option A) (e : Thrown) (f : A → Result B) {b : B}
    → (need o e >>= f) ≡ ok b
    → (a : A) × (o ≡ some a) × (f a ≡ ok b)
need-eq-ok none e f h = cc
need-eq-ok (some a) e f h = (a, refl, h)

pub bind-eq-ok {ℓ κ} :
    {A : Type ℓ} {B : Type κ} (first : Result A) (next : A → Result B) {last : B}
    → (first >>= next) ≡ ok last
    → (given : A) × (first ≡ ok given) × (next given ≡ ok last)
bind-eq-ok (err thrown) next h = cc
bind-eq-ok (ok given) next h = (given, refl, h)

pub ok-injective {ℓ} : {A : Type ℓ} {a b : A} → ok a ≡ ok b → a ≡ b
ok-injective h = cc
