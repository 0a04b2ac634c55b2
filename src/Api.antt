-- ===== src/Api.antt =====
-- `ApiError` of lib/http/api.ts, and what the services throw: such an error with its HTTP status and
-- code, or any other error. Messages are not kept.
use moatazalasrai.Prelude.{
  ◌≡◌, ◌⊎◌, inl, inr, refl, ℕ, Bool, true, false, if◌then◌else◌, Option, none, some,
}

pub data ApiCode : Type 0 where
  mfa_already_enabled mfa_enrollment_not_found mfa_code_invalid : ApiCode
  mfa_temporarily_locked mfa_required current_password_invalid : ApiCode
  mfa_challenge_invalid mfa_challenge_used mfa_challenge_expired : ApiCode
  mfa_challenge_locked mobile_membership_revoked account_access_expired : ApiCode
  refresh_token_invalid refresh_token_reused : ApiCode
  organization_membership_required forbidden unauthorized organization_required : ApiCode
  tool_approval_not_found tool_approval_invalid tool_approval_not_decided : ApiCode
  tool_approval_already_decided tool_approval_expired tool_approval_not_consumable : ApiCode
  channel_session_conflict run_not_found run_checkpoint_unavailable : ApiCode
  sandbox_path_invalid sandbox_path_traversal sandbox_path_too_long : ApiCode
  sandbox_command_invalid : ApiCode

pub data Failure : Type 0 where
  api : ℕ → ApiCode → Failure
  internal : Failure

pub data Response {ℓ} (A : Type ℓ) : Type ℓ where
  ok : A → Response A
  err : Failure → Response A

-- `if (!test) throw e`
abbrev pub guard : Bool → Failure → Response (Unit {0})
guard test failure = if test then ok tt else err failure

-- `if (!row) throw e`
abbrev pub need {ℓ} : {A : Type ℓ} → Option A → Failure → Response A
need none e = err e
need (some row) e = ok row

infixl 5 ◌>>=◌ ◌>>◌
abbrev pub ◌>>=◌ {ℓ κ} : {A : Type ℓ} {B : Type κ} → Response A → (A → Response B) → Response B
ok a >>= next = next a
err failure >>= next = err failure

abbrev pub ◌>>◌ {ℓ} : {B : Type ℓ} → Response (Unit {0}) → Response B → Response B
first >> next = first >>= λ _. next

-- Inversion of the steps of a successful `do` block.
pub guard-eq-ok {ℓ} :
    {A : Type ℓ} (test : Bool) (failure : Failure) (next : Response A) {a : A}
    → (guard test failure >> next) ≡ ok a
    → (test ≡ true) × (next ≡ ok a)
guard-eq-ok true failure next h = (refl, h)
guard-eq-ok false failure next h = cc

pub bind-eq-ok {ℓ κ} :
    {A : Type ℓ} {B : Type κ} (first : Response A) (next : A → Response B) {last : B}
    → (first >>= next) ≡ ok last
    → (given : A) × (first ≡ ok given) × (next given ≡ ok last)
bind-eq-ok (err failure) next h = cc
bind-eq-ok (ok given) next h = (given, refl, h)

-- To split on a computed response and keep the equation.
pub Response-cases {ℓ} :
    {A : Type ℓ} (r : Response A)
    → ((a : A) × (r ≡ ok a)) ⊎ ((failure : Failure) × (r ≡ err failure))
Response-cases (ok a) = inl (a, refl)
Response-cases (err failure) = inr (failure, refl)
