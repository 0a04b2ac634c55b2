-- ===== src/Auth/Mfa.antt =====
-- The second factor of lib/auth/mfa.ts: the table `user_mfa_credentials`, and the check at a login.
-- SHA-256 and HMAC are parameters. A column holds the secret itself, which the code encrypts, and a
-- hash is a number. A time is a number of milliseconds.
pub mod Enrollment
pub mod Rows
pub mod Replay
pub mod Lockout
use moatazalasrai.Prelude.{
  ℕ, zero, suc, ◌+◌, ◌*◌, ◌-◌, ◌/◌, ◌%◌, Bool, true, false, ◌&&◌, ◌||◌, not, List, [], ◌∷◌, ◌++◌,
  map, Option, none, some, ◌==◌, ltb, leb, if◌then◌else◌, find_row, update_rows, select_rows,
  or_else,
}
use moatazalasrai.Prelude.Text.{Text, trim}
use moatazalasrai.Security.Base32.{to_upper}
use moatazalasrai.Security.Totp.{Hmac, Verified, step_used, no_step, bad_secret, verify_totp}
use moatazalasrai.Api.{
  Failure, api, internal, mfa_code_invalid, mfa_temporarily_locked, mfa_required, Response, ok, err,
  ◌>>=◌, ◌>>◌, guard, need,
}

pub record Crypto : Type 0 where
  pub hmac : Hmac
  pub sha256 : Text → ℕ

-- `userMfaCredentials`
pub record Credential : Type 0 where
  pub user : ℕ
  pub secret : Text
  pub enabled : Bool
  pub enabled_at : Option ℕ
  pub last_used_step : Option ℕ
  pub recovery_hashes : List ℕ
  pub failed_attempts : ℕ
  pub locked_until : Option ℕ

-- The actions that are written to the audit log.
pub data AuditAction : Type 0 where
  enrollment_started mfa_enabled codes_regenerated mfa_disabled : AuditAction
  login_failed : ℕ → Bool → AuditAction

pub record Audit : Type 0 where
  pub user : ℕ
  pub action : AuditAction

pub record MfaDb : Type 0 where
  pub credentials : List Credential
  pub audits : List Audit

abbrev pub failure_limit : ℕ
failure_limit = 5

abbrev pub lock_ms : ℕ
lock_ms = 15 * 60000

abbrev is_alphanumeric : ℕ → Bool
is_alphanumeric c =
    (leb b'A' c && leb c b'Z') || (leb b'a' c && leb c b'z') || (leb b'0' c && leb c b'9')

unfoldable pub hash_recovery_code : Crypto → Text → ℕ
unfolding to_upper select_rows
hash_recovery_code crypto code = crypto.sha256 (to_upper (select_rows is_alphanumeric code))

abbrev pub keep_hash : ℕ → Option (List ℕ) → Option (List ℕ)
keep_hash h none = none
keep_hash h (some left) = some (h ∷ left)

-- `hashes.findIndex`, and the list without what is at the index.
unfoldable pub without_hash : ℕ → List ℕ → Option (List ℕ)
without_hash hash [] = none
without_hash hash (h ∷ hashes) =
    let rest = keep_hash h (without_hash hash hashes) in if h == hash then some hashes else rest

-- How a code is judged: as a recovery code, with the hashes that are left, as the code of a step, or
-- as none of these.
pub data Judgement : Type 0 where
  recovered : List ℕ → Judgement
  stepped : ℕ → Judgement
  invalid : Judgement
  broken : Judgement

abbrev pub of_verified : Verified → Judgement
of_verified (step_used step) = stepped step
of_verified no_step = invalid
of_verified bad_secret = broken

unfoldable pub judge : Crypto → ℕ → Text → Credential → Judgement
judge crypto now code credential =
    elim (without_hash (hash_recovery_code crypto code) credential.recovery_hashes) [
      | some left ↦ recovered left
      | none ↦
          of_verified
            (verify_totp crypto.hmac credential.secret code now none credential.last_used_step)
    ]

-- The update after a wrong code, and the one after a right code, which keeps the last step if there
-- is no new one.
unfoldable pub count_failure : ℕ → Credential → Credential
count_failure now credential =
    let attempts = credential.failed_attempts + 1 in
    record credential {
      failed_attempts = attempts;
      locked_until = if leb failure_limit attempts then some (now + lock_ms) else none;
    }

unfoldable pub accept : Option ℕ → List ℕ → Credential → Credential
accept step hashes credential = record credential {
  last_used_step = elim step [ none ↦ credential.last_used_step | some s ↦ some s ];
  recovery_hashes = hashes;
  failed_attempts = 0;
  locked_until = none;
}

-- `credential.locked_until > now`
abbrev pub is_locked : Credential → ℕ → Bool
is_locked credential now = elim credential.locked_until [
  | none ↦ false
  | some until ↦ ltb now until
]

-- `input.code?.trim()`, where no text and an empty one are the same.
abbrev pub typed_code : Option Text → Option Text
typed_code none = none
typed_code (some code) = elim (trim code) [ [] ↦ none | c ∷ s ↦ some (c ∷ s) ]

-- What a judgement is answered, and the row that is written with the answer.
abbrev pub settle : Judgement → ℕ → Credential → Response Bool × Credential
settle (recovered left) later credential = (ok true, accept none left credential)
settle (stepped step) later credential =
    (ok true, accept (some step) credential.recovery_hashes credential)
settle invalid later credential = (err (api 401 mfa_code_invalid), count_failure later credential)
settle broken later credential = (err internal, credential)

-- What the check makes of the row of a user. The clock is read twice.
unfoldable pub check_row : Crypto → ℕ → ℕ → Option Text → Credential → Response Bool × Credential
check_row crypto now later code credential =
    if not credential.enabled
    then (ok false, credential)
    else if is_locked credential now
    then (err (api 423 mfa_temporarily_locked), credential)
    else elim (typed_code code) [
      | none ↦ (err (api 428 mfa_required), credential)
      | some text ↦ settle (judge crypto later text credential) later credential
    ]

abbrev pub owned_by : ℕ → Credential → Bool
owned_by user credential = credential.user == user

unfoldable pub find_credential : ℕ → List Credential → Option Credential
find_credential user = find_row (owned_by user)

unfoldable pub put_credential : ℕ → Credential → List Credential → List Credential
put_credential user credential = update_rows (owned_by user) (λ _. credential)

-- `verifyMfaForLoginWithClient`, inside a transaction of its caller.
unfoldable pub verify_with_client :
    Crypto → ℕ → ℕ → ℕ → Option Text → List Credential → Response Bool × List Credential
verify_with_client crypto now later user code credentials =
    elim (find_credential user credentials) [
      | none ↦ (ok false, credentials)
      | some credential ↦
          let (answer, after) = check_row crypto now later code credential in
          (answer, put_credential user after credentials)
    ]

-- `error.code === "MFA_CODE_INVALID"`: the failure that is committed.
abbrev pub is_code_invalid : Failure → Bool
is_code_invalid (api status mfa_code_invalid) = true
is_code_invalid _ = false

abbrev failed_audit : ℕ → Option Credential → List Audit
failed_audit user none = []
failed_audit user (some c) =
    record {
      user = user;
      action =
          login_failed c.failed_attempts (elim c.locked_until [ none ↦ false | some until ↦ true ]);
    }
    ∷ []

-- The transaction of `verifyMfaForLogin`: a wrong code is committed, and audited; any other error
-- rolls back.
abbrev pub commit_login : ℕ → MfaDb → Response Bool × List Credential → Response Bool × MfaDb
commit_login user db (ok verified, credentials) =
    (ok verified, record db { credentials = credentials })
commit_login user db (err failure, credentials) = (
  err failure,
  if is_code_invalid failure
      then record {
        credentials = credentials;
        audits = db.audits ++ failed_audit user (find_credential user credentials);
      }
      else db,
)

-- `verifyMfaForLogin`
unfoldable pub verify_for_login : Crypto → ℕ → ℕ → ℕ → Option Text → MfaDb → Response Bool × MfaDb
verify_for_login crypto now later user code db =
    commit_login user db (verify_with_client crypto now later user code db.credentials)
