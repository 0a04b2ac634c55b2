-- ===== src/Auth/Mfa/Enrollment.antt =====
-- Enrolling, confirming and leaving the second factor, in lib/auth/mfa.ts. Whether the current
-- password is right is an input; so are the random bytes.
use moatazalasrai.Prelude.{
  ℕ, ◌+◌, ◌-◌, ◌/◌, ◌%◌, Bool, true, false, ◌&&◌, not, List, [], ◌∷◌, ◌++◌, map, Option, none, some,
  ltb, if◌then◌else◌, update_rows, delete_rows,
}
use moatazalasrai.Prelude.Text.{Text}
use moatazalasrai.Security.Totp.{
  Verified, step_used, no_step, bad_secret, generate_totp_secret, verify_totp,
}
use moatazalasrai.Api.{
  api, internal, mfa_already_enabled, mfa_enrollment_not_found, mfa_code_invalid,
  current_password_invalid, Response, ok, err, ◌>>=◌, ◌>>◌, guard, need,
}
use moatazalasrai.Auth.Mfa.{
  Crypto, Credential, AuditAction, enrollment_started, mfa_enabled, codes_regenerated, mfa_disabled,
  MfaDb, hash_recovery_code, find_credential, put_credential, owned_by, verify_for_login,
}

-- `toString("hex").toUpperCase()` of one byte.
abbrev hex_digit : ℕ → ℕ
hex_digit d = if ltb d 10 then b'0' + d else b'A' + d - 10

unfoldable pub hex_text : List ℕ → Text
hex_text [] = []
hex_text (byte ∷ bytes) = hex_digit (byte / 16) ∷ hex_digit (byte % 16) ∷ hex_text bytes

-- One code of `generateRecoveryCodes`, from eight random bytes: four groups of four digits.
unfoldable pub recovery_code : List ℕ → Text
unfolding hex_text
recovery_code (a ∷ b ∷ c ∷ d ∷ e ∷ f ∷ g ∷ h ∷ _) =
    hex_text (a ∷ b ∷ [])
    ++ b'-' ∷ hex_text (c ∷ d ∷ [])
    ++ b'-' ∷ hex_text (e ∷ f ∷ [])
    ++ b'-' ∷ hex_text (g ∷ h ∷ [])
recovery_code _ = []

unfoldable pub write_audit : ℕ → AuditAction → MfaDb → MfaDb
write_audit user action db = record db {
  audits = db.audits ++ record { user = user; action = action } ∷ [];
}

unfoldable pub new_credential : Crypto → ℕ → List ℕ → List (List ℕ) → Credential
unfolding recovery_code
new_credential crypto user key random = record {
  user = user;
  secret = generate_totp_secret key;
  enabled = false;
  enabled_at = none;
  last_used_step = none;
  recovery_hashes = map (λ bytes. hash_recovery_code crypto (recovery_code bytes)) random;
  failed_attempts = 0;
  locked_until = none;
}

abbrev is_enabled : Option Credential → Bool
is_enabled none = false
is_enabled (some credential) = credential.enabled

-- `insert … on conflict do update`
abbrev upsert : ℕ → Credential → List Credential → List Credential
upsert user credential credentials = elim (find_credential user credentials) [
  | none ↦ credentials ++ credential ∷ []
  | some _ ↦ put_credential user credential credentials
]

-- `beginMfaEnrollment`: the secret that the user is shown.
unfoldable pub begin_enrollment :
    Crypto → Bool → List ℕ → List (List ℕ) → ℕ → MfaDb → Response (Text × MfaDb)
unfolding new_credential write_audit find_credential put_credential
begin_enrollment crypto password_right key random user db = do
  guard password_right (api 401 current_password_invalid)
  guard (not (is_enabled (find_credential user db.credentials))) (api 409 mfa_already_enabled)
  let credential = new_credential crypto user key random
  ok (
    credential.secret,
    write_audit user enrollment_started
        (record db { credentials = upsert user credential db.credentials }),
  )

abbrev confirmed : ℕ → ℕ → Credential → Credential
confirmed now step credential = record credential {
  enabled = true;
  enabled_at = some now;
  last_used_step = some step;
  failed_attempts = 0;
  locked_until = none;
}

-- `confirmMfaEnrollment`. One that is confirmed already is left as it is.
abbrev pub confirm_verified : ℕ → ℕ → Credential → Verified → MfaDb → Response MfaDb
confirm_verified now user credential (step_used step) db = ok (
    write_audit user mfa_enabled (record db {
      credentials = put_credential user (confirmed now step credential) db.credentials;
    }))
confirm_verified now user credential no_step db = err (api 401 mfa_code_invalid)
confirm_verified now user credential bad_secret db = err internal

unfoldable pub confirm_enrollment : Crypto → ℕ → Text → ℕ → MfaDb → Response MfaDb
unfolding write_audit find_credential put_credential
confirm_enrollment crypto now code user db = do
  credential ← need (find_credential user db.credentials) (api 404 mfa_enrollment_not_found)
  if credential.enabled
      then ok db
      else confirm_verified now user credential
          (verify_totp crypto.hmac credential.secret code now none credential.last_used_step) db

abbrev with_hashes : List ℕ → Credential → Credential
with_hashes hashes credential = record credential { recovery_hashes = hashes }

-- What follows the check of the code, which stays in the database when it fails.
abbrev pub after_login : Response Bool × MfaDb → (MfaDb → MfaDb) → Response (Unit {0}) × MfaDb
after_login (ok verified, db) change = (ok tt, change db)
after_login (err failure, db) change = (err failure, db)

-- `regenerateRecoveryCodes`
unfoldable pub regenerate_codes :
    Crypto → Bool → ℕ → ℕ → Text → List (List ℕ) → ℕ → MfaDb → Response (Unit {0}) × MfaDb
unfolding verify_for_login recovery_code write_audit
regenerate_codes crypto password_right now later code random user db =
    if not password_right
    then (err (api 401 current_password_invalid), db)
    else after_login (verify_for_login crypto now later user (some code) db) λ checked.
      write_audit user codes_regenerated (record checked {
        credentials =
            update_rows (λ c. owned_by user c && c.enabled)
              (with_hashes (map (λ bytes. hash_recovery_code crypto (recovery_code bytes)) random))
              checked.credentials;
      })

-- `disableMfa`
unfoldable pub disable_mfa : Crypto → Bool → ℕ → ℕ → Text → ℕ → MfaDb → Response (Unit {0}) × MfaDb
unfolding verify_for_login write_audit
disable_mfa crypto password_right now later code user db =
    if not password_right
    then (err (api 401 current_password_invalid), db)
    else after_login (verify_for_login crypto now later user (some code) db) λ checked.
      write_audit user mfa_disabled
        (record checked { credentials = delete_rows (owned_by user) checked.credentials })
