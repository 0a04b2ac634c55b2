-- ===== src/Auth/Challenge.antt =====
-- The second step of a login on the mobile application: lib/auth/mobile-mfa.ts, and its table
-- `mobile_mfa_challenges` of drizzle/0047_platform_security_boundaries.sql. A token and its hash are
-- numbers. A transaction reads the clocks of the server and of the database more than once.
pub mod Rows
pub mod Outcomes
pub mod Budget
pub mod Limits
pub mod Access
use moatazalasrai.Prelude.{
  ℕ, ◌+◌, ◌*◌, Bool, true, false, ◌&&◌, ◌||◌, not, List, [], ◌∷◌, ◌++◌, Option, none, some, ◌==◌,
  ltb, if◌then◌else◌, min, length, find_row, select_rows, update_rows, any,
}
use moatazalasrai.Prelude.Text.{Text}
use moatazalasrai.Api.{
  Failure, api, internal, mfa_challenge_invalid, mfa_challenge_used, mfa_challenge_expired,
  mfa_challenge_locked, mobile_membership_revoked, Response, ok, err, ◌>>=◌, ◌>>◌, guard,
}
use moatazalasrai.Auth.Members.{Member, is_member}
use moatazalasrai.Auth.Mfa.{Crypto, Credential, is_code_invalid, verify_with_client}
use moatazalasrai.Auth.Mobile.{
  Hash, MobileSession, IssueInput, IssueTimes, Fresh, Tokens, issue_session,
}

-- A row of `mobile_mfa_challenges`; the name of the device is not kept.
pub record Challenge : Type 0 where
  pub id : ℕ
  pub token_hash : ℕ
  pub user : ℕ
  pub organization : ℕ
  pub device : ℕ
  pub remember : Bool
  pub attempts : ℕ
  pub expires_at : ℕ
  pub used_at : Option ℕ

pub record LoginDb : Type 0 where
  pub challenges : List Challenge
  pub credentials : List Credential
  pub sessions : List MobileSession

abbrev pub challenge_ttl_ms : ℕ
challenge_ttl_ms = 5 * 60000

abbrev pub max_attempts : ℕ
max_attempts = 5

abbrev pub new_challenge : Hash → IssueInput → ℕ → ℕ → ℕ → Challenge
new_challenge hash input id token now = record {
  id = id;
  token_hash = hash token;
  user = input.user;
  organization = input.organization;
  device = input.device;
  remember = input.remember;
  attempts = 0;
  expires_at = now + challenge_ttl_ms;
  used_at = none;
}

abbrev pub has_id : ℕ → List Challenge → Bool
has_id id = any λ c. c.id == id

abbrev pub has_token : ℕ → Challenge → Bool
has_token h c = c.token_hash == h

-- `issueMobileMfaChallenge`: the answer is the expiry; the id and the hash are unique.
unfoldable pub issue_challenge : Hash → IssueInput → ℕ → ℕ → ℕ → LoginDb → Response ℕ × LoginDb
issue_challenge hash input id token now db =
    if has_id id db.challenges || any (has_token (hash token)) db.challenges
    then (err internal, db)
    else (
      ok (now + challenge_ttl_ms),
      record db { challenges = db.challenges ++ new_challenge hash input id token now ∷ [] },
    )

-- The readings of the clocks, in their order: `now()` of the transaction, the expiry, the two of the
-- check of the code, and those of the expiries of the new session and of the answer.
pub record Times : Type 0 where
  pub begun : ℕ
  pub checked : ℕ
  pub login : ℕ
  pub judged : ℕ
  pub issued : ℕ
  pub answered : ℕ

-- The transaction has one `now()`.
abbrev pub issue_times : Times → IssueTimes
issue_times t = record {
  selected = t.begun;
  computed = t.issued;
  stored = t.begun;
  answered = t.answered;
}

pub record VerifyInput : Type 0 where
  pub token : ℕ
  pub code : Text
  pub fresh : Fresh
  pub times : Times

pub record Login : Type 0 where
  pub tokens : Tokens
  pub user : ℕ
  pub organization : ℕ

abbrev pub is_used : Option ℕ → Bool
is_used none = false
is_used (some t) = true

unfoldable pub admit : ℕ → Challenge → Response (Unit {0})
admit now c = do
  guard (not (is_used c.used_at)) (api 401 mfa_challenge_used)
  guard (ltb now c.expires_at) (api 401 mfa_challenge_expired)
  guard (ltb c.attempts max_attempts) (api 423 mfa_challenge_locked)
  ok tt

abbrev pub of_id : ℕ → Challenge → Bool
of_id id c = c.id == id

abbrev pub count_attempt : Challenge → Challenge
count_attempt c = record c { attempts = min (c.attempts + 1) max_attempts }

abbrev pub use_row : ℕ → Challenge → Challenge
use_row now c = record c { used_at = some now }

-- The `where` of the update after a membership that is gone, and that of the last update.
abbrev pub is_unused : ℕ → Challenge → Bool
is_unused id c = c.id == id && not (is_used c.used_at)

abbrev pub is_open : ℕ → ℕ → Challenge → Bool
is_open id now c = c.id == id && not (is_used c.used_at) && ltb now c.expires_at

-- The new session, and the challenge that is spent for it; any error rolls back.
unfoldable pub finish_login :
    Hash
    → VerifyInput
    → List Member
    → Challenge
    → List Credential
    → LoginDb
    → Response Login × LoginDb
finish_login hash input members c credentials db =
    let issue : IssueInput = record {
      user = c.user;
      organization = c.organization;
      device = c.device;
      remember = c.remember;
    } in
    elim (issue_session hash issue input.fresh (issue_times input.times) members db.sessions) [
      | err failure ↦ (err failure, db)
      | ok issued ↦
          if length (select_rows (is_open c.id input.times.begun) db.challenges) == 1
          then (
            ok (record { tokens = issued.0; user = c.user; organization = c.organization }),
            record {
              challenges =
                  update_rows (is_open c.id input.times.begun) (use_row input.times.begun)
                    db.challenges;
              credentials = credentials;
              sessions = issued.1;
            },
          )
          else (err (api 401 mfa_challenge_invalid), db)
    ]

-- What follows the check of the code. A wrong code is counted and committed, and so is the end of a
-- challenge whose user has left the organization.
unfoldable pub settle_code :
    Hash
    → VerifyInput
    → List Member
    → Challenge
    → LoginDb
    → Response Bool × List Credential
    → Response Login × LoginDb
settle_code hash input members c db (err failure, credentials) = (
  err failure,
  if is_code_invalid failure
      then record db {
        challenges = update_rows (of_id c.id) count_attempt db.challenges;
        credentials = credentials;
      }
      else db,
)
settle_code hash input members c db (ok verified, credentials) =
    if length (select_rows (is_member c.organization c.user) members) == 1
    then finish_login hash input members c credentials db
    else (
      err (api 403 mobile_membership_revoked),
      record db {
        challenges = update_rows (is_unused c.id) (use_row input.times.begun) db.challenges;
        credentials = credentials;
      },
    )

-- `verifyMobileMfaChallenge`
unfoldable pub verify_challenge :
    Crypto → Hash → VerifyInput → List Member → LoginDb → Response Login × LoginDb
unfolding settle_code finish_login
verify_challenge crypto hash input members db =
    elim (find_row (has_token (hash input.token)) db.challenges) [
      | none ↦ (err (api 401 mfa_challenge_invalid), db)
      | some c ↦ elim (admit input.times.checked c) [
        | err failure ↦ (err failure, db)
        | ok admitted ↦ settle_code hash input members c db (
            verify_with_client crypto input.times.login input.times.judged c.user (some input.code)
              db.credentials)
      ]
    ]
