-- ===== src/Auth/Tests/Challenges.antt =====
-- Challenges of the mobile login at concrete inputs.
use moatazalasrai.Prelude.{
  ℕ, ◌+◌, ◌*◌, ◌≤◌, ◌≡◌, refl, true, List, [], ◌∷◌, ◌++◌, none, some, find_row, update_rows,
  select_rows,
}
use moatazalasrai.Prelude.Text.{Text, codes, trim, text_eq}
use moatazalasrai.Api.{ok}
use moatazalasrai.Security.Base32.{decode_base32}
use moatazalasrai.Security.Totp.{verify_totp}
use moatazalasrai.Auth.Permissions.{developer}
use moatazalasrai.Auth.Members.{Member}
use moatazalasrai.Auth.Mfa.{
  Crypto, Credential, find_credential, hash_recovery_code, judge, without_hash, verify_with_client,
  check_row, count_failure, accept, put_credential,
}
use moatazalasrai.Auth.Mobile.{Hash, IssueInput, issue_session, upsert_session}
use moatazalasrai.Auth.Challenge.{
  Challenge, LoginDb, VerifyInput, Login, max_attempts, issue_challenge, admit, verify_challenge,
}
use moatazalasrai.Auth.Challenge.Outcomes.{is_login, is_wrong}
use moatazalasrai.Auth.Challenge.Limits.{
  Call, issue, verify, after_call, hits, answers, challenge_answers-limit,
}
use moatazalasrai.Auth.Challenge.Access.{IsAdmitted, verify_challenge-ok}

abbrev length_of : Text → ℕ
length_of [] = 0
length_of (c ∷ s) = length_of s + 1

abbrev crypto : Crypto
crypto = record { hmac = λ key message. key ++ message; sha256 = length_of }

abbrev hash : Hash
hash token = token * 10 + 1

-- Five letters are a recovery code of this user.
abbrev credential : Credential
credential = record {
  user = 7;
  secret = codes "BEDQ";
  enabled = true;
  enabled_at = some 1;
  last_used_step = none;
  recovery_hashes = 5 ∷ [];
  failed_attempts = 0;
  locked_until = none;
}

abbrev db : LoginDb
db = record { challenges = []; credentials = credential ∷ []; sessions = [] }

abbrev member : Member
member = record {
  id = 1;
  organization = 1;
  user = 7;
  role = developer;
  expires_at = none;
  custom_permissions = [];
}

abbrev device : IssueInput
device = record { user = 7; organization = 1; device = 3; remember = true }

abbrev input : ℕ → Text → VerifyInput
input time code = record {
  token = 4;
  code = code;
  fresh = record { id = 50; access = 20; refresh = 21 };
  times = record {
    begun = time;
    checked = time;
    login = time;
    judged = time;
    issued = time;
    answered = time;
  };
}

-- A wrong code, the right one, and the same again.
abbrev calls : List Call
calls =
    issue device 9 4 1000
    ∷ verify (input 2000 (codes "abc")) (member ∷ [])
    ∷ verify (input 3000 (codes "abcde")) (member ∷ [])
    ∷ verify (input 4000 (codes "abcde")) (member ∷ [])
    ∷ []

one_login : answers is_login crypto hash 41 calls db ≡ 1
unfolding answers hits after_call issue_challenge verify_challenge admit verify_with_client
    check_row find_credential put_credential find_row update_rows select_rows judge
    hash_recovery_code without_hash accept count_failure trim verify_totp decode_base32 text_eq
    issue_session upsert_session
one_login = refl

one_wrong : answers is_wrong crypto hash 41 calls db ≡ 1
unfolding answers hits after_call issue_challenge verify_challenge admit verify_with_client
    check_row find_credential put_credential find_row update_rows select_rows judge
    hash_recovery_code without_hash accept count_failure trim verify_totp decode_base32 text_eq
    issue_session upsert_session
one_wrong = refl

challenge_answers-limit_example :
    (answers is_login crypto hash 41 calls db ≤ 1)
    × (answers is_wrong crypto hash 41 calls db ≤ max_attempts)
challenge_answers-limit_example = challenge_answers-limit crypto hash 4 calls db tt

-- The tables after the challenge is made.
abbrev challenge : Challenge
challenge = record {
  id = 9;
  token_hash = 41;
  user = 7;
  organization = 1;
  device = 3;
  remember = true;
  attempts = 1;
  expires_at = 301000;
  used_at = none;
}

abbrev tried_db : LoginDb
tried_db = record db { challenges = challenge ∷ [] }

abbrev login : Login
login = record {
  tokens = record {
    session = 50;
    access = 20;
    refresh = 21;
    expires_in = 900;
    refresh_expires_in = 7776000;
  };
  user = 7;
  organization = 1;
}

entered_run :
    (verify_challenge crypto hash (input 3000 (codes "abcde")) (member ∷ []) tried_db).0 ≡ ok login
unfolding verify_challenge admit verify_with_client check_row find_credential put_credential
    find_row update_rows select_rows judge hash_recovery_code without_hash accept trim issue_session
    upsert_session
entered_run = refl

verify_challenge-ok_example :
    (c : Challenge) × IsAdmitted crypto hash
      (input 3000 (codes "abcde"))
      (member ∷ [])
      tried_db
      login
      c
verify_challenge-ok_example =
    verify_challenge-ok crypto hash (input 3000 (codes "abcde")) (member ∷ []) tried_db
      {login = login} entered_run
