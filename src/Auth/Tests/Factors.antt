-- ===== src/Auth/Tests/Factors.antt =====
-- Logins with a second factor at concrete inputs.
use moatazalasrai.Prelude.{
  ℕ, ◌+◌, ◌-◌, ◌*◌, ◌≤◌, ◌≡◌, refl, true, false, List, [], ◌∷◌, ◌++◌, none, some, arith, find_row,
  update_rows, select_rows,
}
use moatazalasrai.Prelude.Text.{Text, codes, trim, text_eq}
use moatazalasrai.Security.Base32.{decode_base32, bits_of, parse_bits, index_of}
use moatazalasrai.Security.Totp.{try_steps, totp_code, verify_totp}
use moatazalasrai.Auth.Mfa.{
  Crypto, Credential, MfaDb, lock_ms, failure_limit, find_credential, hash_recovery_code, judge,
  without_hash, verify_for_login, verify_with_client, check_row, count_failure, accept,
  put_credential,
}
use moatazalasrai.Auth.Mfa.Rows.{Attempt, login, row_of, checked}
use moatazalasrai.Auth.Mfa.Replay.{
  used_step, used_code, IsIncreasing, count_code, count, uses, accepted_uses, accepted_uses-once,
}
use moatazalasrai.Auth.Mfa.Lockout.{wrong_codes, any_accepted, wrong_codes-limit}

-- A hash that is the length of its text; a digest that shows the key and the counter.
abbrev length_of : Text → ℕ
length_of [] = 0
length_of (c ∷ s) = length_of s + 1

abbrev crypto : Crypto
crypto = record { hmac = λ key message. key ++ message ++ key; sha256 = length_of }

abbrev credential : Credential
credential = record {
  user = 7;
  secret = codes "BEDQ";
  enabled = true;
  enabled_at = some 1;
  last_used_step = some 2;
  recovery_hashes = 16 ∷ 17 ∷ [];
  failed_attempts = 0;
  locked_until = none;
}

abbrev db : MfaDb
db = record { credentials = credential ∷ []; audits = [] }

abbrev attempt : ℕ → Text → Attempt
attempt time code = record { user = 7; now = time; later = time; code = some code }

-- The code of step 3, the same again, and a recovery code twice.
abbrev logins : List Attempt
logins =
    attempt 100000 (codes "000777")
    ∷ attempt 100001 (codes "000777")
    ∷ attempt 100002 (codes "0123-4567-89AB-CDEF")
    ∷ attempt 100003 (codes "0123-4567-89AB-CDEF")
    ∷ []

found : row_of 7 db ≡ some credential
unfolding find_credential find_row
found = refl

uses_once : accepted_uses crypto 7 logins db ≡ used_step 3 ∷ used_code 16 ∷ []
unfolding accepted_uses uses checked login verify_for_login verify_with_client check_row
    find_credential put_credential find_row update_rows judge hash_recovery_code without_hash accept
    count_failure trim verify_totp try_steps totp_code decode_base32 select_rows text_eq bits_of
    parse_bits index_of
uses_once = refl

accepted_uses-once_example :
    IsIncreasing (some 2) (accepted_uses crypto 7 logins db)
    × ((hash : ℕ) → count_code hash (accepted_uses crypto 7 logins db) ≤ count hash (16 ∷ 17 ∷ []))
accepted_uses-once_example = accepted_uses-once crypto 7 logins db {c = credential} found

abbrev guesses : List Attempt
guesses =
    attempt 100000 (codes "111111")
    ∷ attempt 100001 (codes "222222")
    ∷ attempt 100002 (codes "333333")
    ∷ attempt 100003 (codes "444444")
    ∷ attempt 100004 (codes "555555")
    ∷ attempt 100005 (codes "666666")
    ∷ []

none_accepted : any_accepted crypto 7 guesses db ≡ false
unfolding any_accepted login verify_for_login verify_with_client check_row find_credential
    put_credential find_row update_rows judge hash_recovery_code without_hash accept count_failure
    trim verify_totp try_steps totp_code decode_base32 select_rows text_eq bits_of parse_bits
    index_of
none_accepted = refl

-- The sixth guess is not judged.
five_judged : wrong_codes crypto 7 guesses db ≡ 5
unfolding wrong_codes login verify_for_login verify_with_client check_row find_credential
    put_credential find_row update_rows judge hash_recovery_code without_hash accept count_failure
    trim verify_totp try_steps totp_code decode_base32 select_rows text_eq bits_of parse_bits
    index_of
five_judged = refl

wrong_codes-limit_example :
    wrong_codes crypto 7 guesses db * lock_ms ≤ failure_limit * lock_ms + (100005 - 100000)
wrong_codes-limit_example =
    wrong_codes-limit crypto 7 100000 100005 guesses db {c = credential} found refl (omega arith)
      none_accepted
