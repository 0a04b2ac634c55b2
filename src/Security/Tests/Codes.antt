-- ===== src/Security/Tests/Codes.antt =====
-- Base 32 and one-time codes of lib/security/totp.ts at concrete inputs.
use moatazalasrai.Prelude.{ℕ, ◌+◌, ◌≤◌, ◌≡◌, refl, [], ◌∷◌, ◌++◌, none, some, arith, select_rows}
use moatazalasrai.Prelude.Text.{Text, codes, is_space, text_eq}
use moatazalasrai.Security.Base32.{
  encode_base32, decode_base32, bits_of, parse_bits, char_at, index_of,
}
use moatazalasrai.Security.Base32.RoundTrip.{decode_base32-encode_base32}
use moatazalasrai.Security.Totp.{
  Hmac, totp_code, code_of, clean_code, generate_totp_secret, step_at, window_of, step_used,
  no_step, verify_totp, try_steps, truncate, decimal, counter_buffer,
}
use moatazalasrai.Security.Totp.Laws.{IsFresh, verify_totp-step_used, verify_totp-accepts}

encoded : encode_base32 (codes "foobar") ≡ codes "MZXW6YTBOI"
unfolding encode_base32 bits_of char_at parse_bits
encoded = refl

-- Lower case, padding and spaces are accepted.
decoded : decode_base32 (codes "mzxw 6ytb oi======") ≡ some (codes "foobar")
unfolding decode_base32 select_rows is_space bits_of parse_bits index_of
decoded = refl

refused : decode_base32 (codes "MZXW1") ≡ none
unfolding decode_base32 select_rows is_space bits_of parse_bits index_of
refused = refl

decode_base32-encode_base32_example :
    decode_base32 (encode_base32 (255 ∷ 0 ∷ 17 ∷ [])) ≡ some (255 ∷ 0 ∷ 17 ∷ [])
decode_base32-encode_base32_example = decode_base32-encode_base32 255 (0 ∷ 17 ∷ []) (omega arith)

-- A digest that shows the key and the counter.
abbrev toy_hmac : Hmac
toy_hmac key message = key ++ message ++ key

abbrev typed : Text
typed = codes "000 7-77"

shown : clean_code typed ≡ code_of toy_hmac 3 (9 ∷ 7 ∷ [])
unfolding clean_code select_rows truncate decimal counter_buffer
shown = refl

abbrev secret : Text
secret = codes "BEDQ"

accepted : verify_totp toy_hmac secret typed 100000 none (some 2) ≡ step_used 3
unfolding verify_totp try_steps totp_code decode_base32 select_rows is_space bits_of parse_bits
    index_of text_eq
accepted = refl

-- The code of a step that was used is not accepted again.
replayed : verify_totp toy_hmac secret typed 100000 none (some 3) ≡ no_step
unfolding verify_totp try_steps totp_code decode_base32 select_rows is_space bits_of parse_bits
    index_of text_eq
replayed = refl

verify_totp-step_used_example :
    (totp_code toy_hmac secret 3 ≡ some (clean_code typed))
    × IsFresh (some 2) 3
    × (step_at 100000 ≤ 3 + window_of none)
    × (3 ≤ step_at 100000 + window_of none)
verify_totp-step_used_example =
    verify_totp-step_used toy_hmac secret typed 100000 none (some 2) {found = 3} accepted

verify_totp-accepts_example :
    (found : ℕ) × (verify_totp toy_hmac
        (generate_totp_secret (9 ∷ 7 ∷ []))
        typed
        100000
        none
        (some 2)
      ≡ step_used found)
    × (found ≤ 3)
verify_totp-accepts_example =
    verify_totp-accepts toy_hmac 9 (7 ∷ []) typed 100000 none (some 2) 3 (omega arith) shown
      (omega arith) (omega arith) (omega arith)
