-- ===== src/Security/Totp.antt =====
-- The one-time codes of lib/security/totp.ts. HMAC-SHA-1 is a parameter, from a key and a message to
-- the bytes of a digest; a time is a number of milliseconds.
pub mod Laws
use moatazalasrai.Prelude.{
  ℕ, zero, suc, ◌+◌, ◌-◌, ◌*◌, ◌/◌, ◌%◌, ◌^◌, min, max, Bool, true, false, ◌&&◌, ◌||◌, List, [],
  ◌∷◌, ◌++◌, Option, none, some, ◌==◌, ltb, leb, if◌then◌else◌, length, select_rows, not, or_else,
}
use moatazalasrai.Prelude.Text.{Text, is_space, text_eq}
use moatazalasrai.Security.Base32.{encode_base32, decode_base32}

abbrev pub Hmac : Type 0
Hmac = List ℕ → List ℕ → List ℕ

-- `generateTotpSecret`, from the random bytes.
unfoldable pub generate_totp_secret : List ℕ → Text
generate_totp_secret random = encode_base32 random

-- `writeBigUInt64BE`: `size` bytes, the highest first.
unfoldable pub counter_buffer : ℕ → ℕ → List ℕ
counter_buffer zero step = []
counter_buffer (suc size) step = counter_buffer size (step / 256) ++ (step % 256) ∷ []

-- `digest[index]`, where what is out of range counts as 0 in the bit operations.
unfoldable pub byte_at : List ℕ → ℕ → ℕ
byte_at [] i = 0
byte_at (b ∷ bytes) zero = b
byte_at (b ∷ bytes) (suc i) = byte_at bytes i

-- `String(value).padStart(size, "0")`, for a value that has at most as many digits.
unfoldable pub decimal : ℕ → ℕ → Text
decimal zero value = []
decimal (suc size) value = decimal size (value / 10) ++ (b'0' + value % 10) ∷ []

unfoldable pub truncate : List ℕ → ℕ
unfolding byte_at
truncate digest =
    let offset = byte_at digest (length digest - 1) % 16 in
    byte_at digest offset % 128 * 2 ^ 24
    + byte_at digest (offset + 1) % 256 * 2 ^ 16
    + byte_at digest (offset + 2) % 256 * 2 ^ 8
    + byte_at digest (offset + 3) % 256

abbrev pub code_of : Hmac → ℕ → List ℕ → Text
code_of hmac step key = decimal 6 (truncate (hmac key (counter_buffer 8 step)) % 10 ^ 6)

-- `none` is the error of a secret that does not decode.
unfoldable pub totp_code : Hmac → Text → ℕ → Option Text
unfolding truncate decimal counter_buffer
totp_code hmac secret step = elim (decode_base32 secret) [
  | none ↦ none
  | some key ↦ some (code_of hmac step key)
]

abbrev is_digit : ℕ → Bool
is_digit c = leb b'0' c && leb c b'9'

unfoldable pub all_digits : Text → Bool
all_digits [] = true
all_digits (c ∷ s) = is_digit c && all_digits s

-- `code.replace(/[\s-]/g, "")`
unfoldable pub clean_code : Text → Text
unfolding is_space
clean_code = select_rows λ c. not (is_space c || c == b'-')

-- `/^\d{6}$/.test(code)`
unfoldable pub is_code : Text → Bool
unfolding all_digits
is_code code = length code == 6 && all_digits code

-- `step <= (lastUsedStep ?? -1)`
abbrev pub is_used : Option ℕ → ℕ → Bool
is_used none step = false
is_used (some last) step = leb step last

-- What `verifyTotp` gives: a step or null, or the error of the secret.
pub data Verified : Type 0 where
  step_used : ℕ → Verified
  no_step : Verified
  bad_secret : Verified

abbrev pub continue_unless : Option Text → Text → ℕ → Verified → Verified
continue_unless none code step rest = bad_secret
continue_unless (some expected) code step rest =
    if text_eq expected code then step_used step else rest

-- The loop over the offsets, of which `rounds` are left: `reached` is the current step with the
-- rounds that have been made, so that `reached - window` is the step that is tried. One below 0
-- counts as used.
unfoldable pub try_steps : Hmac → Text → Text → Option ℕ → ℕ → ℕ → ℕ → Verified
try_steps hmac secret code last window zero reached = no_step
try_steps hmac secret code last window (suc rounds) reached =
    let rest = try_steps hmac secret code last window rounds (reached + 1) in
    let step = reached - window in
    if ltb reached window || is_used last step
    then rest
    else continue_unless (totp_code hmac secret step) code step rest

-- `Math.floor(now / 1000 / 30)`
abbrev pub step_at : ℕ → ℕ
step_at now = now / 30000

-- `Math.max(0, Math.min(window ?? 1, 2))`
abbrev pub window_of : Option ℕ → ℕ
window_of window = min (or_else window 1) 2

unfoldable pub verify_totp : Hmac → Text → Text → ℕ → Option ℕ → Option ℕ → Verified
unfolding clean_code is_code
verify_totp hmac secret typed now window last =
    let code = clean_code typed in
    let w = window_of window in
    if is_code code then try_steps hmac secret code last w (2 * w + 1) (step_at now) else no_step
