-- ===== src/Security/Base32.antt =====
-- `encodeBase32` and `decodeBase32` of lib/security/totp.ts. A text of the digits 0 and 1 is a list
-- of truth values; a byte is a number below 256.
pub mod RoundTrip
use moatazalasrai.Prelude.{
  ℕ, zero, suc, ◌+◌, ◌*◌, ◌/◌, ◌%◌, ◌-◌, Bool, true, false, ◌&&◌, ◌||◌, List, [], ◌∷◌, ◌++◌, Option,
  none, some, ◌==◌, leb, if◌then◌else◌, select_rows, not,
}
use moatazalasrai.Prelude.Text.{Text, codes, is_space}

abbrev pub alphabet : Text
alphabet = codes "ABCDEFGHIJKLMNOPQRSTUVWXYZ234567"

-- `alphabet[index]`
unfoldable pub char_at : Text → ℕ → ℕ
char_at [] i = 0
char_at (c ∷ s) zero = c
char_at (c ∷ s) (suc i) = char_at s i

-- `alphabet.indexOf(character)`, for a character that is there.
unfoldable pub index_of : Text → ℕ → ℕ
index_of [] c = 0
index_of (d ∷ s) c = if c == d then 0 else index_of s c + 1

-- `value.toString(2).padStart(width, "0")`, for a value that has as many digits.
unfoldable pub bits_of : ℕ → ℕ → List Bool
bits_of zero value = []
bits_of (suc width) value = bits_of width (value / 2) ++ (value % 2 == 1) ∷ []

-- `Number.parseInt(bits, 2)`, read on from a value.
unfoldable pub parse_bits : ℕ → List Bool → ℕ
parse_bits value [] = value
parse_bits value (b ∷ bits) = parse_bits (value * 2 + (if b then 1 else 0)) bits

unfoldable pub bytes_bits : List ℕ → List Bool
bytes_bits [] = []
bytes_bits (byte ∷ bytes) = bits_of 8 byte ++ bytes_bits bytes

abbrev pub letter : List Bool → ℕ
letter chunk = char_at alphabet (parse_bits 0 chunk)

-- The loop over the chunks of five, the last one padded with zeros.
unfoldable pub letters : List Bool → Text
letters [] = []
letters (a ∷ []) = letter (a ∷ false ∷ false ∷ false ∷ false ∷ []) ∷ []
letters (a ∷ b ∷ []) = letter (a ∷ b ∷ false ∷ false ∷ false ∷ []) ∷ []
letters (a ∷ b ∷ c ∷ []) = letter (a ∷ b ∷ c ∷ false ∷ false ∷ []) ∷ []
letters (a ∷ b ∷ c ∷ d ∷ []) = letter (a ∷ b ∷ c ∷ d ∷ false ∷ []) ∷ []
letters (a ∷ b ∷ c ∷ d ∷ e ∷ bits) = letter (a ∷ b ∷ c ∷ d ∷ e ∷ []) ∷ letters bits

unfoldable pub encode_base32 : List ℕ → Text
unfolding letters bytes_bits
encode_base32 input = letters (bytes_bits input)

-- `toUpperCase`, on the characters whose upper case is a text of ASCII letters. Others are left as
-- they are: the alphabet has none of them.
abbrev upper_char : ℕ → Text
upper_char c =
    if leb b'a' c && leb c b'z'
    then (c - 32) ∷ []
    else if c == 0xdf
    then codes "SS"
    else if c == 0x131
    then codes "I"
    else if c == 0x17f
    then codes "S"
    else if c == 0xfb00
    then codes "FF"
    else if c == 0xfb01
    then codes "FI"
    else if c == 0xfb02
    then codes "FL"
    else if c == 0xfb03
    then codes "FFI"
    else if c == 0xfb04
    then codes "FFL"
    else if c == 0xfb05 || c == 0xfb06
    then codes "ST"
    else c ∷ []

unfoldable pub to_upper : Text → Text
to_upper [] = []
to_upper (c ∷ s) = upper_char c ++ to_upper s

abbrev cons_unless_padding : ℕ → Text → Text
cons_unless_padding c [] = if c == b'=' then [] else c ∷ []
cons_unless_padding c (d ∷ s) = c ∷ d ∷ s

-- `replace(/=+$/g, "")`
unfoldable pub strip_padding : Text → Text
strip_padding [] = []
strip_padding (c ∷ s) = cons_unless_padding c (strip_padding s)

-- `replace(/\s+/g, "")`
unfoldable pub strip_spaces : Text → Text
strip_spaces = select_rows λ c. not (is_space c)

abbrev pub is_letter : ℕ → Bool
is_letter c = (leb b'A' c && leb c b'Z') || (leb b'2' c && leb c b'7')

-- `/^[A-Z2-7]+$/.test`, on a text that is not empty.
unfoldable pub all_letters : Text → Bool
all_letters [] = true
all_letters (c ∷ s) = is_letter c && all_letters s

abbrev is_empty : Text → Bool
is_empty [] = true
is_empty (c ∷ s) = false

unfoldable pub letters_bits : Text → List Bool
letters_bits [] = []
letters_bits (c ∷ s) = bits_of 5 (index_of alphabet c) ++ letters_bits s

-- The loop over the whole bytes; the bits that are left over are dropped.
unfoldable pub whole_bytes : List Bool → List ℕ
whole_bytes (a ∷ b ∷ c ∷ d ∷ e ∷ f ∷ g ∷ h ∷ bits) =
    parse_bits 0 (a ∷ b ∷ c ∷ d ∷ e ∷ f ∷ g ∷ h ∷ []) ∷ whole_bytes bits
whole_bytes _ = []

-- `none` is the error MFA_SECRET_INVALID.
unfoldable pub decode_base32 : Text → Option (List ℕ)
unfolding to_upper strip_padding strip_spaces all_letters letters_bits whole_bytes
decode_base32 value =
    let normalized = strip_spaces (strip_padding (to_upper value)) in
    if is_empty normalized || not (all_letters normalized)
    then none
    else some (whole_bytes (letters_bits normalized))
