-- ===== src/Security/Base32/RoundTrip.antt =====
-- What `decodeBase32` makes of the texts of `encodeBase32`.
use moatazalasrai.Prelude.{
  ℕ, zero, suc, ◌+◌, ◌*◌, ◌/◌, ◌%◌, ◌^◌, ◌<◌, if◌then◌else◌, ◌≡◌, refl, sym, Bool, true, false,
  ◌&&◌, not, &&-inv, not-inv, List, [], ◌∷◌, ◌++◌, some, arith, ◌==◌, All, select_rows,
}
use moatazalasrai.Prelude.Text.{Text, is_space}
use moatazalasrai.Security.Base32.{
  alphabet, char_at, index_of, bits_of, parse_bits, bytes_bits, letter, letters, encode_base32,
  to_upper, strip_padding, strip_spaces, is_letter, all_letters, letters_bits, whole_bytes,
  decode_base32,
}

-- The bits of a number are read back as the number, if there are enough of them.
parse_bits-snoc :
    (value : ℕ) (bits : List Bool) (b : Bool)
    → parse_bits value (bits ++ b ∷ []) ≡ parse_bits value bits * 2 + (if b then 1 else 0)
unfolding parse_bits
parse_bits-snoc value [] b = refl
parse_bits-snoc value (a ∷ bits) b = parse_bits-snoc (value * 2 + (if a then 1 else 0)) bits b

parse_bits-bits_of : (width x : ℕ) → x < 2 ^ width → parse_bits 0 (bits_of width x) ≡ x
unfolding bits_of parse_bits
parse_bits-bits_of zero x h = omega arith
parse_bits-bits_of (suc width) x h =
    let half : x / 2 < 2 ^ width = omega arith in
    ground (
      arith,
      parse_bits-snoc 0 (bits_of width (x / 2)) (x % 2 == 1),
      parse_bits-bits_of width (x / 2) half,
    )

-- A chunk comes back from its letter, which the normalization keeps.
all_bools : (Bool → Bool) → Bool
all_bools p = p true && p false

all_bools_sound : (p : Bool → Bool) (b : Bool) → all_bools p ≡ true → p b ≡ true
unfolding all_bools
all_bools_sound p true h = (&&-inv (p true) (p false) h).0
all_bools_sound p false h = (&&-inv (p true) (p false) h).1

same_bit : Bool → Bool → Bool
same_bit true b = b
same_bit false b = not b

same_bits : List Bool → List Bool → Bool
unfolding same_bit
same_bits [] [] = true
same_bits (a ∷ xs) (b ∷ bs) = same_bit a b && same_bits xs bs
same_bits _ _ = false

same_bit_sound : (a b : Bool) → same_bit a b ≡ true → a ≡ b
unfolding same_bit
same_bit_sound true b h = sym h
same_bit_sound false b h = sym (not-inv b h)

same_bits_sound : (xs ys : List Bool) → same_bits xs ys ≡ true → xs ≡ ys
unfolding same_bits
same_bits_sound [] [] h = refl
same_bits_sound [] (b ∷ bs) h = cc
same_bits_sound (a ∷ xs) [] h = cc
same_bits_sound (a ∷ xs) (b ∷ bs) h =
    let (first, rest) = &&-inv (same_bit a b) (same_bits xs bs) h in
    cc (same_bit_sound a b first, same_bits_sound xs bs rest)

returns : Bool → Bool → Bool → Bool → Bool → Bool
returns a b c d e =
    let chunk = a ∷ b ∷ c ∷ d ∷ e ∷ [] in
    same_bits (bits_of 5 (index_of alphabet (letter chunk))) chunk && is_letter (letter chunk)

chunk_table :
    all_bools (λ a. all_bools (λ b. all_bools (λ c. all_bools (λ d. all_bools (returns a b c d)))))
    ≡ true
unfolding all_bools returns same_bits bits_of index_of char_at parse_bits
chunk_table = refl

returns-true : (a b c d e : Bool) → returns a b c d e ≡ true
returns-true a b c d e = all_bools_sound (returns a b c d) e (
    all_bools_sound _ d
      (all_bools_sound _ c (all_bools_sound _ b (all_bools_sound _ a chunk_table))))

module _ (a b c d e : Bool) where
  chunk : List Bool
  chunk = a ∷ b ∷ c ∷ d ∷ e ∷ []

  letter_bits : bits_of 5 (index_of alphabet (letter chunk)) ≡ chunk
  unfolding chunk returns
  letter_bits = same_bits_sound _ _ (&&-inv _ _ (returns-true a b c d e)).0

  letter_kept : is_letter (letter chunk) ≡ true
  unfolding chunk returns
  letter_kept = (&&-inv _ _ (returns-true a b c d e)).1

-- Zeros up to a multiple of five.
pad : List Bool → List Bool
pad [] = []
pad (a ∷ []) = false ∷ false ∷ false ∷ false ∷ []
pad (a ∷ b ∷ []) = false ∷ false ∷ false ∷ []
pad (a ∷ b ∷ c ∷ []) = false ∷ false ∷ []
pad (a ∷ b ∷ c ∷ d ∷ []) = false ∷ []
pad (a ∷ b ∷ c ∷ d ∷ e ∷ bits) = pad bits

letters_bits-letters : (bits : List Bool) → letters_bits (letters bits) ≡ bits ++ pad bits
unfolding letters letters_bits pad chunk
letters_bits-letters [] = refl
letters_bits-letters (a ∷ []) = rw (letter_bits a false false false false) refl
letters_bits-letters (a ∷ b ∷ []) = rw (letter_bits a b false false false) refl
letters_bits-letters (a ∷ b ∷ c ∷ []) = rw (letter_bits a b c false false) refl
letters_bits-letters (a ∷ b ∷ c ∷ d ∷ []) = rw (letter_bits a b c d false) refl
letters_bits-letters (a ∷ b ∷ c ∷ d ∷ e ∷ bits) =
    rw (letter_bits a b c d e, letters_bits-letters bits) refl

all_letters-letters : (bits : List Bool) → all_letters (letters bits) ≡ true
unfolding letters all_letters chunk
all_letters-letters [] = refl
all_letters-letters (a ∷ []) = rw (letter_kept a false false false false) refl
all_letters-letters (a ∷ b ∷ []) = rw (letter_kept a b false false false) refl
all_letters-letters (a ∷ b ∷ c ∷ []) = rw (letter_kept a b c false false) refl
all_letters-letters (a ∷ b ∷ c ∷ d ∷ []) = rw (letter_kept a b c d false) refl
all_letters-letters (a ∷ b ∷ c ∷ d ∷ e ∷ bits) =
    rw (letter_kept a b c d e, all_letters-letters bits) refl

whole_bytes-pad : (bits : List Bool) → whole_bytes (pad bits) ≡ []
unfolding whole_bytes pad
whole_bytes-pad [] = refl
whole_bytes-pad (a ∷ []) = refl
whole_bytes-pad (a ∷ b ∷ []) = refl
whole_bytes-pad (a ∷ b ∷ c ∷ []) = refl
whole_bytes-pad (a ∷ b ∷ c ∷ d ∷ []) = refl
whole_bytes-pad (a ∷ b ∷ c ∷ d ∷ e ∷ bits) = whole_bytes-pad bits

whole_bytes-bytes_bits :
    (bytes : List ℕ) (rest : List Bool)
    → All (λ x. x < 256) bytes
    → whole_bytes rest ≡ []
    → whole_bytes (bytes_bits bytes ++ rest) ≡ bytes
unfolding whole_bytes bytes_bits bits_of
whole_bytes-bytes_bits [] rest h e = e
whole_bytes-bytes_bits (x ∷ bytes) rest h e =
    let value : parse_bits 0 (bits_of 8 x) ≡ x = parse_bits-bits_of 8 x h.0 in
    cc (value, whole_bytes-bytes_bits bytes rest h.1 e)

-- A text of letters is left as it is by the normalization.
to_upper-letters : (s : Text) → all_letters s ≡ true → to_upper s ≡ s
unfolding to_upper all_letters
to_upper-letters [] h = refl
to_upper-letters (c ∷ s) h = ground (arith, to_upper-letters s)

strip_padding-letters : (s : Text) → all_letters s ≡ true → strip_padding s ≡ s
unfolding strip_padding all_letters
strip_padding-letters [] h = refl
strip_padding-letters (c ∷ []) h = ground arith
strip_padding-letters (c ∷ d ∷ s) h =
    rw (strip_padding-letters (d ∷ s) (&&-inv (is_letter c) _ h).1) refl

strip_spaces-letters : (s : Text) → all_letters s ≡ true → strip_spaces s ≡ s
unfolding strip_spaces select_rows all_letters is_space
strip_spaces-letters [] h = refl
strip_spaces-letters (c ∷ s) h = ground (arith, strip_spaces-letters s)

decode_base32-letters :
    (first : ℕ) (rest : List ℕ)
    → decode_base32 (encode_base32 (first ∷ rest))
      ≡ some (whole_bytes (letters_bits (letters (bytes_bits (first ∷ rest)))))
unfolding decode_base32 encode_base32
decode_base32-letters first rest =
    let s = letters (bytes_bits (first ∷ rest)) in
    let kept = all_letters-letters (bytes_bits (first ∷ rest)) in
    rw (to_upper-letters s kept, strip_padding-letters s kept, strip_spaces-letters s kept, kept)
      (unfold letters bytes_bits bits_of in refl)

-- Decoding gives back every text of bytes that has been encoded, if there is a byte at all: the
-- zeros that the last letter was filled up with are dropped, and the normalization changes nothing.
pub decode_base32-encode_base32 :
    (first : ℕ) (rest : List ℕ)
    → All (λ byte. byte < 256) (first ∷ rest)
    → decode_base32 (encode_base32 (first ∷ rest)) ≡ some (first ∷ rest)
decode_base32-encode_base32 first rest h =
    rw
      (
        decode_base32-letters first rest,
        letters_bits-letters (bytes_bits (first ∷ rest)),
        whole_bytes-bytes_bits (first ∷ rest) (pad (bytes_bits (first ∷ rest))) h
            (whole_bytes-pad (bytes_bits (first ∷ rest))),
      )
      refl
