-- ===== src/Security/Totp/Laws.antt =====
-- Which steps `verifyTotp` gives.
use moatazalasrai.Prelude.{
  ℕ, zero, suc, ◌+◌, ◌-◌, ◌*◌, ◌%◌, ◌^◌, ◌∙◌, ◌≡◌, ◌≢◌, ◌<◌, ◌≤◌, ◌⊎◌, inl, inr, refl, sym, ap,
  Bool, true, false, List, ◌∷◌, Option, none, some, ltb, ◌||◌, arith, Bool-cases, Option-cases, All,
  some_inv, none-ne-some, ||-inv,
}
use moatazalasrai.Prelude.Text.{Text, text_eq, text_eq_iff}
use moatazalasrai.Security.Base32.{decode_base32}
use moatazalasrai.Security.Base32.RoundTrip.{decode_base32-encode_base32}
use moatazalasrai.Security.Totp.{
  Hmac, totp_code, code_of, decimal, truncate, counter_buffer, generate_totp_secret, clean_code,
  is_code, is_used, Verified, step_used, no_step, continue_unless, try_steps, step_at, window_of,
  verify_totp,
}

-- Later than the last step that was used, if there is one.
abbrev pub IsFresh : Option ℕ → ℕ → Type 0
IsFresh none step = Unit {0}
IsFresh (some last) step = last < step

is_used-IsFresh : (last : Option ℕ) (step : ℕ) → is_used last step ≡ false → IsFresh last step
is_used-IsFresh none step h = tt
is_used-IsFresh (some last) step h = ground arith

fresh-is_used : (last : Option ℕ) (step : ℕ) → IsFresh last step → is_used last step ≡ false
fresh-is_used none step h = refl
fresh-is_used (some last) step h = ground arith

continue_inv :
    (expected : Option Text) (code : Text) (step : ℕ) (rest : Verified) {found : ℕ}
    → continue_unless expected code step rest ≡ step_used found
    → ((expected ≡ some code) × (found ≡ step)) ⊎ (rest ≡ step_used found)
continue_inv none code step rest h = cc
continue_inv (some expected) code step rest h = elim (Bool-cases (text_eq expected code)) [
  | inl same ↦ inl (ap some ((text_eq_iff expected code).0 same), ground (arith, h, same))
  | inr other ↦ inr (rw other at h)
]

-- A secret decodes for every step or for none.
totp_code-cases :
    (hmac : Hmac) (secret : Text) (s t : ℕ) {code : Text}
    → totp_code hmac secret s ≡ some code
    → (other : Text) × (totp_code hmac secret t ≡ some other)
unfolding totp_code
totp_code-cases hmac secret s t h = elim (Option-cases (decode_base32 secret)) [
  | inl bad ↦ absurd (none-ne-some (rw (totp_code, bad) at h))
  | inr (key, good) ↦ rw (totp_code, good) (_, refl)
]

skipped_absurd :
    (reached window : ℕ) (used : Bool)
    → (ltb reached window || used) ≡ true
    → window ≤ reached
    → used ≡ true
skipped_absurd reached window used h g = ground arith

module _ (hmac : Hmac) (secret code : Text) (last : Option ℕ) (window : ℕ) where
  -- The step is one of those that are left, and its code matches.
  abbrev Found : ℕ → ℕ → ℕ → Type 0
  Found rounds reached found =
      (totp_code hmac secret found ≡ some code)
      × IsFresh last found
      × (reached ≤ found + window)
      × (found + window < reached + rounds)

  Found-later :
      (rounds reached found : ℕ)
      → Found rounds (reached + 1) found
      → Found (suc rounds) reached found
  Found-later rounds reached found (match, fresh, above, below) =
      (match, fresh, omega arith, omega arith)

  try_steps_sound :
      (rounds reached : ℕ) {found : ℕ}
      → try_steps hmac secret code last window rounds reached ≡ step_used found
      → Found rounds reached found
  unfolding try_steps
  try_steps_sound zero reached h = cc
  try_steps_sound (suc rounds) reached {found} h =
      let later =
        λ (g : try_steps hmac secret code last window rounds (reached + 1) ≡ step_used found).
          Found-later rounds reached found
            (try_steps_sound rounds (reached + 1) {found = found} g) in
      elim (Bool-cases (ltb reached window || is_used last (reached - window))) [
        | inl skipped ↦ later (rw skipped at h)
        | inr tried ↦
            let (low, fresh) =
              ||-inv (ltb reached window) (is_used last (reached - window)) tried in
            elim (continue_inv (totp_code hmac secret (reached - window)) code (reached - window)
              (try_steps hmac secret code last window rounds (reached + 1)) (rw tried at h)) [
                | inl (match, here) ↦ rw here (
                  match,
                  is_used-IsFresh last (reached - window) fresh,
                  ground (arith, low),
                  ground (arith, low),
                )
                | inr rest ↦ later rest
              ]
      ]

  try_steps_complete :
      (rounds reached step : ℕ)
      → totp_code hmac secret step ≡ some code
      → IsFresh last step
      → reached ≤ step + window
      → step + window < reached + rounds
      → (found : ℕ) × (try_steps hmac secret code last window rounds reached ≡ step_used found)
        × (found ≤ step)
  unfolding try_steps
  try_steps_complete zero reached step match fresh above below = absurd (omega arith)
  try_steps_complete (suc rounds) reached step match fresh above below =
      let tried = reached - window in
      let unused = fresh-is_used last step fresh in
      let later = λ (g : reached ≢ step + window).
        try_steps_complete rounds (reached + 1) step match fresh (omega arith) (omega arith) in
      elim (Bool-cases (ltb reached window || is_used last tried)) [
        | inl skipped ↦ rw skipped (
            later (λ here.
              let at_step : tried ≡ step = omega arith in
              cc (
                skipped_absurd reached window (is_used last tried) skipped (omega arith),
                unused,
                at_step,
              )))
        | inr unskipped ↦
            let (other, computed) = totp_code-cases hmac secret step tried match in
            rw (unskipped, computed)
              (elim (Bool-cases (text_eq other code)) [
                | inl same ↦ rw same (tried, refl, omega arith)
                | inr different ↦ rw different (
                    later (λ here.
                      let at_step : tried ≡ step = omega arith in
                      cc (different, (text_eq_iff other code).1 (some_inv (cc)))))
              ])
      ]

no_step-absurd : {found : ℕ} → no_step ≡ step_used found → ⊥
no_step-absurd h = cc

is_code-decimal : (value : ℕ) → is_code (decimal 6 value) ≡ true
unfolding is_code decimal
is_code-decimal value = ground arith

generated-code :
    (hmac : Hmac) (first : ℕ) (rest : List ℕ) (step : ℕ)
    → All (λ byte. byte < 256) (first ∷ rest)
    → totp_code hmac (generate_totp_secret (first ∷ rest)) step
      ≡ some (code_of hmac step (first ∷ rest))
unfolding generate_totp_secret totp_code decimal
generated-code hmac first rest step bytes =
    rw (totp_code, decode_base32-encode_base32 first rest bytes) refl

module _ (hmac : Hmac) (secret typed : Text) (now : ℕ) (window last : Option ℕ) where
  -- A step that `verifyTotp` gives has the code that was typed, spaces and dashes apart; it is later
  -- than the last step that was used, and in the window round the current step.
  pub verify_totp-step_used :
      {found : ℕ}
      → verify_totp hmac secret typed now window last ≡ step_used found
      → (totp_code hmac secret found ≡ some (clean_code typed))
        × IsFresh last found
        × (step_at now ≤ found + window_of window)
        × (found ≤ step_at now + window_of window)
  unfolding verify_totp
  verify_totp-step_used {found} h = elim (Bool-cases (is_code (clean_code typed))) [
    | inl good ↦
        let (match, fresh, above, below) =
          try_steps_sound hmac secret (clean_code typed) last (window_of window)
            (2 * window_of window + 1) (step_at now) {found = found} (rw good at h) in
        (match, fresh, omega arith, omega arith)
    | inr bad ↦ absurd (no_step-absurd (rw bad at h))
  ]

module _ (hmac : Hmac) (first : ℕ) (rest : List ℕ) (typed : Text) (now : ℕ)
    (window last : Option ℕ) where
  -- The code that an authenticator with the same key shows for a step in the window that is later
  -- than the last one used is accepted, however it is spaced: the secret that the server made from
  -- the bytes of the key always decodes, and the step that is given is that one or an earlier one.
  pub verify_totp-accepts :
      (step : ℕ)
      → All (λ byte. byte < 256) (first ∷ rest)
      → clean_code typed ≡ code_of hmac step (first ∷ rest)
      → IsFresh last step
      → step_at now ≤ step + window_of window
      → step ≤ step_at now + window_of window
      → (found : ℕ) × (verify_totp hmac (generate_totp_secret (first ∷ rest)) typed now window last
          ≡ step_used found)
        × (found ≤ step)
  unfolding verify_totp
  verify_totp-accepts step bytes shown fresh above below =
      let secret = generate_totp_secret (first ∷ rest) in
      let code : is_code (clean_code typed) ≡ true =
        rw shown
          (is_code-decimal (truncate (hmac (first ∷ rest) (counter_buffer 8 step)) % 10 ^ 6)) in
      rw code (
        try_steps_complete hmac secret (clean_code typed) last (window_of window)
          (2 * window_of window + 1) (step_at now) step
          (generated-code hmac first rest step bytes ∙ ap some (sym shown)) fresh above
          (omega arith))
