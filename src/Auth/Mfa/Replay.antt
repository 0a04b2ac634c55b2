-- ===== src/Auth/Mfa/Replay.antt =====
-- No code of the second factor is accepted twice.
use moatazalasrai.Prelude.{
  ℕ, ◌+◌, ◌≤◌, ◌≡◌, inl, inr, sym, ◌∙◌, subst, Bool, false, List, [], ◌∷◌, ◌++◌, Option, none, some,
  ◌==◌, if◌then◌else◌, arith, Bool-cases, Option-cases, ==_iff, none-ne-some, some_inv,
}
use moatazalasrai.Prelude.Text.{Text}
use moatazalasrai.Security.Totp.{Verified, step_used, no_step, bad_secret}
use moatazalasrai.Security.Totp.Laws.{IsFresh, verify_totp-step_used}
use moatazalasrai.Auth.Mfa.{
  Crypto, Credential, MfaDb, Judgement, recovered, stepped, judge, of_verified, accept,
  count_failure, without_hash, hash_recovery_code, typed_code,
}
use moatazalasrai.Auth.Mfa.Rows.{
  Attempt, login, row_of, checked, is_accepted, unchanged, wrong, by_recovery, by_step, outcome,
  login-row, login-row_other,
}

-- What an accepted attempt has used up: a step, or the hash of a recovery code.
pub data Used : Type 0 where
  used_step : ℕ → Used
  used_code : ℕ → Used

abbrev pub used_by : Crypto → Text → Judgement → List Used
used_by crypto text (stepped step) = used_step step ∷ []
used_by crypto text (recovered left) = used_code (hash_recovery_code crypto text) ∷ []
used_by crypto text _ = []

unfoldable pub uses : Crypto → Attempt → Credential → List Used
uses crypto a c =
    if is_accepted (checked crypto a c).0
    then elim (typed_code a.code) [
      | none ↦ []
      | some text ↦ used_by crypto text (judge crypto a.later text c)
    ]
    else []

abbrev uses_row : Crypto → Attempt → Option Credential → List Used
uses_row crypto a none = []
uses_row crypto a (some c) = uses crypto a c

-- What the accepted attempts on the account of a user have used up, in order.
unfoldable pub accepted_uses : Crypto → ℕ → List Attempt → MfaDb → List Used
accepted_uses crypto user [] db = []
accepted_uses crypto user (a ∷ attempts) db =
    (if a.user == user then uses_row crypto a (row_of user db) else [])
    ++ accepted_uses crypto user attempts (login crypto a db).1

-- Every step is later than the one before it.
abbrev pub IsIncreasing : Option ℕ → List Used → Type 0
IsIncreasing last [] = Unit {0}
IsIncreasing last (used_step step ∷ used) = IsFresh last step × IsIncreasing (some step) used
IsIncreasing last (used_code hash ∷ used) = IsIncreasing last used

abbrev is_code_of : ℕ → Used → Bool
is_code_of hash (used_step step) = false
is_code_of hash (used_code h) = h == hash

-- How often a hash has been used, and is there.
abbrev pub count_code : ℕ → List Used → ℕ
count_code hash [] = 0
count_code hash (u ∷ used) = (if is_code_of hash u then 1 else 0) + count_code hash used

abbrev pub count : ℕ → List ℕ → ℕ
count hash [] = 0
count hash (h ∷ hashes) = (if h == hash then 1 else 0) + count hash hashes

count-without :
    (g hash : ℕ) (hashes left : List ℕ)
    → without_hash hash hashes ≡ some left
    → count g hashes ≡ count g left + (if hash == g then 1 else 0)
unfolding without_hash
count-without g hash [] left h = cc
count-without g hash (x ∷ hashes) left h = elim (Bool-cases (x == hash)) [
  | inl here ↦
      let same : hashes ≡ left = some_inv (rw here at h) in
      let equal = (==_iff x hash).0 here in rw (equal, same) (omega arith)
  | inr later ↦ elim (Option-cases (without_hash hash hashes)) [
    | inl missing ↦ absurd (none-ne-some (rw (later, missing) at h))
    | inr (rest, found) ↦
        let whole : x ∷ rest ≡ left = some_inv (rw (later, found) at h) in
        rw (← whole) (omega (arith, count-without g hash hashes rest found))
  ]
]

recovered-stepped : {left : List ℕ} {step : ℕ} → recovered left ≡ stepped step → ⊥
recovered-stepped h = cc

of_verified-stepped :
    (verified : Verified) {step : ℕ}
    → of_verified verified ≡ stepped step
    → verified ≡ step_used step
of_verified-stepped (step_used s) h = cc
of_verified-stepped no_step h = cc
of_verified-stepped bad_secret h = cc

of_verified-recovered :
    (verified : Verified) {left : List ℕ} → of_verified verified ≡ recovered left → ⊥
of_verified-recovered (step_used s) h = cc
of_verified-recovered no_step h = cc
of_verified-recovered bad_secret h = cc

-- The two judgements that accept.
judge-stepped :
    (crypto : Crypto) (now : ℕ) (text : Text) (c : Credential) (step : ℕ)
    → judge crypto now text c ≡ stepped step
    → IsFresh c.last_used_step step
unfolding judge
judge-stepped crypto now text c step h =
    elim (Option-cases (without_hash (hash_recovery_code crypto text) c.recovery_hashes)) [
      | inr (left, found) ↦ absurd (recovered-stepped (rw (found, judge) at h))
      | inl missing ↦
          (verify_totp-step_used crypto.hmac c.secret text now none c.last_used_step {found = step}
            (of_verified-stepped _ (rw (missing, judge) at h))).1
    ]

judge-recovered :
    (crypto : Crypto) (now : ℕ) (text : Text) (c : Credential) (left : List ℕ)
    → judge crypto now text c ≡ recovered left
    → without_hash (hash_recovery_code crypto text) c.recovery_hashes ≡ some left
unfolding judge
judge-recovered crypto now text c left h =
    elim (Option-cases (without_hash (hash_recovery_code crypto text) c.recovery_hashes)) [
      | inl missing ↦ absurd (of_verified-recovered _ (rw (missing, judge) at h))
      | inr (others, found) ↦ cc (found, rw (found, judge) at h)
    ]

-- What an attempt uses up, before what is used up after it.
module _ (crypto : Crypto) (a : Attempt) (c : Credential) where
  uses-IsIncreasing :
      (rest : List Used)
      → IsIncreasing (checked crypto a c).1.last_used_step rest
      → IsIncreasing c.last_used_step (uses crypto a c ++ rest)
  unfolding uses count_failure accept
  uses-IsIncreasing rest later = elim (outcome crypto a c) [
    | unchanged answer right refused e ↦ rw (e, refused) (rw e at later)
    | wrong text tried found e ↦ rw e (rw e at later)
    | by_recovery text left (on, unlocked, typed) found e ↦ rw (e, typed, found) (rw e at later)
    | by_step text step (on, unlocked, typed) found e ↦
        rw (e, typed, found) (judge-stepped crypto a.later text c step found, (rw e at later))
  ]

  uses-count :
      (g : ℕ) (rest : List Used)
      → count_code g rest ≤ count g (checked crypto a c).1.recovery_hashes
      → count_code g (uses crypto a c ++ rest) ≤ count g c.recovery_hashes
  unfolding uses count_failure accept
  uses-count g rest later = elim (outcome crypto a c) [
    | unchanged answer right refused e ↦ rw (e, refused) (rw e at later)
    | wrong text tried found e ↦ rw e (rw e at later)
    | by_recovery text left (on, unlocked, typed) found e ↦
        let fewer =
          count-without g (hash_recovery_code crypto text) c.recovery_hashes left
            (judge-recovered crypto a.later text c left found) in
        let bound : count_code g rest ≤ count g left = rw e at later in
        rw (e, typed, found) (omega (arith, fewer, bound))
    | by_step text step (on, unlocked, typed) found e ↦
        let bound : count_code g rest ≤ count g c.recovery_hashes = rw e at later in
        rw (e, typed, found) (omega (arith, bound))
  ]

-- The steps whose codes are accepted, in any sequence of logins of any users, get later and later,
-- starting after the last one that the row holds; and a recovery code is accepted at most as often
-- as its hash stands in the row. So no code of a step, and no recovery code, is accepted twice.
pub accepted_uses-once :
    (crypto : Crypto) (user : ℕ) (attempts : List Attempt) (db : MfaDb) {c : Credential}
    → row_of user db ≡ some c
    → IsIncreasing c.last_used_step (accepted_uses crypto user attempts db)
      × ((hash : ℕ)
          → count_code hash (accepted_uses crypto user attempts db) ≤ count hash c.recovery_hashes)
unfolding accepted_uses
accepted_uses-once crypto user [] db h = (tt, λ hash. omega arith)
accepted_uses-once crypto user (a ∷ attempts) db {c} h = elim (Bool-cases (a.user == user)) [
  | inr other ↦ rw other (
      accepted_uses-once crypto user attempts (login crypto a db).1 {c = c}
        (login-row_other crypto a db user other ∙ h))
  | inl own ↦
      let same : a.user ≡ user = (==_iff a.user user).0 own in
      let (answer, row) =
        login-row crypto a db {c = c} (subst (λ u. row_of u db ≡ some c) (sym same) h) in
      let (increasing, counted) =
        accepted_uses-once crypto user attempts (login crypto a db).1 {c = (checked crypto a c).1}
          (subst (λ u. row_of u (login crypto a db).1 ≡ some (checked crypto a c).1) same row) in
      rw (own, h)
        (
          uses-IsIncreasing crypto a c _ increasing,
          λ hash. uses-count crypto a c hash _ (counted hash),
        )
]
