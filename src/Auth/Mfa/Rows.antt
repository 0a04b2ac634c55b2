-- ===== src/Auth/Mfa/Rows.antt =====
-- Logins with the second factor, one after the other, and what each does to the row of a user.
use moatazalasrai.Prelude.{
  ℕ, ◌≡◌, ◌⊎◌, inl, inr, refl, ◌∙◌, Bool, true, false, List, [], ◌∷◌, Option, none, some, ◌==◌,
  arith, Bool-cases, Option-cases, find_row, update_rows, find_row_sound, ==_iff,
}
use moatazalasrai.Prelude.Text.{Text}
use moatazalasrai.Api.{
  api, internal, mfa_code_invalid, mfa_temporarily_locked, mfa_required, Response, ok, err,
}
use moatazalasrai.Auth.Mfa.{
  Crypto, Credential, MfaDb, Judgement, recovered, stepped, invalid, broken, judge, settle, accept,
  count_failure, is_locked, typed_code, check_row, owned_by, find_credential, put_credential,
  verify_with_client, is_code_invalid, commit_login, verify_for_login,
}

-- A login at a time, which reads the clock again a little later.
pub record Attempt : Type 0 where
  pub user : ℕ
  pub now : ℕ
  pub later : ℕ
  pub code : Option Text

unfoldable pub login : Crypto → Attempt → MfaDb → Response Bool × MfaDb
login crypto a db = verify_for_login crypto a.now a.later a.user a.code db

abbrev pub row_of : ℕ → MfaDb → Option Credential
row_of user db = find_credential user db.credentials

unfoldable pub checked : Crypto → Attempt → Credential → Response Bool × Credential
checked crypto a credential = check_row crypto a.now a.later a.code credential

-- The two answers that change the row.
abbrev pub is_wrong : Response Bool → Bool
is_wrong (ok verified) = false
is_wrong (err failure) = is_code_invalid failure

abbrev pub is_accepted : Response Bool → Bool
is_accepted (ok verified) = verified
is_accepted (err failure) = false

abbrev pub IsTried : Attempt → Credential → Text → Type 0
IsTried a c text =
    (c.enabled ≡ true) × (is_locked c a.now ≡ false) × (typed_code a.code ≡ some text)

-- What an attempt comes to: no change, a wrong code that is counted, or a right code.
pub data Outcome (crypto : Crypto) (a : Attempt) (c : Credential) : Type 0 where
  unchanged :
      (answer : Response Bool)
      → is_wrong answer ≡ false
      → is_accepted answer ≡ false
      → checked crypto a c ≡ (answer, c)
      → Outcome crypto a c
  wrong :
      (text : Text)
      → IsTried a c text
      → judge crypto a.later text c ≡ invalid
      → checked crypto a c ≡ (err (api 401 mfa_code_invalid), count_failure a.later c)
      → Outcome crypto a c
  by_recovery :
      (text : Text) (left : List ℕ)
      → IsTried a c text
      → judge crypto a.later text c ≡ recovered left
      → checked crypto a c ≡ (ok true, accept none left c)
      → Outcome crypto a c
  by_step :
      (text : Text) (step : ℕ)
      → IsTried a c text
      → judge crypto a.later text c ≡ stepped step
      → checked crypto a c ≡ (ok true, accept (some step) c.recovery_hashes c)
      → Outcome crypto a c

module _ (crypto : Crypto) (a : Attempt) (c : Credential) where
  judged :
      (text : Text) (judgement : Judgement)
      → IsTried a c text
      → judge crypto a.later text c ≡ judgement
      → checked crypto a c ≡ settle judgement a.later c
      → Outcome crypto a c
  judged text (recovered left) tried found e = by_recovery text left tried found e
  judged text (stepped step) tried found e = by_step text step tried found e
  judged text invalid tried found e = wrong text tried found e
  judged text broken tried found e = unchanged (err internal) refl refl e

  pub outcome : Outcome crypto a c
  unfolding checked check_row
  outcome = elim (Bool-cases c.enabled) [
    | inr off ↦ unchanged (ok false) refl refl (simp off)
    | inl on ↦ elim (Bool-cases (is_locked c a.now)) [
      | inl locked ↦ unchanged (err (api 423 mfa_temporarily_locked)) refl refl (simp (on, locked))
      | inr open_now ↦ elim (Option-cases (typed_code a.code)) [
        | inl missing ↦
            unchanged (err (api 428 mfa_required)) refl refl (simp (on, open_now, missing))
        | inr (text, typed) ↦
            judged text (judge crypto a.later text c) (on, open_now, typed) refl
              (simp (on, open_now, typed))
      ]
    ]
  ]

  pub checked-user : (checked crypto a c).1.user ≡ c.user
  unfolding count_failure accept
  checked-user = elim outcome [
    | unchanged answer right refused e ↦ rw e refl
    | wrong text tried found e ↦ rw e refl
    | by_recovery text left tried found e ↦ rw e refl
    | by_step text step tried found e ↦ rw e refl
  ]

-- The row of a user after a write to it, and after one to another's.
find-put :
    (user : ℕ) (c x : Credential) (rows : List Credential)
    → c.user ≡ user
    → find_credential user rows ≡ some x
    → find_credential user (put_credential user c rows) ≡ some c
unfolding find_credential put_credential find_row update_rows
find-put user c x [] e h = cc
find-put user c x (r ∷ rows) e h = ground (arith, find-put user c x rows)

find-put_other :
    (user other : ℕ) (c : Credential) (rows : List Credential)
    → c.user ≡ other
    → (other == user) ≡ false
    → find_credential user (put_credential other c rows) ≡ find_credential user rows
unfolding find_credential put_credential find_row update_rows
find-put_other user other c [] e h = refl
find-put_other user other c (r ∷ rows) e h = ground (arith, find-put_other user other c rows)

abbrev pub same_user : Credential → Credential → Bool
same_user c d = c.user == d.user

find_credential-user :
    (user : ℕ) (rows : List Credential) {c : Credential}
    → find_credential user rows ≡ some c
    → c.user ≡ user
unfolding find_credential
find_credential-user user rows {c} h =
    (==_iff c.user user).0 (find_row_sound (owned_by user) rows {x = c} h)

verify-found :
    (crypto : Crypto) (a : Attempt) (rows : List Credential) {c : Credential}
    → find_credential a.user rows ≡ some c
    → verify_with_client crypto a.now a.later a.user a.code rows
      ≡ ((checked crypto a c).0, put_credential a.user (checked crypto a c).1 rows)
unfolding verify_with_client checked
verify-found crypto a rows h = rw (h, verify_with_client) refl

verify-missing :
    (crypto : Crypto) (a : Attempt) (rows : List Credential)
    → find_credential a.user rows ≡ none
    → verify_with_client crypto a.now a.later a.user a.code rows ≡ (ok false, rows)
unfolding verify_with_client
verify-missing crypto a rows h = rw (h, verify_with_client) refl

commit-answer :
    (user : ℕ) (db : MfaDb) (answer : Response Bool) (rows : List Credential)
    → (commit_login user db (answer, rows)).0 ≡ answer
commit-answer user db (ok verified) rows = refl
commit-answer user db (err failure) rows = refl

-- A transaction that rolls back leaves the rows as they were, any other writes them.
commit-rows :
    (user : ℕ) (db : MfaDb) (answer : Response Bool) (rows : List Credential)
    → ((commit_login user db (answer, rows)).1.credentials ≡ rows)
      ⊎ (((commit_login user db (answer, rows)).1 ≡ db)
          × (is_wrong answer ≡ false)
          × (is_accepted answer ≡ false))
commit-rows user db (ok verified) rows = inl refl
commit-rows user db (err failure) rows = elim (Bool-cases (is_code_invalid failure)) [
  | inl committed ↦ inl (rw committed refl)
  | inr other ↦ inr (rw other refl, other, refl)
]

-- An answer that is neither leaves the row as it was.
unchanged-row :
    (crypto : Crypto) (a : Attempt) (c : Credential)
    → is_wrong (checked crypto a c).0 ≡ false
    → is_accepted (checked crypto a c).0 ≡ false
    → (checked crypto a c).1 ≡ c
unchanged-row crypto a c w t = elim (outcome crypto a c) [
  | unchanged answer right refused e ↦ rw e refl
  | wrong text tried found e ↦ absurd (cc (rw e at w))
  | by_recovery text left tried found e ↦ absurd (cc (rw e at t))
  | by_step text step tried found e ↦ absurd (cc (rw e at t))
]

module _ (crypto : Crypto) (a : Attempt) (db : MfaDb) where
  -- The row that a login has checked is written back, whether it commits or rolls back.
  pub login-row :
      {c : Credential}
      → row_of a.user db ≡ some c
      → ((login crypto a db).0 ≡ (checked crypto a c).0)
        × (row_of a.user (login crypto a db).1 ≡ some (checked crypto a c).1)
  unfolding login verify_for_login
  login-row {c} h =
      let (answer, after) = checked crypto a c in
      let rows = put_credential a.user after db.credentials in
      let written =
        find-put a.user after c db.credentials
          (checked-user crypto a c ∙ find_credential-user a.user db.credentials {c = c} h) h in
      rw (verify-found crypto a db.credentials {c = c} h) (
        commit-answer a.user db answer rows,
        elim (commit-rows a.user db answer rows) [
          | inl committed ↦ rw committed written
          | inr (rolled_back, right, refused) ↦
              rw (rolled_back, unchanged-row crypto a c right refused) h
        ],
      )

  pub login-row_none : row_of a.user db ≡ none → login crypto a db ≡ (ok false, db)
  unfolding login verify_for_login
  login-row_none h = rw (verify-missing crypto a db.credentials h) refl

  pub login-row_other :
      (user : ℕ) → (a.user == user) ≡ false → row_of user (login crypto a db).1 ≡ row_of user db
  unfolding login verify_for_login
  login-row_other user h = elim (Option-cases (row_of a.user db)) [
    | inl missing ↦ rw (login-row_none missing) refl
    | inr (c, found) ↦
        let (answer, after) = checked crypto a c in
        let rows = put_credential a.user after db.credentials in
        rw (verify-found crypto a db.credentials {c = c} found)
          (elim (commit-rows a.user db answer rows) [
            | inl committed ↦ rw committed (
                find-put_other user a.user after db.credentials
                  (checked-user crypto a c
                    ∙ find_credential-user a.user db.credentials {c = c} found)
                  h)
            | inr (rolled_back, right, refused) ↦ rw rolled_back refl
          ])
  ]
