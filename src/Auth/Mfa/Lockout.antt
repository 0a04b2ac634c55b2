-- ===== src/Auth/Mfa/Lockout.antt =====
-- How many wrong codes can be tried against the second factor of a user.
use moatazalasrai.Prelude.{
  ℕ, ◌+◌, ◌-◌, ◌*◌, ◌≤◌, ◌≡◌, ◌⊎◌, inl, inr, refl, sym, ◌∙◌, subst, Bool, false, ◌&&◌, ◌||◌, List,
  [], ◌∷◌, some, ◌==◌, leb, if◌then◌else◌, arith, Bool-cases, All, ==_iff, ||-inv,
}
use moatazalasrai.Auth.Mfa.{
  Crypto, Credential, MfaDb, failure_limit, lock_ms, count_failure, is_locked,
}
use moatazalasrai.Auth.Mfa.Rows.{
  Attempt, login, row_of, checked, is_wrong, is_accepted, unchanged, wrong, by_recovery, by_step,
  outcome, login-row, login-row_other,
}

-- How many attempts on the account of the user are answered as a wrong code, and whether one is
-- accepted.
unfoldable pub wrong_codes : Crypto → ℕ → List Attempt → MfaDb → ℕ
wrong_codes crypto user [] db = 0
wrong_codes crypto user (a ∷ attempts) db =
    let (answer, after) = login crypto a db in
    (if a.user == user && is_wrong answer then 1 else 0) + wrong_codes crypto user attempts after

unfoldable pub any_accepted : Crypto → ℕ → List Attempt → MfaDb → Bool
any_accepted crypto user [] db = false
any_accepted crypto user (a ∷ attempts) db =
    let (answer, after) = login crypto a db in
    (a.user == user && is_accepted answer) || any_accepted crypto user attempts after

abbrev pub IsBetween : ℕ → ℕ → Attempt → Type 0
IsBetween start stop a = (a.now ≤ a.later) × (start ≤ a.later) × (a.later ≤ stop)

-- From the fifth failure on the row is locked, and each failure has moved the lock on.
abbrev IsPaced : ℕ → ℕ → Credential → Type 0
IsPaced start stop c =
    (c.failed_attempts ≤ 4)
    ⊎ ((until : ℕ) × (c.locked_until ≡ some until)
        × (c.failed_attempts * lock_ms + start ≤ until + 4 * lock_ms)
        × (until ≤ stop + lock_ms))

locked-until :
    (c : Credential) (now until : ℕ)
    → is_locked c now ≡ false
    → c.locked_until ≡ some until
    → until ≤ now
locked-until c now until h e = ground arith

count_failure-IsPaced :
    (start stop : ℕ) (a : Attempt) (c : Credential)
    → IsBetween start stop a
    → is_locked c a.now ≡ false
    → IsPaced start stop c
    → IsPaced start stop (count_failure a.later c)
unfolding count_failure
count_failure-IsPaced start stop a c (ordered, above, below) unlocked (inl few) =
    elim (Bool-cases (leb 5 (c.failed_attempts + 1))) [
      | inl fifth ↦ inr (a.later + lock_ms, rw fifth refl, ground arith, omega arith)
      | inr early ↦ inl (ground arith)
    ]
count_failure-IsPaced start stop a c (ordered, above, below) unlocked
      (inr (until, locked, moved, bound)) =
    let passed : until ≤ a.now = locked-until c a.now until unlocked locked in
    elim (Bool-cases (leb 5 (c.failed_attempts + 1))) [
      | inl fifth ↦ inr (a.later + lock_ms, rw fifth refl, omega arith, omega arith)
      | inr early ↦ inl (ground arith)
    ]

checked-IsPaced :
    (crypto : Crypto) (start stop : ℕ) (a : Attempt) (c : Credential)
    → IsBetween start stop a
    → IsPaced start stop c
    → is_accepted (checked crypto a c).0 ≡ false
    → IsPaced start stop (checked crypto a c).1
      × ((checked crypto a c).1.failed_attempts
          ≡ c.failed_attempts + (if is_wrong (checked crypto a c).0 then 1 else 0))
checked-IsPaced crypto start stop a c times paced refused = elim (outcome crypto a c) [
  | unchanged answer right not_accepted e ↦ rw (e, right) (paced, omega arith)
  | wrong text (on, unlocked, typed) found e ↦
      rw e (count_failure-IsPaced start stop a c times unlocked paced, unfold count_failure in refl)
  | by_recovery text left tried found e ↦ absurd (cc (rw e at refused))
  | by_step text step tried found e ↦ absurd (cc (rw e at refused))
]

module _ (crypto : Crypto) (user start stop : ℕ) where
  wrong_codes-paced :
      (attempts : List Attempt) (db : MfaDb) (c : Credential)
      → All (IsBetween start stop) attempts
      → row_of user db ≡ some c
      → IsPaced start stop c
      → any_accepted crypto user attempts db ≡ false
      → (c.failed_attempts + wrong_codes crypto user attempts db) * lock_ms
        ≤ 5 * lock_ms + (stop - start)
  unfolding wrong_codes any_accepted
  wrong_codes-paced [] db c times found (inl few) refused = omega arith
  wrong_codes-paced [] db c times found (inr (until, locked, moved, bound)) refused = omega arith
  wrong_codes-paced (a ∷ attempts) db c times found paced refused =
      let (now_refused, then_refused) =
        ||-inv (a.user == user && is_accepted (login crypto a db).0) _ refused in
      elim (Bool-cases (a.user == user)) [
        | inr other ↦
            let rest =
              wrong_codes-paced attempts (login crypto a db).1 c times.1
                (login-row_other crypto a db user other ∙ found) paced then_refused in
            rw other (omega (arith, rest))
        | inl own ↦
            let same : a.user ≡ user = (==_iff a.user user).0 own in
            let (answer, row) =
              login-row crypto a db {c = c} (subst (λ u. row_of u db ≡ some c) (sym same) found) in
            let refused_now : is_accepted (checked crypto a c).0 ≡ false =
              rw (← answer) (rw own at now_refused) in
            let (paced_after, counted) =
              checked-IsPaced crypto start stop a c times.0 paced refused_now in
            let rest =
              wrong_codes-paced attempts (login crypto a db).1 (checked crypto a c).1 times.1
                (subst (λ u. row_of u (login crypto a db).1 ≡ some (checked crypto a c).1) same row)
                paced_after then_refused in
            rw (own, answer) (omega (arith, rest, counted))
      ]

-- However many codes are tried on the account of a user, in whatever order and among the logins of
-- other users, between a start with no failures and a stop: as long as none is accepted, at most
-- five of them are judged and found wrong, and one more for each quarter of an hour between the
-- start and the stop.
pub wrong_codes-limit :
    (crypto : Crypto) (user start stop : ℕ) (attempts : List Attempt) (db : MfaDb) {c : Credential}
    → row_of user db ≡ some c
    → c.failed_attempts ≡ 0
    → All (IsBetween start stop) attempts
    → any_accepted crypto user attempts db ≡ false
    → wrong_codes crypto user attempts db * lock_ms ≤ failure_limit * lock_ms + (stop - start)
wrong_codes-limit crypto user start stop attempts db {c} found none_yet times refused = omega (
  arith,
  none_yet,
  wrong_codes-paced crypto user start stop attempts db c times found (inl (omega arith)) refused,
)
