-- ===== src/Auth/Challenge/Outcomes.antt =====
-- What a verification of a challenge answers, and what it does to the challenges.
use moatazalasrai.Prelude.{
  ℕ, ◌≡◌, inl, inr, refl, subst, Bool, true, false, ◌&&◌, not, List, some, ◌==◌, ltb, arith, length,
  Bool-cases, Option-cases, find_row, any, select_rows, update_rows,
}
use moatazalasrai.Api.{Failure, Response, ok, err, Response-cases}
use moatazalasrai.Auth.Members.{Member, is_member, is_active_member}
use moatazalasrai.Auth.Mfa.{Crypto, Credential, is_code_invalid}
use moatazalasrai.Auth.Mobile.{
  Hash, MobileSession, IssueInput, IssueTimes, Fresh, issue_session, upsert_session, session_row,
  of_device, clashes,
}
use moatazalasrai.Auth.Challenge.{
  issue_times, Challenge, LoginDb, Login, VerifyInput, max_attempts, has_token, is_used, admit,
  of_id, count_attempt, use_row, is_unused, is_open, finish_login, settle_code, verify_challenge,
}

abbrev pub is_login : Response Login → Bool
is_login (ok login) = true
is_login (err failure) = false

abbrev pub is_wrong : Response Login → Bool
is_wrong (ok login) = false
is_wrong (err failure) = is_code_invalid failure

stays : {A : Type 0} {a : A} {failure : Failure} → ok a ≡ err failure → ⊥
stays h = cc

same_failure : {A : Type 0} {e f : Failure} → Path (Response A) (err e) (err f) → e ≡ f
same_failure h = cc

upsert_session-failure :
    (new : MobileSession) (rows : List MobileSession) {failure : Failure}
    → upsert_session new rows ≡ err failure
    → is_code_invalid failure ≡ false
unfolding upsert_session
upsert_session-failure new rows {failure} e =
    elim (Bool-cases (any (λ s. not (of_device new.user new.device s) && clashes new s) rows)) [
      | inl clash ↦
          subst (λ f. is_code_invalid f ≡ false) (same_failure (rw (clash, upsert_session) at e))
            refl
      | inr free ↦ elim (Option-cases (find_row (of_device new.user new.device) rows)) [
        | inl missing ↦ absurd (stays (rw (free, missing, upsert_session) at e))
        | inr (old, found) ↦ absurd (stays (rw (free, found, upsert_session) at e))
      ]
    ]

-- A new session is never refused as a wrong code.
issue_session-failure :
    (hash : Hash) (input : IssueInput) (fresh : Fresh) (times : IssueTimes) (members : List Member)
    (rows : List MobileSession) {failure : Failure}
    → issue_session hash input fresh times members rows ≡ err failure
    → is_code_invalid failure ≡ false
unfolding issue_session
issue_session-failure hash input fresh times members rows {failure} e =
    elim (Option-cases
      (find_row (is_active_member input.organization input.user times.selected) members)) [
        | inl outside ↦ ground (arith, rw (outside, issue_session) at e)
        | inr (m, found) ↦
            let new = session_row hash input fresh times m.expires_at in
            elim (Response-cases (upsert_session new rows)) [
              | inl (after, stored) ↦ absurd (stays (rw (found, stored, issue_session) at e))
              | inr (broken, failed) ↦
                  subst (λ f. is_code_invalid f ≡ false)
                    (same_failure (rw (found, failed, issue_session) at e))
                    (upsert_session-failure new rows failed)
            ]
      ]

-- What a verification answers, and what it does to the challenges.
pub data Outcome (h now : ℕ) (before : List Challenge) (answer : Response Login)
    (after : List Challenge) : Type 0 where
  refused :
      is_login answer ≡ false
      → is_wrong answer ≡ false
      → after ≡ before
      → Outcome h now before answer after
  wrong :
      (c : Challenge)
      → find_row (has_token h) before ≡ some c
      → ltb c.attempts max_attempts ≡ true
      → is_login answer ≡ false
      → after ≡ update_rows (of_id c.id) count_attempt before
      → Outcome h now before answer after
  left :
      (c : Challenge)
      → is_login answer ≡ false
      → is_wrong answer ≡ false
      → after ≡ update_rows (is_unused c.id) (use_row now) before
      → Outcome h now before answer after
  entered :
      (c : Challenge)
      → find_row (has_token h) before ≡ some c
      → is_used c.used_at ≡ false
      → (length (select_rows (is_open c.id now) before) == 1) ≡ true
      → is_wrong answer ≡ false
      → after ≡ update_rows (is_open c.id now) (use_row now) before
      → Outcome h now before answer after

pub admit-ok :
    (now : ℕ) (c : Challenge) {a : Unit {0}}
    → admit now c ≡ ok a
    → (is_used c.used_at ≡ false)
      × (ltb now c.expires_at ≡ true)
      × (ltb c.attempts max_attempts ≡ true)
unfolding admit
admit-ok now c {a} e = ground arith

admit-failure :
    (now : ℕ) (c : Challenge) {failure : Failure}
    → admit now c ≡ err failure
    → is_code_invalid failure ≡ false
unfolding admit
admit-failure now c {failure} e = ground arith

finish_login-Outcome :
    (hash : Hash) (input : VerifyInput) (members : List Member) (c : Challenge)
    (credentials : List Credential) (db : LoginDb)
    → find_row (has_token (hash input.token)) db.challenges ≡ some c
    → is_used c.used_at ≡ false
    → Outcome
        (hash input.token)
        input.times.begun
        db.challenges
        (finish_login hash input members c credentials db).0
        (finish_login hash input members c credentials db).1.challenges
unfolding finish_login
finish_login-Outcome hash input members c credentials db found unused =
    let i : IssueInput = record {
      user = c.user;
      organization = c.organization;
      device = c.device;
      remember = c.remember;
    } in
    elim (Response-cases
      (issue_session hash i input.fresh (issue_times input.times) members db.sessions)) [
        | inr (failure, failed) ↦
            rw (failed, finish_login)
              (refused refl
                (issue_session-failure hash i input.fresh (issue_times input.times) members
                  db.sessions failed)
                refl)
        | inl (issued, made) ↦
            elim (Bool-cases
              (length (select_rows (is_open c.id input.times.begun) db.challenges) == 1)) [
                | inl one ↦ rw (made, one, finish_login) (entered c found unused one refl refl)
                | inr gone ↦ rw (made, gone, finish_login) (refused refl refl refl)
              ]
      ]

settle_code-Outcome :
    (hash : Hash) (input : VerifyInput) (members : List Member) (c : Challenge) (db : LoginDb)
    (judged : Response Bool × List Credential)
    → find_row (has_token (hash input.token)) db.challenges ≡ some c
    → is_used c.used_at ≡ false
    → ltb c.attempts max_attempts ≡ true
    → Outcome
        (hash input.token)
        input.times.begun
        db.challenges
        (settle_code hash input members c db judged).0
        (settle_code hash input members c db judged).1.challenges
unfolding settle_code
settle_code-Outcome hash input members c db (err failure, credentials) found unused few =
    elim (Bool-cases (is_code_invalid failure)) [
      | inl invalid ↦ rw invalid (wrong c found few refl refl)
      | inr different ↦ rw different (refused refl different refl)
    ]
settle_code-Outcome hash input members c db (ok verified, credentials) found unused few =
    elim (Bool-cases (length (select_rows (is_member c.organization c.user) members) == 1)) [
      | inl one ↦ rw one (finish_login-Outcome hash input members c credentials db found unused)
      | inr gone ↦ rw gone (left c refl refl refl)
    ]

pub verify_challenge-Outcome :
    (crypto : Crypto) (hash : Hash) (input : VerifyInput) (members : List Member) (db : LoginDb)
    → Outcome
        (hash input.token)
        input.times.begun
        db.challenges
        (verify_challenge crypto hash input members db).0
        (verify_challenge crypto hash input members db).1.challenges
unfolding verify_challenge
verify_challenge-Outcome crypto hash input members db =
    elim (Option-cases (find_row (has_token (hash input.token)) db.challenges)) [
      | inl unknown ↦ rw (unknown, verify_challenge) (refused refl refl refl)
      | inr (c, found) ↦ elim (Response-cases (admit input.times.checked c)) [
        | inr (failure, failed) ↦
            rw (found, failed, verify_challenge)
              (refused refl (admit-failure input.times.checked c failed) refl)
        | inl (admitted, passed) ↦
            let (unused, fresh, few) = admit-ok input.times.checked c passed in
            rw (found, passed, verify_challenge)
              (settle_code-Outcome hash input members c db _ found unused few)
      ]
    ]
