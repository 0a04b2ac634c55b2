-- ===== src/Auth/Challenge/Access.antt =====
-- What a login by a challenge takes.
use moatazalasrai.Prelude.{
  ◌≡◌, inl, inr, refl, sym, ap, Bool, true, false, List, some, ◌==◌, ltb, length, Bool-cases,
  Option-cases, find_row, select_rows,
}
use moatazalasrai.Api.{Failure, Response, ok, err, Response-cases}
use moatazalasrai.Auth.Members.{Member, is_member, is_active_member}
use moatazalasrai.Auth.Mfa.{Crypto, Credential, verify_with_client}
use moatazalasrai.Auth.Mobile.{
  Hash, MobileSession, IssueInput, IssueTimes, Fresh, Tokens, issue_session,
}
use moatazalasrai.Auth.Challenge.{
  issue_times, Challenge, LoginDb, Login, VerifyInput, max_attempts, has_token, is_used, admit,
  is_open, finish_login, settle_code, verify_challenge,
}
use moatazalasrai.Auth.Challenge.Outcomes.{admit-ok}

abbrev pub issue_input : Challenge → IssueInput
issue_input c = record {
  user = c.user;
  organization = c.organization;
  device = c.device;
  remember = c.remember;
}

-- The challenge was unused, fresh and not locked, the second factor of its user let the code pass,
-- and its user was a member of its organization whose access had not run out when the transaction
-- began.
abbrev pub IsAdmitted :
    Crypto → Hash → VerifyInput → List Member → LoginDb → Login → Challenge → Type 0
IsAdmitted crypto hash input members db login c =
    (find_row (has_token (hash input.token)) db.challenges ≡ some c)
    × (is_used c.used_at ≡ false)
    × (ltb input.times.checked c.expires_at ≡ true)
    × (ltb c.attempts max_attempts ≡ true)
    × ((verified : Bool) × ((verify_with_client crypto input.times.login input.times.judged c.user
            (some input.code) db.credentials).0
          ≡ ok verified))
    × ((m : Member) × (find_row (is_active_member c.organization c.user input.times.begun) members
          ≡ some m))
    × (login.user ≡ c.user)
    × (login.organization ≡ c.organization)

stuck : {login : Login} {failure : Failure} → err failure ≡ ok login → ⊥
stuck h = cc

same_login : {a b : Login} → ok a ≡ ok b → a ≡ b
same_login h = cc

outsider : {issued : Tokens × List MobileSession} {failure : Failure} → err failure ≡ ok issued → ⊥
outsider h = cc

issue_session-active :
    (hash : Hash) (input : IssueInput) (fresh : Fresh) (times : IssueTimes) (members : List Member)
    (rows : List MobileSession) {issued : Tokens × List MobileSession}
    → issue_session hash input fresh times members rows ≡ ok issued
    → (m : Member) × (find_row
          (is_active_member input.organization input.user times.selected)
          members
        ≡ some m)
unfolding issue_session
issue_session-active hash input fresh times members rows {issued} e =
    elim (Option-cases
      (find_row (is_active_member input.organization input.user times.selected) members)) [
        | inl outside ↦ absurd (outsider (rw (outside, issue_session) at e))
        | inr (m, found) ↦ (m, found)
      ]

settled-ok :
    (hash : Hash) (input : VerifyInput) (members : List Member) (c : Challenge) (db : LoginDb)
    (judged : Response Bool × List Credential) {login : Login}
    → (settle_code hash input members c db judged).0 ≡ ok login
    → ((verified : Bool) × (judged.0 ≡ ok verified))
      × ((m : Member) × (find_row (is_active_member c.organization c.user input.times.begun) members
            ≡ some m))
      × (login.user ≡ c.user)
      × (login.organization ≡ c.organization)
unfolding settle_code finish_login
settled-ok hash input members c db (err failure, credentials) e = absurd (stuck e)
settled-ok hash input members c db (ok verified, credentials) {login} e =
    elim (Bool-cases (length (select_rows (is_member c.organization c.user) members) == 1)) [
      | inr gone ↦ absurd (stuck (rw gone at e))
      | inl one ↦
          elim (Response-cases (
            issue_session hash (issue_input c) input.fresh (issue_times input.times) members
              db.sessions)) [
                | inr (failure, failed) ↦ absurd (stuck (rw (one, failed, finish_login) at e))
                | inl (issued, made) ↦
                    let active =
                      issue_session-active hash (issue_input c) input.fresh
                        (issue_times input.times) members db.sessions made in
                    elim (Bool-cases
                      (length (select_rows (is_open c.id input.times.begun) db.challenges) == 1)) [
                        | inr closed ↦ absurd (stuck (rw (one, made, closed, finish_login) at e))
                        | inl open_one ↦
                            let same = same_login (rw (one, made, open_one, finish_login) at e) in
                            (
                              (verified, refl),
                              active,
                              ap (λ l. l.user) (sym same),
                              ap (λ l. l.organization) (sym same),
                            )
                      ]
              ]
    ]

-- A token and a code make a login only if the token has an unused challenge that has neither run out
-- nor been locked by five wrong codes, the second factor of its user lets the code pass, and the
-- user was, when the transaction began, a member of the organization whose access had not run out;
-- the login is for that user and organization.
pub verify_challenge-ok :
    (crypto : Crypto) (hash : Hash) (input : VerifyInput) (members : List Member) (db : LoginDb)
    {login : Login}
    → (verify_challenge crypto hash input members db).0 ≡ ok login
    → (c : Challenge) × IsAdmitted crypto hash input members db login c
unfolding verify_challenge
verify_challenge-ok crypto hash input members db {login} e =
    elim (Option-cases (find_row (has_token (hash input.token)) db.challenges)) [
      | inl unknown ↦ absurd (stuck (rw (unknown, verify_challenge) at e))
      | inr (c, found) ↦ elim (Response-cases (admit input.times.checked c)) [
        | inr (failure, failed) ↦ absurd (stuck (rw (found, failed, verify_challenge) at e))
        | inl (admitted, passed) ↦
            let (unused, fresh, few) = admit-ok input.times.checked c passed in
            let (verified, member, user, organization) =
              settled-ok hash input members c db _ {login = login}
                (rw (found, passed, verify_challenge) at e) in
            (c, (found, unused, fresh, few, verified, member, user, organization))
      ]
    ]
