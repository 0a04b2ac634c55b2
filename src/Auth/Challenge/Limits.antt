-- ===== src/Auth/Challenge/Limits.antt =====
-- How often the token of one challenge is answered.
use moatazalasrai.Prelude.{
  find_row-append, ℕ, ◌+◌, ◌≤◌, inl, inr, Bool, ◌&&◌, ◌||◌, List, [], ◌∷◌, Option, ◌==◌, arith,
  Bool-cases, Option-cases, find_row, any, ||-inv,
}
use moatazalasrai.Api.{Response}
use moatazalasrai.Auth.Members.{Member}
use moatazalasrai.Auth.Mfa.{Crypto, Credential}
use moatazalasrai.Auth.Mobile.{Hash, MobileSession, IssueInput}
use moatazalasrai.Auth.Challenge.{
  Challenge, LoginDb, Login, VerifyInput, max_attempts, has_id, has_token, new_challenge,
  issue_challenge, verify_challenge,
}
use moatazalasrai.Auth.Challenge.Rows.{IsKeyed, append-IsKeyed}
use moatazalasrai.Auth.Challenge.Outcomes.{is_login, is_wrong, verify_challenge-Outcome}
use moatazalasrai.Auth.Challenge.Budget.{
  tally, budget, tickets, spends_budget, spends_tickets, keeps_keys, new_row, budget-limit,
  tickets-limit,
}

-- What changes the tables; what other code makes of the credentials and the sessions is arbitrary.
pub data Call : Type 0 where
  issue : IssueInput → ℕ → ℕ → ℕ → Call
  verify : VerifyInput → List Member → Call
  other : List Credential → List MobileSession → Call

unfoldable pub after_call : Crypto → Hash → Call → LoginDb → LoginDb
after_call crypto hash (issue input id token now) db =
    (issue_challenge hash input id token now db).1
after_call crypto hash (verify input members) db = (verify_challenge crypto hash input members db).1
after_call crypto hash (other credentials sessions) db = record db {
  credentials = credentials;
  sessions = sessions;
}

-- Whether a call verifies a token with the given hash, and its answer passes a test.
unfoldable pub hits : (Response Login → Bool) → Crypto → Hash → ℕ → Call → LoginDb → ℕ
hits test crypto hash h (verify input members) db =
    tally (hash input.token == h && test (verify_challenge crypto hash input members db).0)
hits test crypto hash h _ db = 0

unfoldable pub answers : (Response Login → Bool) → Crypto → Hash → ℕ → List Call → LoginDb → ℕ
answers test crypto hash h [] db = 0
answers test crypto hash h (call ∷ calls) db =
    hits test crypto hash h call db
    + answers test crypto hash h calls (after_call crypto hash call db)

abbrev row : ℕ → LoginDb → Option Challenge
row h db = find_row (has_token h) db.challenges

-- A new challenge has the whole of both.
issued-row :
    (hash : Hash) (input : IssueInput) (id token now h : ℕ) (db : LoginDb)
    → (budget (row h (issue_challenge hash input id token now db).1) ≤ budget (row h db))
      × (tickets (row h (issue_challenge hash input id token now db).1) ≤ tickets (row h db))
unfolding issue_challenge
issued-row hash input id token now h db =
    let new = new_challenge hash input id token now in
    elim (Bool-cases (has_id id db.challenges || any (has_token (hash token)) db.challenges)) [
      | inl clash ↦ rw clash (omega arith, omega arith)
      | inr free ↦ elim (Option-cases (row h db)) [
        | inr (c, found) ↦
            rw (free, find_row-append (has_token h) db.challenges new, found)
              (omega arith, omega arith)
        | inl missing ↦
            rw (free, find_row-append (has_token h) db.challenges new, missing)
              (new_row new (hash token == h))
      ]
    ]

issued-IsKeyed :
    (hash : Hash) (input : IssueInput) (id token now : ℕ) (db : LoginDb)
    → IsKeyed db.challenges
    → IsKeyed (issue_challenge hash input id token now db).1.challenges
unfolding issue_challenge
issued-IsKeyed hash input id token now db k =
    elim (Bool-cases (has_id id db.challenges || any (has_token (hash token)) db.challenges)) [
      | inl clash ↦ rw clash k
      | inr free ↦ rw free (
          append-IsKeyed db.challenges (new_challenge hash input id token now)
            (||-inv (has_id id db.challenges) _ free).0 k)
    ]

module _ (crypto : Crypto) (hash : Hash) (h : ℕ) where
  call-spends :
      (call : Call) (db : LoginDb)
      → IsKeyed db.challenges
      → (hits is_wrong crypto hash h call db + budget (row h (after_call crypto hash call db))
          ≤ budget (row h db))
        × (hits is_login crypto hash h call db + tickets (row h (after_call crypto hash call db))
            ≤ tickets (row h db))
        × IsKeyed (after_call crypto hash call db).challenges
  unfolding hits after_call
  call-spends (issue input id token now) db k =
      let (same, also) = issued-row hash input id token now h db in
      (omega (arith, same), omega (arith, also), issued-IsKeyed hash input id token now db k)
  call-spends (verify input members) db k =
      let (answer, after) = verify_challenge crypto hash input members db in
      let o = verify_challenge-Outcome crypto hash input members db in
      (
        spends_budget h (hash input.token) input.times.begun db.challenges after.challenges answer
            o,
        spends_tickets h (hash input.token) input.times.begun db.challenges after.challenges answer
            k o,
        keeps_keys h (hash input.token) input.times.begun db.challenges after.challenges answer k o,
      )
  call-spends (other credentials sessions) db k = (omega arith, omega arith, k)

  answers-budget :
      (calls : List Call) (db : LoginDb)
      → IsKeyed db.challenges
      → (answers is_wrong crypto hash h calls db ≤ budget (row h db))
        × (answers is_login crypto hash h calls db ≤ tickets (row h db))
  unfolding answers
  answers-budget [] db k = (omega arith, omega arith)
  answers-budget (call ∷ calls) db k =
      let (wrong_left, logins_left, keyed) = call-spends call db k in
      let (wrong_rest, logins_rest) = answers-budget calls (after_call crypto hash call db) keyed in
      (omega (arith, wrong_left, wrong_rest), omega (arith, logins_left, logins_rest))

-- However often the token of a challenge is tried, with whatever codes, among the calls for other
-- challenges and whatever happens to the second factors and the sessions in between: it makes one
-- login at most, and at most five of its codes are judged and found wrong, if no two challenges have
-- the same id at the start, as the primary key makes sure.
pub challenge_answers-limit :
    (crypto : Crypto) (hash : Hash) (token : ℕ) (calls : List Call) (db : LoginDb)
    → IsKeyed db.challenges
    → (answers is_login crypto hash (hash token) calls db ≤ 1)
      × (answers is_wrong crypto hash (hash token) calls db ≤ max_attempts)
challenge_answers-limit crypto hash token calls db k =
    let (wrong_left, logins_left) = answers-budget crypto hash (hash token) calls db k in
    (
      omega (arith, logins_left, tickets-limit (row (hash token) db)),
      omega (arith, wrong_left, budget-limit (row (hash token) db)),
    )
