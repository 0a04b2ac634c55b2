-- ===== src/Auth/Mobile/Rotation.antt =====
-- A refresh token is good for one rotation.
use moatazalasrai.Prelude.{
  ℕ, ◌≡◌, inl, inr, refl, subst, true, false, List, [], ◌∷◌, Option, none, some, ◌==◌, arith,
  Bool-cases, Option-cases, any, All, find_row, update_rows, ==_iff,
}
use moatazalasrai.Api.{Failure, ok, err, api, refresh_token_invalid}
use moatazalasrai.Auth.Members.{Member, is_active_member}
use moatazalasrai.Auth.Mobile.{
  Hash, MobileSession, Fresh, Tokens, may_refresh, rotated_row, is_current, clashes_at, rotate_read,
  rotate_session,
}
use moatazalasrai.Auth.Mobile.Calls.{
  Call, apply_calls, MakesOther, has_refresh, IsDistinct, update-absent, apply_calls-absent,
}

failed : {failure : Failure} {tokens : Tokens} → err failure ≡ ok tokens → ⊥
failed h = cc

current-refresh :
    (id h : ℕ) (x : MobileSession) → is_current id h x ≡ true → (x.refresh_hash == h) ≡ true
current-refresh id h x e = ground arith

found-refresh :
    (id h : ℕ) (rows : List MobileSession) {s : MobileSession}
    → find_row (is_current id h) rows ≡ some s
    → has_refresh h rows ≡ true
unfolding find_row
found-refresh id h [] e = cc
found-refresh id h (x ∷ rows) {s} e = elim (Bool-cases (is_current id h x)) [
  | inl taken ↦ rw (current-refresh id h x taken) refl
  | inr passed ↦ elim (Bool-cases (x.refresh_hash == h)) [
    | inl same ↦ rw same refl
    | inr different ↦ rw different (found-refresh id h rows {s = s} (rw passed at e))
  ]
]

only_here :
    (h : ℕ) (x : MobileSession) (rows : List MobileSession)
    → has_refresh x.refresh_hash rows ≡ false
    → (x.refresh_hash == h) ≡ true
    → has_refresh h rows ≡ false
only_here h x rows absent e =
    subst (λ a. has_refresh a rows ≡ false) ((==_iff x.refresh_hash h).0 e) absent

-- The update of a rotation takes the hash out of the table.
rotated-absent :
    (hash : Hash) (id h : ℕ) (fresh : Fresh) (now : ℕ) (membership : Option ℕ)
    (rows : List MobileSession) {s : MobileSession}
    → IsDistinct rows
    → (hash fresh.refresh == h) ≡ false
    → find_row (is_current id h) rows ≡ some s
    → has_refresh h (update_rows (is_current id h) (rotated_row hash fresh now membership) rows)
      ≡ false
unfolding update_rows find_row
rotated-absent hash id h fresh now membership [] d e found = cc
rotated-absent hash id h fresh now membership (x ∷ rows) {s} d e found =
    elim (Bool-cases (is_current id h x)) [
      | inl taken ↦
          let absent = only_here h x rows d.0 (current-refresh id h x taken) in
          rw (taken, e)
            (update-absent h (is_current id h) (rotated_row hash fresh now membership) rows
              (λ y same. e) absent)
      | inr passed ↦ elim (Bool-cases (x.refresh_hash == h)) [
        | inl same ↦
            absurd (
              cc
                (found-refresh id h rows {s = s} (rw passed at found), only_here h x rows d.0 same))
        | inr different ↦
            rw (passed, different)
              (rotated-absent hash id h fresh now membership rows {s = s} d.1 e
                (rw passed at found))
      ]
    ]

exchanged-absent :
    (hash : Hash) (token : ℕ) (fresh : Fresh) (now : ℕ) (members : List Member)
    (rows : List MobileSession) {tokens : Tokens}
    → IsDistinct rows
    → (rotate_session hash token fresh now members rows).0 ≡ ok tokens
    → (hash fresh.refresh == hash token) ≡ false
    → has_refresh (hash token) (rotate_session hash token fresh now members rows).1 ≡ false
unfolding rotate_session rotate_read
exchanged-absent hash token fresh now members rows {tokens} d exchanged e =
    elim (Option-cases (find_row (may_refresh (hash token) now) rows)) [
      | inl unknown ↦ absurd (failed (rw (unknown, rotate_session) at exchanged))
      | inr (current, read) ↦
          elim (Option-cases
            (find_row (is_active_member current.organization current.user now) members)) [
              | inl left ↦
                  absurd (failed (rw (read, left, rotate_session, rotate_read) at exchanged))
              | inr (m, found) ↦
                  elim (Option-cases (find_row (is_current current.id (hash token)) rows)) [
                    | inl missing ↦ absurd (
                        failed
                          (rw (read, found, missing, rotate_session, rotate_read) at exchanged))
                    | inr (s, there) ↦
                        elim (Bool-cases (any (clashes_at hash current.id fresh) rows)) [
                          | inl clash ↦ absurd (
                              failed (
                                rw (read, found, there, clash, rotate_session, rotate_read) at
                                  exchanged))
                          | inr free ↦
                              rw (read, found, there, free, rotate_session, rotate_read)
                                (rotated-absent hash current.id (hash token) fresh now m.expires_at
                                  rows {s = s} d e there)
                        ]
                  ]
            ]
    ]

absent-none :
    (h now : ℕ) (rows : List MobileSession)
    → has_refresh h rows ≡ false
    → find_row (may_refresh h now) rows ≡ none
unfolding find_row
absent-none h now [] a = refl
absent-none h now (s ∷ rows) a = ground (arith, absent-none h now rows)

-- A refresh token that has been exchanged is refused ever after: whatever sessions are issued,
-- rotated or revoked in between, if no token that is made later has its hash, and if no two sessions
-- had the same hash at the exchange, as the unique column makes sure.
pub rotate_session-once :
    (hash : Hash) (token : ℕ) (fresh again : Fresh) (now later : ℕ) (members others : List Member)
    (rows : List MobileSession) (calls : List Call) {tokens : Tokens}
    → IsDistinct rows
    → (rotate_session hash token fresh now members rows).0 ≡ ok tokens
    → (hash fresh.refresh == hash token) ≡ false
    → All (MakesOther hash (hash token)) calls
    → (rotate_session hash token again later others
        (apply_calls hash calls (rotate_session hash token fresh now members rows).1)).0
      ≡ err (api 401 refresh_token_invalid)
unfolding rotate_session
rotate_session-once hash token fresh again now later members others rows calls {tokens} d exchanged
      e other =
    let after = (rotate_session hash token fresh now members rows).1 in
    rw
      (
        absent-none (hash token) later (apply_calls hash calls after) (
            apply_calls-absent hash (hash token) calls after other
              (exchanged-absent hash token fresh now members rows {tokens = tokens} d exchanged e)),
        rotate_session,
      )
      refl
