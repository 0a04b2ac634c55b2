-- ===== src/Auth/Mobile/Calls.antt =====
-- What changes the sessions of the mobile application, and that it makes only new hashes.
use moatazalasrai.Prelude.{
  ℕ, ◌≡◌, inl, inr, refl, subst, Bool, false, ◌&&◌, not, List, [], ◌∷◌, ◌++◌, ◌==◌, arith,
  Bool-cases, Option-cases, any, All, find_row, update_rows, ||-inv,
}
use moatazalasrai.Api.{Response, ok, err, internal, Response-cases}
use moatazalasrai.Auth.Members.{Member, is_active_member}
use moatazalasrai.Auth.Mobile.{
  Hash, MobileSession, IssueInput, IssueTimes, Fresh, Tokens, of_device, session_row, clashes,
  upsert_session, issue_session, revoke_row, rotated_row, is_current, clashes_at, rotate_read,
  revoke_session,
}

-- What changes the sessions; a rotation goes on from a row that was read at any earlier time, and
-- the members are those of the moment.
pub data Call : Type 0 where
  issue : IssueInput → Fresh → IssueTimes → List Member → Call
  rotate : ℕ → Fresh → ℕ → List Member → MobileSession → Call
  revoke : ℕ → ℕ → Call

abbrev or_rows : List MobileSession → Response (Tokens × List MobileSession) → List MobileSession
or_rows rows (ok (tokens, after)) = after
or_rows rows (err failure) = rows

unfoldable pub apply_call : Hash → Call → List MobileSession → List MobileSession
apply_call hash (issue input fresh now members) rows =
    or_rows rows (issue_session hash input fresh now members rows)
apply_call hash (rotate token fresh now members current) rows =
    (rotate_read hash token fresh now members current rows).1
apply_call hash (revoke token now) rows = revoke_session hash token now rows

unfoldable pub apply_calls : Hash → List Call → List MobileSession → List MobileSession
apply_calls hash [] rows = rows
apply_calls hash (call ∷ calls) rows = apply_calls hash calls (apply_call hash call rows)

-- No refresh token that a call makes has the given hash.
abbrev pub MakesOther : Hash → ℕ → Call → Type 0
MakesOther hash h (issue input fresh now members) = (hash fresh.refresh == h) ≡ false
MakesOther hash h (rotate token fresh now members current) = (hash fresh.refresh == h) ≡ false
MakesOther hash h (revoke token now) = Unit {0}

abbrev pub has_refresh : ℕ → List MobileSession → Bool
has_refresh h = any λ s. s.refresh_hash == h

-- The column is unique.
abbrev pub IsDistinct : List MobileSession → Type 0
IsDistinct [] = Unit {0}
IsDistinct (s ∷ rows) = (has_refresh s.refresh_hash rows ≡ false) × IsDistinct rows

pub update-absent :
    (h : ℕ) (p : MobileSession → Bool) (f : MobileSession → MobileSession)
    (rows : List MobileSession)
    → ((s : MobileSession) → (s.refresh_hash == h) ≡ false → ((f s).refresh_hash == h) ≡ false)
    → has_refresh h rows ≡ false
    → has_refresh h (update_rows p f rows) ≡ false
unfolding update_rows
update-absent h p f [] e a = refl
update-absent h p f (s ∷ rows) e a =
    let (other, absent) = ||-inv (s.refresh_hash == h) (has_refresh h rows) a in
    elim (Bool-cases (p s)) [
      | inl taken ↦ rw (taken, e s other, update-absent h p f rows e absent) refl
      | inr passed ↦ rw (passed, other, update-absent h p f rows e absent) refl
    ]

append-absent :
    (h : ℕ) (rows : List MobileSession) (new : MobileSession)
    → (new.refresh_hash == h) ≡ false
    → has_refresh h rows ≡ false
    → has_refresh h (rows ++ new ∷ []) ≡ false
append-absent h [] new e a = rw e refl
append-absent h (s ∷ rows) new e a = ground (arith, append-absent h rows new)

refused : {after : List MobileSession} → err internal ≡ ok after → ⊥
refused h = cc

same_rows : {xs ys : List MobileSession} → ok xs ≡ ok ys → xs ≡ ys
same_rows h = cc

upsert-absent :
    (h : ℕ) (new : MobileSession) (rows : List MobileSession) {after : List MobileSession}
    → (new.refresh_hash == h) ≡ false
    → has_refresh h rows ≡ false
    → upsert_session new rows ≡ ok after
    → has_refresh h after ≡ false
unfolding upsert_session
upsert-absent h new rows {after} e a stored =
    elim (Bool-cases (any (λ s. not (of_device new.user new.device s) && clashes new s) rows)) [
      | inl clash ↦ absurd (refused (rw (clash, upsert_session) at stored))
      | inr free ↦ elim (Option-cases (find_row (of_device new.user new.device) rows)) [
        | inl missing ↦
            subst (λ xs. has_refresh h xs ≡ false)
              (same_rows (rw (free, missing, upsert_session) at stored))
              (append-absent h rows new e a)
        | inr (old, found) ↦
            subst (λ xs. has_refresh h xs ≡ false)
              (same_rows (rw (free, found, upsert_session) at stored))
              (update-absent h (of_device new.user new.device) (λ s. record new { id = s.id }) rows
                (λ s same. e) a)
      ]
    ]

issue-absent :
    (hash : Hash) (h : ℕ) (input : IssueInput) (fresh : Fresh) (times : IssueTimes)
    (members : List Member) (rows : List MobileSession)
    → (hash fresh.refresh == h) ≡ false
    → has_refresh h rows ≡ false
    → has_refresh h (or_rows rows (issue_session hash input fresh times members rows)) ≡ false
unfolding issue_session
issue-absent hash h input fresh times members rows e a =
    elim (Option-cases
      (find_row (is_active_member input.organization input.user times.selected) members)) [
        | inl outside ↦ rw (outside, issue_session) a
        | inr (m, found) ↦
            let new = session_row hash input fresh times m.expires_at in
            elim (Response-cases (upsert_session new rows)) [
              | inr (failure, failed) ↦ rw (found, failed, issue_session) a
              | inl (after, stored) ↦
                  rw (found, stored, issue_session)
                    (upsert-absent h new rows {after = after} e a stored)
            ]
      ]

rotate-absent :
    (hash : Hash) (h token : ℕ) (fresh : Fresh) (now : ℕ) (members : List Member)
    (current : MobileSession) (rows : List MobileSession)
    → (hash fresh.refresh == h) ≡ false
    → has_refresh h rows ≡ false
    → has_refresh h (rotate_read hash token fresh now members current rows).1 ≡ false
unfolding rotate_read
rotate-absent hash h token fresh now members current rows e a =
    elim (Option-cases
      (find_row (is_active_member current.organization current.user now) members)) [
        | inl left ↦
            rw (left, rotate_read)
              (update-absent h (λ s. s.id == current.id) (revoke_row now) rows (λ s same. same) a)
        | inr (m, found) ↦
            elim (Option-cases (find_row (is_current current.id (hash token)) rows)) [
              | inl missing ↦ rw (found, missing, rotate_read) a
              | inr (s, there) ↦ elim (Bool-cases (any (clashes_at hash current.id fresh) rows)) [
                | inl clash ↦ rw (found, there, clash, rotate_read) a
                | inr free ↦
                    rw (found, there, free, rotate_read)
                      (update-absent h (is_current current.id (hash token))
                        (rotated_row hash fresh now m.expires_at) rows (λ s same. e) a)
              ]
            ]
      ]

pub apply_calls-absent :
    (hash : Hash) (h : ℕ) (calls : List Call) (rows : List MobileSession)
    → All (MakesOther hash h) calls
    → has_refresh h rows ≡ false
    → has_refresh h (apply_calls hash calls rows) ≡ false
unfolding apply_calls apply_call revoke_session
apply_calls-absent hash h [] rows other a = a
apply_calls-absent hash h (issue input fresh now members ∷ calls) rows other a =
    apply_calls-absent hash h calls _ other.1
      (issue-absent hash h input fresh now members rows other.0 a)
apply_calls-absent hash h (rotate token fresh now members current ∷ calls) rows other a =
    apply_calls-absent hash h calls _ other.1
      (rotate-absent hash h token fresh now members current rows other.0 a)
apply_calls-absent hash h (revoke token now ∷ calls) rows other a =
    apply_calls-absent hash h calls _ other.1
      (update-absent h (λ s. s.refresh_hash == hash token) (revoke_row now) rows (λ s same. same) a)
