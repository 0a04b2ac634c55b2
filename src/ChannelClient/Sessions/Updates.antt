-- ===== src/ChannelClient/Sessions/Updates.antt =====
-- What one statement does to the version of a session.
use moatazalasrai.Prelude.{
  ℕ, ◌+◌, ◌≡◌, inl, inr, refl, Bool, true, false, ◌&&◌, List, none, some, if◌then◌else◌, arith,
  Bool-cases, Option-cases, find_row-update, find_row-append, find_row, update_rows, find_row_sound,
  any,
}
use moatazalasrai.Api.{api, channel_session_conflict, Response, ok, err}
use moatazalasrai.ChannelClient.Sessions.{
  Channel, Session, Patch, apply_patch, is_row, is_read, update_session, EnsureInput, of_external,
  new_session, move_row, takes_user, upsert_session,
}
use moatazalasrai.ChannelClient.Sessions.Rows.{
  IsKeyed, as_row, keyed-read, itself, unread, update-IsKeyed, append-IsKeyed,
}

-- The statements that change the rows.
pub data Call : Type 0 where
  upsert : EnsureInput → Call
  update : Session → Patch → Call

abbrev pub is_ok : Response Session → Bool
is_ok (ok s) = true
is_ok (err failure) = false

-- How many updates of the row of a channel with an id are accepted.
abbrev pub tally : Channel → ℕ → Call → List Session → ℕ
tally channel id (upsert input) rows = 0
tally channel id (update seen patch) rows =
    if is_row channel id seen && is_ok (update_session seen patch rows).0 then 1 else 0

patched-row :
    (channel : Channel) (id : ℕ) (patch : Patch) (s : Session)
    → is_row channel id (apply_patch patch s) ≡ is_row channel id s
unfolding apply_patch
patched-row channel id patch s = refl

-- The row after an update, with its version.
abbrev Counted : List Session → Session → Patch → Session → Channel → ℕ → Type 0
Counted rows seen patch r channel id =
    (after : Session) × (find_row (is_row channel id) (update_session seen patch rows).1
      ≡ some after)
    × (after.version ≡ r.version + tally channel id (update seen patch) rows)

module _ (seen : Session) (patch : Patch) (rows : List Session) where
  pub update_session-missing :
      find_row (is_read seen) rows ≡ none
      → update_session seen patch rows ≡ (err (api 409 channel_session_conflict), rows)
  unfolding update_session
  update_session-missing e = rw (e, update_session) refl

  pub update_session-found :
      {s : Session}
      → find_row (is_read seen) rows ≡ some s
      → update_session seen patch rows
        ≡ (ok (apply_patch patch s), update_rows (is_read seen) (apply_patch patch) rows)
  unfolding update_session
  update_session-found e = rw (e, update_session) refl

module _ (seen : Session) (patch : Patch) (rows : List Session) {r : Session} where
  own-version :
      IsKeyed rows
      → find_row (is_row seen.channel seen.id) rows ≡ some r
      → Counted rows seen patch r seen.channel seen.id
  unfolding apply_patch
  own-version k there =
      let moved =
        find_row-update (is_row seen.channel seen.id) (is_read seen) (apply_patch patch) rows
          (patched-row seen.channel seen.id patch) in
      let read = keyed-read seen rows {r = r} k there in
      elim (Bool-cases (is_read seen r)) [
        | inl taken ↦
            let found : find_row (is_read seen) rows ≡ some r = rw taken at read in
            rw (update_session-found seen patch rows found, itself seen, moved, there, taken)
              (apply_patch patch r, refl, refl)
        | inr passed ↦
            let missing : find_row (is_read seen) rows ≡ none = rw passed at read in
            rw (update_session-missing seen patch rows missing, itself seen) (r, there, omega arith)
      ]

  other-version :
      (channel : Channel) (id : ℕ)
      → is_row channel id seen ≡ false
      → find_row (is_row channel id) rows ≡ some r
      → Counted rows seen patch r channel id
  unfolding apply_patch
  other-version channel id theirs there =
      let moved =
        find_row-update (is_row channel id) (is_read seen) (apply_patch patch) rows
          (patched-row channel id patch) in
      elim (Option-cases (find_row (is_read seen) rows)) [
        | inl missing ↦
            rw (update_session-missing seen patch rows missing, theirs) (r, there, omega arith)
        | inr (s, found) ↦
            rw
              (
                update_session-found seen patch rows found,
                theirs,
                moved,
                there,
                unread channel id seen theirs r (find_row_sound (is_row channel id) rows there),
              )
              (r, refl, omega arith)
      ]

  pub update-version :
      (channel : Channel) (id : ℕ)
      → IsKeyed rows
      → find_row (is_row channel id) rows ≡ some r
      → Counted rows seen patch r channel id
  update-version channel id k there = elim (Bool-cases (is_row channel id seen)) [
    | inl mine ↦
        as_row (λ c i. find_row (is_row c i) rows ≡ some r → Counted rows seen patch r c i) channel
          id seen mine (own-version k) there
    | inr theirs ↦ other-version channel id theirs there
  ]

moved-version :
    (input : EnsureInput) (r : Session) (b : Bool)
    → (if b then move_row input r else r).version ≡ r.version
moved-version input r true = refl
moved-version input r false = refl

-- What an upsert does to the row with an id, and to the keys.
pub upsert-version :
    (channel : Channel) (id : ℕ) (input : EnsureInput) (rows : List Session) {r : Session}
    → IsKeyed rows
    → find_row (is_row channel id) rows ≡ some r
    → ((after : Session) × (find_row (is_row channel id) (upsert_session input rows).1 ≡ some after)
        × (after.version ≡ r.version))
      × IsKeyed (upsert_session input rows).1
unfolding upsert_session
upsert-version channel id input rows {r} k there = elim (Bool-cases (any (takes_user input) rows)) [
  | inl taken ↦ rw taken ((r, there, refl), k)
  | inr free ↦ elim (Option-cases (find_row (of_external input) rows)) [
    | inl missing ↦ elim (Bool-cases (any (is_row input.channel input.new_id) rows)) [
      | inl clash ↦ rw (free, missing, clash) ((r, there, refl), k)
      | inr fresh ↦
          rw (free, missing, fresh)
            (
              rw (find_row-append (is_row channel id) rows (new_session input), there)
                  (r, refl, refl),
              append-IsKeyed rows (new_session input) fresh k,
            )
    ]
    | inr (s, found) ↦
        let moved =
          find_row-update (is_row channel id) (of_external input) (move_row input) rows
            (λ x. refl) in
        rw (free, found)
          (
            rw (moved, there)
                (
                  if of_external input r then move_row input r else r,
                  refl,
                  moved-version input r (of_external input r),
                ),
            update-IsKeyed (of_external input) (move_row input) rows (λ x. refl) (λ x. refl)
                (λ c i x. refl) k,
          )
  ]
]

pub update_session-IsKeyed :
    (seen : Session) (patch : Patch) (rows : List Session)
    → IsKeyed rows
    → IsKeyed (update_session seen patch rows).1
unfolding update_session apply_patch
update_session-IsKeyed seen patch rows k = elim (Option-cases (find_row (is_read seen) rows)) [
  | inl missing ↦ rw (missing, update_session) k
  | inr (s, found) ↦
      rw (found, update_session)
        (update-IsKeyed (is_read seen) (apply_patch patch) rows (λ x. refl) (λ x. refl)
          (λ c i x. refl) k)
]
