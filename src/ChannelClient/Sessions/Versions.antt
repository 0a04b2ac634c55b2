-- ===== src/ChannelClient/Sessions/Versions.antt =====
-- The version of a session counts the updates that it has taken, so that none is lost.
use moatazalasrai.Prelude.{
  ℕ, ◌+◌, ◌≡◌, inl, inr, refl, ◌∙◌, true, List, [], ◌∷◌, none, some, ◌==◌, arith, Bool-cases,
  find_row, find_row_sound,
}
use moatazalasrai.ChannelClient.Sessions.{
  Channel, Session, Patch, is_row, is_read, update_session, upsert_session,
}
use moatazalasrai.ChannelClient.Sessions.Rows.{IsKeyed, keyed-read}
use moatazalasrai.ChannelClient.Sessions.Updates.{
  Call, upsert, update, is_ok, tally, update-version, upsert-version, update_session-missing,
  update_session-found, update_session-IsKeyed,
}

unfoldable pub apply_call : Call → List Session → List Session
apply_call (upsert input) rows = (upsert_session input rows).1
apply_call (update seen patch) rows = (update_session seen patch rows).1

unfoldable pub apply_calls : List Call → List Session → List Session
apply_calls [] rows = rows
apply_calls (call ∷ calls) rows = apply_calls calls (apply_call call rows)

unfoldable pub accepted : Channel → ℕ → List Call → List Session → ℕ
accepted channel id [] rows = 0
accepted channel id (call ∷ calls) rows =
    tally channel id call rows + accepted channel id calls (apply_call call rows)

calls-version :
    (channel : Channel) (id : ℕ) (calls : List Call) (rows : List Session) {r : Session}
    → IsKeyed rows
    → find_row (is_row channel id) rows ≡ some r
    → ((after : Session) × (find_row (is_row channel id) (apply_calls calls rows) ≡ some after)
        × (after.version ≡ r.version + accepted channel id calls rows))
      × IsKeyed (apply_calls calls rows)
unfolding apply_calls apply_call accepted
calls-version channel id [] rows {r} k there = ((r, there, omega arith), k)
calls-version channel id (upsert input ∷ calls) rows {r} k there =
    let ((s, found, same), keyed) = upsert-version channel id input rows {r = r} k there in
    let ((after, last, counted), keys) =
      calls-version channel id calls (upsert_session input rows).1 {r = s} keyed found in
    ((after, last, omega (arith, same, counted)), keys)
calls-version channel id (update seen patch ∷ calls) rows {r} k there =
    let (s, found, one) = update-version seen patch rows {r = r} channel id k there in
    let ((after, last, counted), keys) =
      calls-version channel id calls (update_session seen patch rows).1 {r = s}
        (update_session-IsKeyed seen patch rows k) found in
    ((after, last, omega (arith, one, counted)), keys)

accepted-read :
    (seen : Session) (patch : Patch) (rows : List Session) {t : Session}
    → IsKeyed rows
    → find_row (is_row seen.channel seen.id) rows ≡ some t
    → is_ok (update_session seen patch rows).0 ≡ is_read seen t
accepted-read seen patch rows {t} k there =
    let read = keyed-read seen rows {r = t} k there in
    elim (Bool-cases (is_read seen t)) [
      | inl taken ↦
          let found : find_row (is_read seen) rows ≡ some t = rw taken at read in
          rw (update_session-found seen patch rows found, taken) refl
      | inr passed ↦
          let missing : find_row (is_read seen) rows ≡ none = rw passed at read in
          rw (update_session-missing seen patch rows missing, passed) refl
    ]

read-version :
    (seen t : Session) (n : ℕ)
    → is_row seen.channel seen.id t ≡ true
    → t.version ≡ seen.version + n
    → is_read seen t ≡ (n == 0)
read-version seen t n mine counted = rw mine (ground arith)

-- No update is lost: an update from a session that was read at some time is accepted exactly if no
-- update of that session, by whomever, has been accepted since then, whatever updates and upserts
-- have come between. The ids of each table are distinct at the start, as the primary keys make sure.
pub update_session-fresh :
    (seen : Session) (patch : Patch) (calls : List Call) (rows : List Session)
    → IsKeyed rows
    → find_row (is_row seen.channel seen.id) rows ≡ some seen
    → is_ok (update_session seen patch (apply_calls calls rows)).0
      ≡ (accepted seen.channel seen.id calls rows == 0)
update_session-fresh seen patch calls rows k there =
    let ((t, last, counted), keys) =
      calls-version seen.channel seen.id calls rows {r = seen} k there in
    let after = apply_calls calls rows in
    accepted-read seen patch after {t = t} keys last
    ∙ read-version seen t (accepted seen.channel seen.id calls rows)
        (find_row_sound (is_row seen.channel seen.id) after last) counted
