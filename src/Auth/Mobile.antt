-- ===== src/Auth/Mobile.antt =====
-- The sessions of the mobile application: lib/auth/mobile.ts. A token and its hash are numbers, and
-- the hash function is a parameter; the tokens that are made are inputs. A time is a number of
-- milliseconds.
pub mod Calls
pub mod Rotation
use moatazalasrai.Prelude.{
  ℕ, ◌+◌, ◌-◌, ◌*◌, ◌/◌, max, Bool, true, false, ◌&&◌, ◌||◌, not, List, [], ◌∷◌, ◌++◌, Option, none,
  some, ◌==◌, ltb, if◌then◌else◌, find_row, update_rows, any,
}
use moatazalasrai.Api.{
  Failure, api, internal, account_access_expired, refresh_token_invalid, refresh_token_reused,
  Response, ok, err, ◌>>=◌, ◌>>◌, guard, need,
}
use moatazalasrai.Auth.Members.{Member, is_active_member}

abbrev pub Hash : Type 0
Hash = ℕ → ℕ

-- `mobileSessions`
pub record MobileSession : Type 0 where
  pub id : ℕ
  pub user : ℕ
  pub organization : ℕ
  pub access_hash : ℕ
  pub access_expires_at : ℕ
  pub refresh_hash : ℕ
  pub refresh_expires_at : ℕ
  pub device : ℕ
  pub last_used_at : ℕ
  pub revoked_at : Option ℕ

abbrev pub access_ms : ℕ
access_ms = 15 * 60000

abbrev pub day_ms : ℕ
day_ms = 24 * 60 * 60000

abbrev pub refresh_days : ℕ
refresh_days = 90

-- `IssueMobileSessionInput`; `remember` is false only where the code says so.
pub record IssueInput : Type 0 where
  pub user : ℕ
  pub organization : ℕ
  pub device : ℕ
  pub remember : Bool

-- The random tokens, and the id of a new row.
pub record Fresh : Type 0 where
  pub id : ℕ
  pub access : ℕ
  pub refresh : ℕ

pub record Tokens : Type 0 where
  pub session : ℕ
  pub access : ℕ
  pub refresh : ℕ
  pub expires_in : ℕ
  pub refresh_expires_in : ℕ

-- `earlierExpiry`
unfoldable pub earlier_expiry : ℕ → Option ℕ → ℕ
earlier_expiry standard none = standard
earlier_expiry standard (some membership) = if ltb membership standard then membership else standard

-- `Math.max(1, Math.floor((expires - now) / 1000))`; an expiry that is past counts as 1 too.
abbrev pub seconds_left : ℕ → ℕ → ℕ
seconds_left expires now = max 1 ((expires - now) / 1000)

-- `mobileSessionMaterial`: when the two tokens expire.
unfoldable pub access_expiry : ℕ → Option ℕ → ℕ
unfolding earlier_expiry
access_expiry now membership = earlier_expiry (now + access_ms) membership

unfoldable pub refresh_expiry : Bool → ℕ → Option ℕ → ℕ
unfolding earlier_expiry
refresh_expiry remember now membership =
    earlier_expiry (now + (if remember then refresh_days else 1) * day_ms) membership

abbrev pub of_device : ℕ → ℕ → MobileSession → Bool
of_device user device s = s.user == user && s.device == device

-- The readings of the clocks: `now()` of the select, the time of the new expiries, `now()` of the
-- insert, and the time of the answer. Inside a transaction `now()` is the time at which it began.
-- Readings between which the code does not wait are one.
pub record IssueTimes : Type 0 where
  pub selected : ℕ
  pub computed : ℕ
  pub stored : ℕ
  pub answered : ℕ

abbrev pub session_row : Hash → IssueInput → Fresh → IssueTimes → Option ℕ → MobileSession
session_row hash input fresh times membership = record {
  id = fresh.id;
  user = input.user;
  organization = input.organization;
  access_hash = hash fresh.access;
  access_expires_at = access_expiry times.computed membership;
  refresh_hash = hash fresh.refresh;
  refresh_expires_at = refresh_expiry input.remember times.computed membership;
  device = input.device;
  last_used_at = times.stored;
  revoked_at = none;
}

-- The unique columns of another row.
abbrev pub clashes : MobileSession → MobileSession → Bool
clashes new s = s.access_hash == new.access_hash || s.refresh_hash == new.refresh_hash

-- `on conflict (user_id, device_id) do update`: the row keeps its id.
unfoldable pub upsert_session : MobileSession → List MobileSession → Response (List MobileSession)
upsert_session new rows =
    if any (λ s. not (of_device new.user new.device s) && clashes new s) rows
    then err internal
    else elim (find_row (of_device new.user new.device) rows) [
      | none ↦ ok (rows ++ new ∷ [])
      | some old ↦
          ok (update_rows (of_device new.user new.device) (λ s. record new { id = s.id }) rows)
    ]

abbrev pub tokens_of : Fresh → ℕ → ℕ → ℕ → ℕ → Tokens
tokens_of fresh session access_expires refresh_expires now = record {
  session = session;
  access = fresh.access;
  refresh = fresh.refresh;
  expires_in = seconds_left access_expires now;
  refresh_expires_in = seconds_left refresh_expires now;
}

abbrev session_id : MobileSession → Option MobileSession → ℕ
session_id new none = new.id
session_id new (some old) = old.id

-- `issueMobileSessionWithClient`
unfoldable pub issue_session :
    Hash
    → IssueInput
    → Fresh
    → IssueTimes
    → List Member
    → List MobileSession
    → Response (Tokens × List MobileSession)
unfolding access_expiry refresh_expiry
issue_session hash input fresh times members rows = do
  m ←
      need (find_row (is_active_member input.organization input.user times.selected) members)
        (api 403 account_access_expired)
  let new = session_row hash input fresh times m.expires_at
  after ← upsert_session new rows
  ok (
    tokens_of fresh (session_id new (find_row (of_device new.user new.device) rows))
        new.access_expires_at new.refresh_expires_at times.answered,
    after,
  )

abbrev is_revoked : Option ℕ → Bool
is_revoked none = false
is_revoked (some t) = true

abbrev pub may_refresh : ℕ → ℕ → MobileSession → Bool
may_refresh refresh_hash now s =
    s.refresh_hash == refresh_hash && not (is_revoked s.revoked_at) && ltb now s.refresh_expires_at

abbrev pub revoke_row : ℕ → MobileSession → MobileSession
revoke_row now s = record s { revoked_at = some now }

abbrev pub rotated_row : Hash → Fresh → ℕ → Option ℕ → MobileSession → MobileSession
rotated_row hash fresh now membership s = record s {
  access_hash = hash fresh.access;
  access_expires_at = access_expiry now membership;
  refresh_hash = hash fresh.refresh;
  refresh_expires_at = refresh_expiry true now membership;
  last_used_at = now;
}

-- The `where` of the last update of a rotation.
abbrev pub is_current : ℕ → ℕ → MobileSession → Bool
is_current id refresh_hash s =
    s.id == id && s.refresh_hash == refresh_hash && not (is_revoked s.revoked_at)

-- Another row has one of the new hashes.
abbrev pub clashes_at : Hash → ℕ → Fresh → MobileSession → Bool
clashes_at hash id fresh s =
    not (s.id == id) && (s.access_hash == hash fresh.access || s.refresh_hash == hash fresh.refresh)

-- `rotateMobileSession` after its first select, which has read `current` at some earlier time.
unfoldable pub rotate_read :
    Hash
    → ℕ
    → Fresh
    → ℕ
    → List Member
    → MobileSession
    → List MobileSession
    → Response Tokens × List MobileSession
unfolding access_expiry refresh_expiry
rotate_read hash token fresh now members current rows =
    elim (find_row (is_active_member current.organization current.user now) members) [
      | none ↦ (
        err (api 401 account_access_expired),
        update_rows (λ s. s.id == current.id) (revoke_row now) rows,
      )
      | some m ↦ elim (find_row (is_current current.id (hash token)) rows) [
        | none ↦ (err (api 401 refresh_token_reused), rows)
        | some s ↦ if any (clashes_at hash current.id fresh) rows then (err internal, rows) else (
          ok (
              tokens_of fresh current.id (access_expiry now m.expires_at)
                (refresh_expiry true now m.expires_at) now),
          update_rows (is_current current.id (hash token)) (rotated_row hash fresh now m.expires_at)
              rows,
        )
      ]
    ]

-- `rotateMobileSession`, where nothing comes between.
unfoldable pub rotate_session :
    Hash → ℕ → Fresh → ℕ → List Member → List MobileSession → Response Tokens × List MobileSession
unfolding rotate_read
rotate_session hash token fresh now members rows =
    elim (find_row (may_refresh (hash token) now) rows) [
      | none ↦ (err (api 401 refresh_token_invalid), rows)
      | some current ↦ rotate_read hash token fresh now members current rows
    ]

-- `revokeMobileSession`
unfoldable pub revoke_session : Hash → ℕ → ℕ → List MobileSession → List MobileSession
revoke_session hash token now rows =
    update_rows (λ s. s.refresh_hash == hash token) (revoke_row now) rows

-- The session that an access token opens, in `resolveApiPrincipal` of lib/auth/api-key.ts.
unfoldable pub find_access : Hash → ℕ → ℕ → List Member → List MobileSession → Option MobileSession
find_access hash token now members rows =
    find_row
      (λ s.
        s.access_hash == hash token
        && not (is_revoked s.revoked_at)
        && ltb now s.access_expires_at
        && any (is_active_member s.organization s.user now) members)
      rows
