-- ===== src/ChannelClient/Sessions.antt =====
-- The sessions of the bots: lib/channel-client/session-service.ts. The tables
-- `telegram_user_sessions` and `whatsapp_user_sessions` are one list of rows, each with its channel.
-- Ids are numbers, and a time is a number of milliseconds. What the other tables refuse, as their
-- rows are referred to by id, is not modelled.
pub mod Rows
pub mod Updates
pub mod Versions
use moatazalasrai.Prelude.{
  ℕ, ◌+◌, ◌*◌, Bool, true, false, ◌&&◌, ◌||◌, not, List, [], ◌∷◌, ◌++◌, Option, none, some, ◌==◌,
  leb, or_else, if◌then◌else◌, find_row, update_rows, any,
}
use moatazalasrai.Prelude.Text.{Text}
use moatazalasrai.Api.{api, internal, channel_session_conflict, Response, ok, err}

-- `ChannelClientKind`
pub data Channel : Type 0 where
  telegram whatsapp : Channel

abbrev pub same_channel : Channel → Channel → Bool
same_channel telegram telegram = true
same_channel whatsapp whatsapp = true
same_channel _ _ = false

-- The fields of a state, with the JSON text of each.
abbrev pub State : Type 0
State = List (Text × Text)

pub record Session : Type 0 where
  pub channel : Channel
  pub id : ℕ
  pub user : ℕ
  pub organization : ℕ
  pub external_user : ℕ
  pub external_chat : ℕ
  pub active_flow : Option Text
  pub current_step : Option Text
  pub selected_agent : Option ℕ
  pub selected_team : Option ℕ
  pub selected_conversation : Option ℕ
  pub state : State
  pub version : ℕ
  pub expires_at : Option ℕ

-- `ChannelSessionPatch`: `none` is a field that the patch does not have, `some none` one that it
-- sets to null.
pub record Patch : Type 0 where
  pub organization : Option ℕ
  pub active_flow : Option (Option Text)
  pub current_step : Option (Option Text)
  pub selected_agent : Option (Option ℕ)
  pub selected_team : Option (Option ℕ)
  pub selected_conversation : Option (Option ℕ)
  pub state : Option State
  pub expires_at : Option (Option ℕ)

abbrev pub no_patch : Patch
no_patch = record {
  organization = none;
  active_flow = none;
  current_step = none;
  selected_agent = none;
  selected_team = none;
  selected_conversation = none;
  state = none;
  expires_at = none;
}

abbrev pub flow_ttl_ms : ℕ
flow_ttl_ms = 30 * 60000

unfoldable pub apply_patch : Patch → Session → Session
apply_patch patch s = record s {
  organization = or_else patch.organization s.organization;
  active_flow = or_else patch.active_flow s.active_flow;
  current_step = or_else patch.current_step s.current_step;
  selected_agent = or_else patch.selected_agent s.selected_agent;
  selected_team = or_else patch.selected_team s.selected_team;
  selected_conversation = or_else patch.selected_conversation s.selected_conversation;
  state = or_else patch.state s.state;
  expires_at = or_else patch.expires_at s.expires_at;
  version = s.version + 1;
}

-- The row of a table with an id, and the one that a session was read from, if it is unchanged.
abbrev pub is_row : Channel → ℕ → Session → Bool
is_row channel id s = same_channel channel s.channel && s.id == id

abbrev pub is_read : Session → Session → Bool
is_read seen s = is_row seen.channel seen.id s && s.version == seen.version

-- `updateChannelClientSession`
unfoldable pub update_session : Session → Patch → List Session → Response Session × List Session
update_session seen patch rows = elim (find_row (is_read seen) rows) [
  | none ↦ (err (api 409 channel_session_conflict), rows)
  | some s ↦ (ok (apply_patch patch s), update_rows (is_read seen) (apply_patch patch) rows)
]

-- The input of `ensureChannelClientSession`, with the id that a new row gets.
pub record EnsureInput : Type 0 where
  pub channel : Channel
  pub user : ℕ
  pub organization : ℕ
  pub external_user : ℕ
  pub external_chat : ℕ
  pub new_id : ℕ

abbrev pub of_external : EnsureInput → Session → Bool
of_external input s = same_channel input.channel s.channel && s.external_user == input.external_user

abbrev pub new_session : EnsureInput → Session
new_session input = record {
  channel = input.channel;
  id = input.new_id;
  user = input.user;
  organization = input.organization;
  external_user = input.external_user;
  external_chat = input.external_chat;
  active_flow = none;
  current_step = none;
  selected_agent = none;
  selected_team = none;
  selected_conversation = none;
  state = [];
  version = 1;
  expires_at = none;
}

abbrev pub move_row : EnsureInput → Session → Session
move_row input s = record s {
  user = input.user;
  organization = input.organization;
  external_chat = input.external_chat;
}

-- Another row of the table has the user, which is unique too.
abbrev pub takes_user : EnsureInput → Session → Bool
takes_user input s =
    same_channel input.channel s.channel
    && not (s.external_user == input.external_user)
    && s.user == input.user

-- `insert … on conflict do update`
unfoldable pub upsert_session : EnsureInput → List Session → Response Session × List Session
upsert_session input rows =
    if any (takes_user input) rows
    then (err internal, rows)
    else elim (find_row (of_external input) rows) [
      | none ↦
          if any (is_row input.channel input.new_id) rows
          then (err internal, rows)
          else (ok (new_session input), rows ++ new_session input ∷ [])
      | some s ↦ (ok (move_row input s), update_rows (of_external input) (move_row input) rows)
    ]

abbrev is_set : Option Text → Bool
is_set none = false
is_set (some []) = false
is_set (some (c ∷ s)) = true

abbrev is_past : Option ℕ → ℕ → Bool
is_past none now = false
is_past (some t) now = leb t now

abbrev pub end_flow : Patch → Patch
end_flow patch = record patch {
  active_flow = some none;
  current_step = some none;
  state = some [];
  expires_at = some none;
}

-- `expireFlowIfNeeded`
unfoldable pub expire_flow : ℕ → Session → List Session → Response Session × List Session
unfolding update_session
expire_flow now s rows =
    if is_set s.active_flow && is_past s.expires_at now
    then update_session s (end_flow no_patch) rows
    else (ok s, rows)

abbrev expire_ensured : ℕ → Response Session × List Session → Response Session × List Session
expire_ensured now (err failure, rows) = (err failure, rows)
expire_ensured now (ok s, rows) = expire_flow now s rows

-- `ensureChannelClientSession`, where nothing comes between its statements.
unfoldable pub ensure_session : ℕ → EnsureInput → List Session → Response Session × List Session
unfolding upsert_session expire_flow
ensure_session now input rows = expire_ensured now (upsert_session input rows)

-- `startChannelFlow`, `advanceChannelFlow`, `finishChannelFlow` and `selectChannelAgent` are updates
-- with these patches.
abbrev pub start_flow : ℕ → Text → Text → State → Patch
start_flow now flow step state = record no_patch {
  active_flow = some (some flow);
  current_step = some (some step);
  state = some state;
  expires_at = some (some (now + flow_ttl_ms));
}

abbrev pub advance_flow : ℕ → Text → State → Patch
advance_flow now step state = record no_patch {
  current_step = some (some step);
  state = some state;
  expires_at = some (some (now + flow_ttl_ms));
}

abbrev pub select_agent : ℕ → Patch
select_agent agent = record no_patch {
  selected_agent = some (some agent);
  selected_conversation = some none;
}
