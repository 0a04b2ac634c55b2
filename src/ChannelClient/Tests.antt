-- ===== src/ChannelClient/Tests.antt =====
-- Sessions of the bots at concrete inputs.
use moatazalasrai.Prelude.{◌≡◌, refl, List, [], ◌∷◌, find_row, update_rows, ◌==◌}
use moatazalasrai.Prelude.Text.{codes}
use moatazalasrai.ChannelClient.Sessions.{
  telegram, EnsureInput, Session, new_session, update_session, start_flow, select_agent,
  upsert_session, apply_patch,
}
use moatazalasrai.ChannelClient.Sessions.Updates.{Call, update, upsert, is_ok}
use moatazalasrai.ChannelClient.Sessions.Versions.{
  apply_calls, apply_call, accepted, update_session-fresh,
}

abbrev input : EnsureInput
input = record {
  channel = telegram;
  user = 7;
  organization = 1;
  external_user = 70;
  external_chat = 71;
  new_id = 5;
}

abbrev session : Session
session = new_session input

-- The user moves to another organization, and then starts a flow.
abbrev calls : List Call
calls =
    upsert (record input { organization = 2 })
    ∷ update session (start_flow 1000 (codes "chat") (codes "ask") [])
    ∷ []

one_accepted : accepted telegram 5 calls (session ∷ []) ≡ 1
unfolding accepted apply_call update_session upsert_session find_row update_rows apply_patch
one_accepted = refl

update_session-fresh_example :
    is_ok (update_session session (select_agent 9) (apply_calls calls (session ∷ []))).0
    ≡ (accepted telegram 5 calls (session ∷ []) == 0)
update_session-fresh_example =
    update_session-fresh session (select_agent 9) calls (session ∷ []) (refl, tt)
      (unfold find_row in refl)
