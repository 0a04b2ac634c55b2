-- ===== src/Auth/Tests/Mobile.antt =====
-- Sessions of the mobile application at concrete inputs.
use moatazalasrai.Prelude.{◌+◌, ◌*◌, ◌≡◌, refl, [], ◌∷◌, none, find_row}
use moatazalasrai.Api.{ok, err, api, refresh_token_invalid}
use moatazalasrai.Auth.Permissions.{developer}
use moatazalasrai.Auth.Members.{Member}
use moatazalasrai.Auth.Mobile.{Hash, MobileSession, Fresh, Tokens, day_ms, rotate_session}
use moatazalasrai.Auth.Mobile.Calls.{revoke, rotate, apply_calls}
use moatazalasrai.Auth.Mobile.Rotation.{rotate_session-once}

abbrev hash : Hash
hash token = token * 10 + 1

abbrev member : Member
member = record {
  id = 1;
  organization = 1;
  user = 7;
  role = developer;
  expires_at = none;
  custom_permissions = [];
}

-- A session that was to last one day.
abbrev session : MobileSession
session = record {
  id = 5;
  user = 7;
  organization = 1;
  access_hash = 101;
  access_expires_at = 900000;
  refresh_hash = 111;
  refresh_expires_at = day_ms;
  device = 3;
  last_used_at = 0;
  revoked_at = none;
}

abbrev fresh : Fresh
fresh = record { id = 0; access = 20; refresh = 21 }

abbrev again : Fresh
again = record { id = 0; access = 30; refresh = 31 }

abbrev tokens : Tokens
tokens = record {
  session = 5;
  access = 20;
  refresh = 21;
  expires_in = 900;
  refresh_expires_in = 7776000;
}

-- After its first rotation the session lasts ninety days.
exchanged : (rotate_session hash 11 fresh 1000 (member ∷ []) (session ∷ [])).0 ≡ ok tokens
unfolding rotate_session find_row
exchanged = refl

rotate_session-once_example :
    (rotate_session hash 11 again 3000 (member ∷ []) (
      apply_calls hash
        (rotate 21 again 2000 (member ∷ []) session ∷ revoke 99 2500 ∷ [])
        (rotate_session hash 11 fresh 1000 (member ∷ []) (session ∷ [])).1)).0
    ≡ err (api 401 refresh_token_invalid)
rotate_session-once_example =
    rotate_session-once hash 11 fresh again 1000 3000 (member ∷ []) (member ∷ []) (session ∷ [])
      (rotate 21 again 2000 (member ∷ []) session ∷ revoke 99 2500 ∷ []) {tokens = tokens}
      (refl, tt) exchanged refl (refl, (tt, tt))
