-- ===== src/Execution/Tests/Grants.antt =====
-- Credential grants of lib/execution/credential-grant-service.ts at concrete inputs.
use moatazalasrai.Prelude.{◌≡◌, refl, List, [], ◌∷◌, none, some, All, arith, update_rows, find_row}
use moatazalasrai.Prelude.Text.{codes, text_eq, has_text, trim, to_lower, ends_with, includes_text}
use moatazalasrai.Execution.Errors.{ok, err, refuse, grant_invalid}
use moatazalasrai.Execution.Schema.{Db, Grant}
use moatazalasrai.Execution.Network.Hostname.{normalize_hostname}
use moatazalasrai.Execution.Grants.{consume_grant, is_open, revoke_at}
use moatazalasrai.Execution.Grants.Laws.{
  IsGranted, consume_grant-IsGranted, consume_grant-once, HasOne, GrantCall, issues, consumes,
  revokes, IsFresh, grant_calls,
}
use moatazalasrai.Execution.Tests.Samples.{db}

abbrev grant : Grant
grant = record {
  id = 40;
  organization = 7;
  job = 1;
  credential = 30;
  allowed_hosts = codes "api.org" ∷ [];
  allowed_operations = codes "chat" ∷ [];
  token_hash = 99;
  expires_at = 500;
  revoked_at = none;
}

abbrev granted_db : Db
granted_db = record db { grants = grant ∷ [] }

abbrev used_db : Db
used_db = record db { grants = record grant { revoked_at = some 100 } ∷ [] }

consume_run :
    consume_grant 1 99 (codes "API.org") (codes "chat") 100 granted_db ≡ ok (grant, used_db)
unfolding consume_grant find_row update_rows has_text text_eq normalize_hostname to_lower trim
    ends_with includes_text
consume_run = refl

consume_grant-IsGranted_example :
    IsGranted 1 99 (codes "API.org") (codes "chat") 100 granted_db grant
    × (used_db ≡ record granted_db {
      grants = update_rows (is_open grant.id) (revoke_at 100) granted_db.grants;
    })
consume_grant-IsGranted_example =
    consume_grant-IsGranted 1 99 (codes "API.org") (codes "chat") 100 granted_db consume_run

abbrev later_calls : List GrantCall
later_calls =
    issues (record grant { id = 41; token_hash = 98 })
    ∷ consumes 1 98 (codes "api.org") (codes "chat") 120
    ∷ revokes 130 7 1
    ∷ []

grant-HasOne : HasOne 99 40 granted_db.grants
grant-HasOne = (λ _. refl, tt)

later_calls-IsFresh : All (IsFresh 99) later_calls
later_calls-IsFresh = (omega arith, (tt, (tt, tt)))

consume_grant-once_example :
    consume_grant 1 99 (codes "api.org") (codes "chat") 140 (grant_calls later_calls used_db)
    ≡ err (refuse grant_invalid)
consume_grant-once_example =
    consume_grant-once 1 99 (codes "API.org") (codes "chat") 100 granted_db consume_run grant-HasOne
      later_calls later_calls-IsFresh 1 (codes "api.org") (codes "chat") 140
