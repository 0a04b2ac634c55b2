-- ===== src/Execution/Grants/Issue.antt =====
-- `issueExecutionCredentialGrant` of lib/execution/credential-grant-service.ts.
use moatazalasrai.Prelude.{ℕ, ◌+◌, ◌*◌, Bool, none}
use moatazalasrai.Execution.Errors.{guard, refuse, credential_forbidden}
use moatazalasrai.Execution.Settings.{Setting, grant_ttl_seconds}
use moatazalasrai.Execution.Grants.{GrantInput, grant_scope, find_credential, insert_grant}
use moatazalasrai.Execution.Machine.{Env, M, pure, ◌>>=◌, ◌>>◌, from_result, query, draw, time, tx}

-- The token of the new grant; `enabled` is false where the setting of the broker is "false".
unfoldable pub issue_grant : Env → Bool → Setting → GrantInput → M ℕ
unfolding grant_scope find_credential insert_grant
issue_grant env enabled ttl input = do
  from_result (guard enabled (refuse credential_forbidden))
  (hosts, operations) ← from_result (grant_scope input)
  _ ← query env (find_credential input)
  token ← draw env
  now ← time env
  id ← draw env
  tx env λ _. insert_grant (record {
    id = id;
    organization = input.organization;
    job = input.job;
    credential = input.credential;
    allowed_hosts = hosts;
    allowed_operations = operations;
    token_hash = env.hash token;
    expires_at = now + grant_ttl_seconds ttl * 1000;
    revoked_at = none;
  })
  pure token
