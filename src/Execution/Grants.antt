-- ===== src/Execution/Grants.antt =====
-- `issueExecutionCredentialGrant` and `consumeExecutionCredentialGrant` of
-- lib/execution/credential-grant-service.ts. The kind of the provider and the budget, which a grant
-- only carries along, are left out.
pub mod Laws
pub mod Issue
use moatazalasrai.Prelude.{
  ℕ, ◌+◌, ◌*◌, Bool, true, false, ◌&&◌, ◌||◌, not, List, [], ◌∷◌, ◌++◌, Option, none, some, ◌==◌,
  ltb, if◌then◌else◌, find_row, select_rows, update_rows, length, map,
}
use moatazalasrai.Prelude.Text.{Text, trim, has_text}
use moatazalasrai.Execution.Errors.{
  Result, ok, err, guard, need, refuse, grant_invalid, grant_replayed, credential_forbidden,
}
use moatazalasrai.Execution.Errors
use moatazalasrai.Execution.Schema.{Db, Grant, Job, Credential}
use moatazalasrai.Execution.Db.{Tx, is_job}
use moatazalasrai.Execution.Records.{is_unrevoked}
use moatazalasrai.Execution.Network.Hostname.{normalize_hostname}
use moatazalasrai.Execution.Network.Egress.{normalize_all, unique_texts}

-- The argument of `issueExecutionCredentialGrant`.
pub record GrantInput : Type 0 where
  pub organization : ℕ
  pub user : ℕ
  pub job : ℕ
  pub credential : ℕ
  pub allowed_hosts : List Text
  pub allowed_operations : List Text

abbrev is_text : Text → Bool
is_text t = not (length t == 0)

-- The hosts and operations that the grant is made for: some of each.
unfoldable pub grant_scope : GrantInput → Result (List Text × List Text)
unfolding normalize_all unique_texts
grant_scope input = Errors.◌>>=◌ (normalize_all input.allowed_hosts) λ names.
    let hosts = unique_texts [] names in
    let operations = unique_texts [] (select_rows is_text (map trim input.allowed_operations)) in
    if length hosts == 0 || length operations == 0
    then err (refuse credential_forbidden)
    else ok (hosts, operations)

abbrev is_usable : GrantInput → Credential → Bool
is_usable input c =
    c.id == input.credential && c.organization == input.organization && c.enabled && c.verified

abbrev is_own_job : GrantInput → Job → Bool
is_own_job input j = is_job input.organization input.job j && j.user == input.user

-- The join of the job with the verified credential of its organization.
unfoldable pub find_credential : GrantInput → Db → Result Credential
find_credential input db =
    Errors.◌>>=◌ (need (find_row (is_own_job input) db.jobs) (refuse credential_forbidden))
      λ _. need (find_row (is_usable input) db.credentials) (refuse credential_forbidden)

unfoldable pub insert_grant : Grant → Tx (Unit {0})
insert_grant g db = ok (tt, record db { grants = db.grants ++ g ∷ [] })

-- A row with the token's hash that is neither revoked nor expired.
abbrev pub is_live : ℕ → ℕ → ℕ → Grant → Bool
is_live job hash now g =
    g.job == job && g.token_hash == hash && is_unrevoked g.revoked_at && ltb now g.expires_at

-- The condition of the update.
abbrev pub is_open : ℕ → Grant → Bool
is_open id g = g.id == id && is_unrevoked g.revoked_at

abbrev pub revoke_at : ℕ → Grant → Grant
revoke_at now g = record g { revoked_at = some now }

-- The transaction of `consumeExecutionCredentialGrant`, given the hash of the token.
unfoldable pub consume_grant : ℕ → ℕ → Text → Text → ℕ → Tx Grant
consume_grant job hash host operation now db =
    Errors.◌>>=◌ (need (find_row (is_live job hash now) db.grants) (refuse grant_invalid)) λ grant.
      Errors.◌>>◌ (guard (grant.token_hash == hash) (refuse grant_invalid)) (
        Errors.◌>>=◌ (normalize_hostname host) λ name.
          Errors.◌>>◌
            (guard
              (has_text grant.allowed_hosts name && has_text grant.allowed_operations operation)
              (refuse credential_forbidden))
            (Errors.◌>>=◌ (need (find_row (is_open grant.id) db.grants) (refuse grant_replayed))
              λ _. ok (
                grant,
                record db { grants = update_rows (is_open grant.id) (revoke_at now) db.grants },
              )))
