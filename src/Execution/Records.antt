-- ===== src/Execution/Records.antt =====
-- The single statements of the kernel that write neither the status of a job nor a lease:
-- `updateStep` of worker-runtime.ts, `updateExecutionUsage` of repository.ts, the updates of the
-- workspace and of the result summary, and `revokeExecutionCredentialGrants`.
use moatazalasrai.Prelude.{
  ℕ, Bool, true, false, ◌&&◌, [], ◌∷◌, ◌++◌, Option, none, some, String, ◌==◌, find_row,
  update_rows, or_else,
}
use moatazalasrai.Execution.Errors.{ok}
use moatazalasrai.Execution.Schema.{
  Db, Job, JobStep, Usage, Workspace, WorkspaceState, Summary, Grant, Artifact,
}
use moatazalasrai.Execution.Schema
use moatazalasrai.Execution.Db.{Tx, set_job}
use moatazalasrai.Execution.Transition.{keep}

-- The argument of `updateStep`; the outer `none` is a key that is not given.
pub record StepUpdate : Type 0 where
  pub status : String
  pub exit_code : Option (Option ℕ)
  pub signal : Option (Option String)
  pub error_code : Option (Option String)
  pub started_at : Option ℕ
  pub completed_at : Option ℕ

abbrev is_first_step : ℕ → JobStep → Bool
is_first_step job s = s.job == job && s.sequence == 1

unfoldable pub step_row : ℕ → StepUpdate → JobStep → JobStep
step_row now u s = record s {
  status = u.status;
  exit_code = or_else u.exit_code s.exit_code;
  signal = or_else u.signal s.signal;
  error_code = or_else u.error_code s.error_code;
  started_at = keep u.started_at s.started_at;
  completed_at = keep u.completed_at s.completed_at;
  updated_at = now;
}

unfoldable pub update_step : ℕ → ℕ → StepUpdate → Tx (Unit {0})
unfolding step_row
update_step now job u db =
    ok (tt, record db { steps = update_rows (is_first_step job) (step_row now u) db.steps })

abbrev usage_of : ℕ → Usage → Bool
usage_of job u = u.job == job

-- What a conflict on the job overwrites.
abbrev usage_row : Usage → Usage → Usage
usage_row new old = record old {
  stdout_bytes = new.stdout_bytes;
  stderr_bytes = new.stderr_bytes;
  artifact_bytes = new.artifact_bytes;
  memory_peak_bytes = new.memory_peak_bytes;
  disk_peak_bytes = new.disk_peak_bytes;
  cpu_milliseconds = new.cpu_milliseconds;
}

-- `insert … on conflict (job_id) do update`
unfoldable pub update_usage : Usage → Tx (Unit {0})
update_usage u db = elim (find_row (usage_of u.job) db.usage) [
  | none ↦ ok (tt, record db { usage = db.usage ++ u ∷ [] })
  | some _ ↦ ok (tt, record db { usage = update_rows (usage_of u.job) (usage_row u) db.usage })
]

abbrev pub is_workspace : ℕ → ℕ → Workspace → Bool
is_workspace organization id w = w.id == id && w.organization == organization

unfoldable pub set_workspace : ℕ → ℕ → (Workspace → Workspace) → Tx (Unit {0})
set_workspace organization id f db =
    ok (tt, record db { workspaces = update_rows (is_workspace organization id) f db.workspaces })

-- The update at the end of provisioning.
unfoldable pub workspace_ready : ℕ → ℕ → Workspace → Workspace
workspace_ready now external w = record w {
  external_id = some external;
  state = Schema.WorkspaceState.ready;
  provisioned_at = some (or_else w.provisioned_at now);
  last_heartbeat_at = some now;
  updated_at = now;
}

unfoldable pub workspace_stopped : ℕ → Workspace → Workspace
workspace_stopped now w = record w {
  state = Schema.WorkspaceState.stopped;
  destroyed_at = some now;
  updated_at = now;
}

-- `update(executionJobs).set({ resultSummary, updatedAt })`
unfoldable pub set_summary : ℕ → ℕ → ℕ → Summary → Tx (Unit {0})
set_summary now organization id summary db =
    ok (
      tt,
      set_job organization id (λ (j : Job). record j { summary = summary; updated_at = now }) db,
    )

abbrev pub is_unrevoked : Option ℕ → Bool
is_unrevoked none = true
is_unrevoked (some _) = false

abbrev pub is_live_grant : ℕ → ℕ → Grant → Bool
is_live_grant organization job g =
    g.organization == organization && g.job == job && is_unrevoked g.revoked_at

unfoldable pub revoke_grants : ℕ → ℕ → ℕ → Tx (Unit {0})
revoke_grants now organization job db = ok (
  tt,
  record db {
    grants =
        update_rows (is_live_grant organization job)
          (λ (g : Grant). record g { revoked_at = some now }) db.grants;
  },
)

-- The transaction of `storeExecutionArtifact`.
unfoldable pub insert_artifact : Artifact → Tx (Unit {0})
insert_artifact a db = ok (
  tt,
  record db {
    artifacts = db.artifacts ++ a ∷ [];
    usage =
        update_rows (λ (u : Usage). u.organization == a.organization && u.job == a.job)
          (λ (u : Usage). record u { artifact_bytes = a.size_bytes }) db.usage;
  },
)
