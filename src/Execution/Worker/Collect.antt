-- ===== src/Execution/Worker/Collect.antt =====
-- `collectExecutionArtifacts` and `collectBytes` of lib/execution/worker-runtime.ts, with
-- `collect` and `storeExecutionArtifact` of lib/execution/artifact-service.ts.
use moatazalasrai.Prelude.{
  ℕ, ◌+◌, Bool, true, ◌&&◌, not, List, [], ◌∷◌, ◌++◌, Option, none, some, if◌then◌else◌, ltb,
  length, ◌==◌, find_row, min,
}
use moatazalasrai.Prelude.Text.{Text, text_eq}
use moatazalasrai.Execution.Status.{same, is_terminal, running, orphaned}
use moatazalasrai.Execution.Errors
use moatazalasrai.Execution.Errors.{
  Result, ok, err, Thrown, refuse, refuse_retryable, workspace_not_ready, artifact_invalid,
  artifact_limit, not_found, need,
}
use moatazalasrai.Execution.Schema.{Db, Job, Summary, Limits, info}
use moatazalasrai.Execution.Db.{is_job}
use moatazalasrai.Execution.Quota.{parse_limits}
use moatazalasrai.Execution.Events.{append_event}
use moatazalasrai.Execution.Records.{set_summary, insert_artifact}
use moatazalasrai.Execution.Machine.{
  Env, FileEntry, M, by_option, pure, throw, ◌>>=◌, ◌>>◌, catching, tx, query, ask, draw,
  from_result,
}
use moatazalasrai.Execution.Worker.Common.{
  JobRecord, get_job, enqueue_cleanup, with_lease, selected_runner, fail_execution,
}
use moatazalasrai.Execution.Worker.Diagnostic.{expected_artifact, expected_output, output_matches}

-- What a collection gives back: nothing, the job as it was read, or the number of artifacts.
pub data CollectOutcome : Type 0 where
  nothing : CollectOutcome
  unchanged : Job → CollectOutcome
  collected : ℕ → CollectOutcome

-- `collectBytes` and `collect`: the chunks joined, or an error as soon as they pass the maximum.
unfoldable pub collect_bytes : ℕ → List ℕ → List (List ℕ) → Result (List ℕ)
collect_bytes maximum body [] = ok body
collect_bytes maximum body (chunk ∷ chunks) =
    let rest = collect_bytes maximum (body ++ chunk) chunks in
    if ltb maximum (length body + length chunk) then err (refuse artifact_limit) else rest

abbrev is_expected : Text → FileEntry → Bool
is_expected path f = text_eq f.path path && f.is_file

abbrev owns : ℕ → ℕ → ℕ → Job → Bool
owns organization user id j = is_job organization id j && j.user == user

owner_check : ℕ → ℕ → ℕ → Db → Result (Unit {0})
owner_check organization user id db =
    Errors.◌>>=◌ (need (find_row (owns organization user id) db.jobs) (refuse not_found)) λ _. ok tt

collected_summary : Summary → Option Text → ℕ → Summary
collected_summary old expected n = record old {
  execution_verified = some true;
  process_verified = some true;
  artifact_count = some n;
  required_artifact_count = elim expected [ none ↦ some 0 | some _ ↦ some 1 ];
}

module _ (env : Env) (organization id worker : ℕ) where
  -- `storeExecutionArtifact`, of the kind "test-result" and with the body as one chunk. After a
  -- failure the stored object is deleted and the failure is thrown on.
  unfoldable pub store_artifact : ℕ → Limits → List ℕ → M (Unit {0})
  unfolding collect_bytes owner_check
  store_artifact user limits content = do
    body ← from_result (
        collect_bytes (min limits.max_artifact_bytes limits.max_single_file_bytes) []
          (content ∷ []))
    if length body == 0 then throw (refuse artifact_invalid) else (do
      query env (owner_check organization user id)
      key ← draw env
      ask env (λ o. o.put_object body)
      tx env λ _. insert_artifact (record {
        organization = organization;
        job = id;
        storage_key = key;
        size_bytes = length body;
      })
      tx env λ _. append_event organization id "artifact.stored" "worker" info)

  -- The expected file is looked for, read, compared with the expected output, and stored.
  unfoldable pub collect_expected : JobRecord → Limits → ℕ → Text → M (Unit {0})
  collect_expected r limits external path = do
    _ ← selected_runner env
    files ← ask env (λ o. o.list_files external)
    file ← from_result (need (find_row (is_expected path) files) (refuse artifact_invalid))
    if ltb limits.max_single_file_bytes file.size_bytes then throw (refuse artifact_limit) else (do
      tx env λ _. append_event organization id "artifact.discovered" "runner" info
      chunks ← ask env (λ o. o.download external path)
      body ← from_result (collect_bytes limits.max_single_file_bytes [] chunks)
      if not (output_matches (expected_output r.job.scenario) (env.to_text body))
          then throw (refuse artifact_invalid)
          else store_artifact r.job.user limits body)

  unfoldable pub collect_optional : JobRecord → Limits → ℕ → Option Text → M ℕ
  collect_optional r limits external expected =
      by_option expected (pure 0) λ path. do collect_expected r limits external path; pure 1

  -- The artifact, the verified summary, and the cleanup that follows.
  unfoldable pub collect_ready : JobRecord → ℕ → M CollectOutcome
  unfolding collected_summary
  collect_ready r external = do
    limits ← from_result (parse_limits r.workspace.limits)
    n ← collect_optional r limits external (expected_artifact r.job.scenario)
    tx env λ now.
        set_summary now organization id
          (collected_summary r.job.summary (expected_artifact r.job.scenario) n)
    enqueue_cleanup env organization id
    pure (collected n)

  unfoldable pub collect_running : JobRecord → M CollectOutcome
  collect_running r =
      by_option r.workspace.external_id (throw (refuse_retryable workspace_not_ready)) λ external.
        if same r.job.status running
        then collect_ready r external
        else throw (refuse_retryable workspace_not_ready)

  unfoldable pub collect_body : M CollectOutcome
  collect_body = do
    r ← get_job env organization id
    if is_terminal r.job.status then pure (unchanged r.job) else collect_running r

  unfoldable pub collect_failed : Thrown → M CollectOutcome
  collect_failed thrown = do
    _ ← fail_execution env organization id (running ∷ orphaned ∷ []) thrown "worker"
    pure nothing

  unfoldable pub collect_execution_artifacts : M CollectOutcome
  collect_execution_artifacts =
      with_lease env organization id worker (catching collect_body collect_failed)
