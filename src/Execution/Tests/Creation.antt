-- ===== src/Execution/Tests/Creation.antt =====
-- Creation of jobs by lib/execution/service.ts at concrete inputs.
use moatazalasrai.Prelude.{◌≡◌, refl, true, false, [], some, select_rows}
use moatazalasrai.Execution.Errors.{ok}
use moatazalasrai.Execution.Schema.{Db, existing, success, failure}
use moatazalasrai.Execution.Db.{of_job}
use moatazalasrai.Execution.Moves.{DbMoves}
use moatazalasrai.Execution.Settings.{unset}
use moatazalasrai.Execution.Quota.{platform_limits, parse_limits, asked_limits}
use moatazalasrai.Execution.Cancellation.{Actor}
use moatazalasrai.Execution.Creation.{
  CreateSettings, Drawn, CreateReply, Prepared, prepare, create_execution,
}
use moatazalasrai.Execution.Creation.Laws.{
  Outcome, create_execution-again, create_execution-Outcome, create_execution-succeeds, prepare-ok,
}
use moatazalasrai.Execution.Tests.Samples.{limits, db}

abbrev settings : CreateSettings
settings = record {
  enabled = true;
  limits = record {
    timeout_ms = unset;
    memory_bytes = unset;
    disk_bytes = unset;
    max_processes = unset;
    max_output_bytes = unset;
    max_artifact_bytes = unset;
  };
  open_network = false;
  runner = some existing;
  workspace_ttl = unset;
}

platform_run : platform_limits settings.limits ≡ ok limits
unfolding platform_limits asked_limits parse_limits
platform_run = refl

abbrev owner : Actor
owner = record { organization = 7; user = 5; member = true }

abbrev drawn : Drawn
drawn = record { workspace = 21; job = 3; now = 2000 }

create_execution-succeeds_example :
    (reply : CreateReply) × (db' : Db) × (create_execution settings success owner "key-0002" drawn
        db
      ≡ ok (reply, db'))
create_execution-succeeds_example =
    create_execution-succeeds settings success owner "key-0002" drawn db limits existing refl refl
      platform_run

-- The run of that example.
abbrev created : CreateReply × Db
created =
    let r =
      create_execution-succeeds settings success owner "key-0002" drawn db limits existing refl refl
        platform_run in
    (r.0, r.1)

create_run : create_execution settings success owner "key-0002" drawn db ≡ ok (created.0, created.1)
create_run =
    (create_execution-succeeds settings success owner "key-0002" drawn db limits existing refl refl
      platform_run).2

no_events : select_rows (of_job 3) db.events ≡ []
unfolding select_rows
no_events = refl

create_execution-Outcome_example :
    DbMoves db created.1 × Outcome 7 "key-0002" 3 db created.0 created.1
create_execution-Outcome_example =
    create_execution-Outcome settings success owner "key-0002" drawn db create_run no_events

abbrev other_drawn : Drawn
other_drawn = record { workspace = 22; job = 4; now = 3000 }

ready : (p : Prepared) × (prepare settings failure ≡ ok p)
ready = prepare-ok settings failure limits existing refl refl platform_run

create_execution-again_example :
    create_execution settings failure (record owner { user = 6 }) "key-0002" other_drawn created.1
    ≡ ok (record { job = created.0.job; duplicate = true }, created.1)
create_execution-again_example =
    create_execution-again settings success owner "key-0002" drawn db create_run settings failure
      (record owner { user = 6 }) other_drawn refl ready.1
