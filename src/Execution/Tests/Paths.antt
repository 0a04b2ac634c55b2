-- ===== src/Execution/Tests/Paths.antt =====
-- Paths, and the listing of events, at concrete inputs.
use moatazalasrai.Prelude.{
  suc, ◌-◌, ◌≡◌, refl, false, none, some, All, length, min, max, or_else, select_rows, find_row,
}
use moatazalasrai.Prelude.Text.{codes, text_eq, trim, starts_with, ends_with}
use moatazalasrai.Execution.Errors.{ok, err, refuse, path_invalid}
use moatazalasrai.Execution.Status.{queued}
use moatazalasrai.Execution.Db.{find_job, of_job}
use moatazalasrai.Execution.Validation.Path.{normalize_workspace_path, split_path}
use moatazalasrai.Execution.Validation.Path.Laws.{normalize_workspace_path-IsInside}
use moatazalasrai.Execution.Events.{list_events}
use moatazalasrai.Execution.Events.Laws.{IsNumbered, IsCounted}
use moatazalasrai.Execution.Events.Listing.{list_events-IsCounted}
use moatazalasrai.Execution.Tests.Samples.{db, job_in}

path_run : normalize_workspace_path (codes " /out/./a/../b/ ") ≡ ok (codes "out/b/")
unfolding normalize_workspace_path trim text_eq starts_with ends_with
path_run = refl

path_refused : normalize_workspace_path (codes "a/../../etc") ≡ err (refuse path_invalid)
unfolding normalize_workspace_path trim text_eq starts_with ends_with
path_refused = refl

normalize_workspace_path-IsInside_example :
    All
      (λ s. (text_eq s (codes "..") ≡ false) × (text_eq (codes ".moataz") s ≡ false))
      (split_path (codes "out/b/"))
    × (starts_with (codes "out/b/") (codes "/") ≡ false)
normalize_workspace_path-IsInside_example =
    normalize_workspace_path-IsInside (codes " /out/./a/../b/ ") path_run

job_found : find_job 7 1 db ≡ some (job_in 1 queued)
unfolding find_job find_row
job_found = refl

log-IsNumbered : IsNumbered 1 db.events
unfolding select_rows
log-IsNumbered = (refl, (refl, tt))

list_events-IsCounted_example :
    IsCounted (suc (or_else (some 1) 0)) (list_events 7 1 (some 1) none db)
    × (length (list_events 7 1 (some 1) none db)
        ≡ min
            (min (max (or_else none 200) 1) 500)
            (length (select_rows (of_job 1) db.events) - or_else (some 1) 0))
list_events-IsCounted_example = list_events-IsCounted 7 1 (some 1) none db job_found log-IsNumbered
