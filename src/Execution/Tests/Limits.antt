-- ===== src/Execution/Tests/Limits.antt =====
-- Settings and limits of lib/execution/quota-service.ts at concrete inputs.
use moatazalasrai.Prelude.{◌≡◌, refl, true, [], ◌∷◌, none, some}
use moatazalasrai.Execution.Errors.{ok}
use moatazalasrai.Execution.Schema.{Limits}
use moatazalasrai.Execution.Settings.{unset}
use moatazalasrai.Execution.Quota.{
  is_valid, LimitSettings, platform_limits, parse_limits, apply_layers, Layer, merge_limits,
}
use moatazalasrai.Execution.Quota.Laws.{IsWithin, IsWithinAll, as_layer, merge_limits-IsWithin}
use moatazalasrai.Execution.Tests.Samples.{limits}

abbrev settings : LimitSettings
settings = record {
  timeout_ms = unset;
  memory_bytes = unset;
  disk_bytes = unset;
  max_processes = unset;
  max_output_bytes = unset;
  max_artifact_bytes = unset;
}

-- A plan that allows ten seconds and eight processes, and is silent on the rest.
abbrev plan : Layer
plan = record {
  timeout_ms = some 10000;
  cpu_millis = none;
  memory_bytes = none;
  disk_bytes = none;
  max_processes = some 8;
  max_output_bytes = none;
  max_artifact_bytes = none;
  max_network_bytes = none;
  max_files = none;
  max_single_file_bytes = none;
}

abbrev merged : Limits
merged = record limits { timeout_ms = 10000; max_processes = 8 }

merge_run : merge_limits settings (some plan ∷ none ∷ []) ≡ ok merged
unfolding merge_limits platform_limits parse_limits apply_layers
merge_run = refl

merge_limits-IsWithin_example :
    (is_valid merged ≡ true)
    × ((base : Limits) × (platform_limits settings ≡ ok base) × IsWithin merged (as_layer base))
    × IsWithinAll merged (some plan ∷ none ∷ [])
merge_limits-IsWithin_example = merge_limits-IsWithin settings (some plan ∷ none ∷ []) merge_run
