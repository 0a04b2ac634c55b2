-- ===== src/Execution/Quota.antt =====
-- lib/execution/quota-service.ts and `executionLimitsSchema` of lib/execution/contracts.ts.
pub mod Laws
use moatazalasrai.Prelude.{
  ℕ, ◌+◌, Bool, true, false, ◌&&◌, not, List, [], ◌∷◌, Option, none, some, leb, ltb, min,
  if◌then◌else◌, or_else,
}
use moatazalasrai.Execution.Errors.{Result, ok, err, other}
use moatazalasrai.Execution.Schema.{Limits}
use moatazalasrai.Execution.Settings.{Setting, positive}

abbrev between : ℕ → ℕ → ℕ → Bool
between low high n = leb low n && leb n high

abbrev optional : (ℕ → Bool) → Option ℕ → Bool
optional p none = true
optional p (some n) = p n

-- `executionLimitsSchema`
unfoldable pub is_valid : Limits → Bool
is_valid l =
    between 1000 1800000 l.timeout_ms
    && optional (between 1 1800000) l.cpu_millis
    && between 67108864 8589934592 l.memory_bytes
    && between 16777216 21474836480 l.disk_bytes
    && between 1 512 l.max_processes
    && between 1024 52428800 l.max_output_bytes
    && between 1024 2147483648 l.max_artifact_bytes
    && optional (between 0 2147483648) l.max_network_bytes
    && between 1 100000 l.max_files
    && between 1024 524288000 l.max_single_file_bytes

-- `executionLimitsSchema.parse`
unfoldable pub parse_limits : Limits → Result Limits
unfolding is_valid
parse_limits l = if is_valid l then ok l else err other

-- The settings `EXECUTION_DEFAULT_…`.
pub record LimitSettings : Type 0 where
  pub timeout_ms : Setting
  pub memory_bytes : Setting
  pub disk_bytes : Setting
  pub max_processes : Setting
  pub max_output_bytes : Setting
  pub max_artifact_bytes : Setting

-- The limits that the settings ask for, before they are parsed.
unfoldable pub asked_limits : LimitSettings → Limits
unfolding positive
asked_limits s = record {
  timeout_ms = positive 300000 s.timeout_ms;
  cpu_millis = some (positive 300000 s.timeout_ms);
  memory_bytes = positive 536870912 s.memory_bytes;
  disk_bytes = positive 1073741824 s.disk_bytes;
  max_processes = positive 64 s.max_processes;
  max_output_bytes = positive 5242880 s.max_output_bytes;
  max_artifact_bytes = positive 104857600 s.max_artifact_bytes;
  max_network_bytes = some 0;
  max_files = 5000;
  max_single_file_bytes = 26214400;
}

unfoldable pub platform_limits : LimitSettings → Result Limits
unfolding parse_limits asked_limits
platform_limits s = parse_limits (asked_limits s)

-- `Partial<ExecutionLimits>` with natural numbers as values; a key that is absent, or that holds a
-- negative number or no number, is `none`.
pub record Layer : Type 0 where
  pub timeout_ms : Option ℕ
  pub cpu_millis : Option ℕ
  pub memory_bytes : Option ℕ
  pub disk_bytes : Option ℕ
  pub max_processes : Option ℕ
  pub max_output_bytes : Option ℕ
  pub max_artifact_bytes : Option ℕ
  pub max_network_bytes : Option ℕ
  pub max_files : Option ℕ
  pub max_single_file_bytes : Option ℕ

abbrev lower : ℕ → Option ℕ → ℕ
lower current none = current
lower current (some v) = min current v

abbrev lower_optional : Option ℕ → Option ℕ → Option ℕ
lower_optional current none = current
lower_optional none (some v) = some v
lower_optional (some c) (some v) = some (min c v)

-- One round of the outer loop of `mergeExecutionLimits`.
unfoldable pub apply_layer : Limits → Layer → Limits
apply_layer l v = record {
  timeout_ms = lower l.timeout_ms v.timeout_ms;
  cpu_millis = lower_optional l.cpu_millis v.cpu_millis;
  memory_bytes = lower l.memory_bytes v.memory_bytes;
  disk_bytes = lower l.disk_bytes v.disk_bytes;
  max_processes = lower l.max_processes v.max_processes;
  max_output_bytes = lower l.max_output_bytes v.max_output_bytes;
  max_artifact_bytes = lower l.max_artifact_bytes v.max_artifact_bytes;
  max_network_bytes = lower_optional l.max_network_bytes v.max_network_bytes;
  max_files = lower l.max_files v.max_files;
  max_single_file_bytes = lower l.max_single_file_bytes v.max_single_file_bytes;
}

unfoldable pub apply_layers : Limits → List (Option Layer) → Limits
unfolding apply_layer
apply_layers l [] = l
apply_layers l (none ∷ vs) = apply_layers l vs
apply_layers l (some v ∷ vs) = apply_layers (apply_layer l v) vs

unfoldable pub merge_limits : LimitSettings → List (Option Layer) → Result Limits
unfolding platform_limits apply_layers parse_limits
merge_limits s layers = elim (platform_limits s) [
  | ok base ↦ parse_limits (apply_layers base layers)
  | err e ↦ err e
]

pub data Excess : Type 0 where
  output artifact disk memory process timeout : Excess

-- The argument of `assertUsageWithinLimits`; a number that is not given counts as 0.
pub record Used : Type 0 where
  pub stdout_bytes : Option ℕ
  pub stderr_bytes : Option ℕ
  pub artifact_bytes : Option ℕ
  pub disk_bytes : Option ℕ
  pub memory_bytes : Option ℕ
  pub processes : Option ℕ
  pub runtime_ms : Option ℕ

unfoldable pub usage_within : Limits → Used → Option Excess
usage_within l u =
    if ltb l.max_output_bytes (or_else u.stdout_bytes 0 + or_else u.stderr_bytes 0)
    then some output
    else if ltb l.max_artifact_bytes (or_else u.artifact_bytes 0)
    then some artifact
    else if ltb l.disk_bytes (or_else u.disk_bytes 0)
    then some disk
    else if ltb l.memory_bytes (or_else u.memory_bytes 0)
    then some memory
    else if ltb l.max_processes (or_else u.processes 0)
    then some process
    else if ltb l.timeout_ms (or_else u.runtime_ms 0)
    then some timeout
    else none
