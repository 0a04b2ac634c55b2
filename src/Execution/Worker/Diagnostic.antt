-- ===== src/Execution/Worker/Diagnostic.antt =====
-- The expectations of lib/execution/validation.ts on the diagnostic scenarios, and the output that
-- is collected for them.
use moatazalasrai.Prelude.{
  ℕ, ◌+◌, Bool, true, ◌&&◌, not, [], ◌∷◌, Option, none, some, leb, ltb, if◌then◌else◌, length, any,
}
use moatazalasrai.Prelude.Text.{Text, codes, text_eq, trim}
use moatazalasrai.Execution.Errors.{Result, ok, err, other}
use moatazalasrai.Execution.Schema.{Scenario, success, failure, timeout, secrets, Command}

-- `diagnosticExpectedArtifact`
unfoldable pub expected_artifact : Scenario → Option Text
expected_artifact success = some (codes "result.txt")
expected_artifact secrets = some (codes "result.txt")
expected_artifact failure = none
expected_artifact timeout = none

-- `diagnosticExpectedOutput`
unfoldable pub expected_output : Scenario → Option Text
expected_output success = some (codes "4")
expected_output secrets = some (codes "safe")
expected_output failure = none
expected_output timeout = none

-- `expected ? text.trim() === expected : true`
unfoldable pub output_matches : Option Text → Text → Bool
output_matches none text = true
output_matches (some expected) text = text_eq (trim text) expected

abbrev is_high : ℕ → Bool
is_high c = leb 0xd800 c && leb c 0xdbff

abbrev is_low : ℕ → Bool
is_low c = leb 0xdc00 c && leb c 0xdfff

abbrev unit_bytes : ℕ → ℕ
unit_bytes c = if ltb c 0x80 then 1 else if ltb c 0x800 then 2 else 3

-- `Buffer.byteLength(text, "utf8")`: a surrogate pair takes four bytes, so its second half is
-- counted as one.
unfoldable pub utf8_length : Text → ℕ
utf8_length [] = 0
utf8_length (c ∷ []) = unit_bytes c
utf8_length (c ∷ d ∷ s) =
    let rest = utf8_length (d ∷ s) in
    if is_high c && is_low d then rest + 1 else rest + unit_bytes c

abbrev pub between : ℕ → ℕ → ℕ → Bool
between low high n = leb low n && leb n high

abbrev is_long : Text → Bool
is_long a = ltb 8192 (length a)

-- `commandRequestSchema.parse`, on the keys that are stored; the directory is trimmed first.
unfoldable pub parse_command : Command → Result Command
parse_command c =
    if between 1 128 (length c.argv)
      && not (any is_long c.argv)
      && between 1 1024 (length (trim c.cwd))
      && between 1000 1800000 c.timeout_ms
    then ok (record c { cwd = trim c.cwd })
    else err other
