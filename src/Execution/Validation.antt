-- ===== src/Execution/Validation.antt =====
-- `sanitizeCommandEnvironment`, `validateCommandRequest` and `diagnosticCommand` of
-- lib/execution/validation.ts.
pub mod Path
pub mod Laws
use moatazalasrai.Prelude.{
  ℕ, ◌+◌, Bool, true, false, ◌&&◌, ◌||◌, not, List, [], ◌∷◌, ◌++◌, Option, none, some, ◌==◌, leb,
  min, if◌then◌else◌, any, map, length,
}
use moatazalasrai.Prelude.Text.{Text, codes, text_eq, has_text, includes_text}
use moatazalasrai.Execution.Errors.{
  Result, ok, err, ◌>>=◌, ◌>>◌, guard, refuse, other, input_not_allowed,
}
use moatazalasrai.Execution.Schema.{Command, Limits, Scenario, success, failure, timeout, secrets}
use moatazalasrai.Execution.Worker.Diagnostic.{parse_command}
use moatazalasrai.Execution.Validation.Path.{normalize_workspace_path, join_with}

pub record Variable : Type 0 where
  pub key : Text
  pub value : Text

-- `CommandRequest`; the kernel gives no standard input.
pub record CommandRequest : Type 0 where
  pub command : Command
  pub environment : List Variable

unfoldable pub safe_environment : List Text
safe_environment =
    codes "LANG" ∷ codes "LC_ALL" ∷ codes "TZ" ∷ codes "NO_COLOR" ∷ codes "PYTHONIOENCODING" ∷ []

-- The words of `FORBIDDEN_ENVIRONMENT`, in lower case.
unfoldable pub forbidden_words : List Text
forbidden_words =
    codes "database_url"
    ∷ codes "railway"
    ∷ codes "secret"
    ∷ codes "token"
    ∷ codes "password"
    ∷ codes "cookie"
    ∷ codes "session"
    ∷ codes "encryption"
    ∷ codes "api_key"
    ∷ codes "access_key"
    ∷ codes "private_key"
    ∷ []

-- The flag `i` of a pattern of ASCII letters.
abbrev fold_case : ℕ → ℕ
fold_case c = if leb 65 c && leb c 90 then c + 32 else c

unfoldable pub is_forbidden : Text → Bool
unfolding forbidden_words
is_forbidden key = any (includes_text (map fold_case key)) forbidden_words

-- The variables in the order given; the first that is not safe is thrown.
unfoldable pub sanitize_environment : List Variable → Result (List Variable)
unfolding safe_environment is_forbidden
sanitize_environment [] = ok []
sanitize_environment (v ∷ vs) = do
  guard (not (not (has_text safe_environment v.key) || is_forbidden v.key))
      (refuse input_not_allowed)
  rest ← sanitize_environment vs
  ok (v ∷ rest)

-- `diagnosticPrograms`
unfoldable pub diagnostic_program : Scenario → Text
unfolding join_with
diagnostic_program success = join_with (codes "; ") (
    codes "from pathlib import Path"
    ∷ codes "value = 2 + 2"
    ∷ codes "print(value)"
    ∷ codes "Path('result.txt').write_text(str(value) + '\\n', encoding='utf-8')"
    ∷ [])
diagnostic_program failure =
    codes "import sys; sys.stderr.write('diagnostic failure\\n'); raise SystemExit(7)"
diagnostic_program timeout = codes "import time; print('started', flush=True); time.sleep(3600)"
diagnostic_program secrets = join_with (codes "; ") (
    codes "import os"
    ∷ codes "from pathlib import Path"
    ∷ codes
        "blocked = [k for k in os.environ if any(x in k.upper() for x in ('DATABASE','SECRET','TOKEN','PASSWORD','RAILWAY','ENCRYPTION','API_KEY'))]"
    ∷ codes "print('safe' if not blocked else 'leak')"
    ∷ codes
        "Path('result.txt').write_text('safe\\n' if not blocked else 'leak:' + ','.join(blocked), encoding='utf-8')"
    ∷ [])

-- `Object.values(diagnosticPrograms)`
unfoldable pub diagnostic_programs : List Text
unfolding diagnostic_program
diagnostic_programs =
    diagnostic_program success
    ∷ diagnostic_program failure
    ∷ diagnostic_program timeout
    ∷ diagnostic_program secrets
    ∷ []

abbrev has_nul : Text → Bool
has_nul t = any (λ c. c == 0) t

-- `new Set(["python", "python3"]).has(argv[0])`
abbrev is_python : List Text → Bool
is_python [] = false
is_python (a ∷ rest) = has_text (codes "python" ∷ codes "python3" ∷ []) a

-- `argv[1] === "-c" && argv.length === 3 && programs.includes(argv[2])`
abbrev is_diagnostic : List Text → Bool
is_diagnostic (a ∷ b ∷ c ∷ []) = text_eq b (codes "-c") && has_text diagnostic_programs c
is_diagnostic _ = false

abbrev is_key_start : ℕ → Bool
is_key_start c = (leb b'A' c && leb c b'Z') || c == b'_'

abbrev is_bad_key_char : ℕ → Bool
is_bad_key_char c = not (is_key_start c || (leb b'0' c && leb c b'9'))

-- `/^[A-Z_][A-Z0-9_]{0,63}$/`
unfoldable pub is_key : Text → Bool
is_key [] = false
is_key (c ∷ s) = is_key_start c && not (any is_bad_key_char s) && leb (length s) 63

abbrev is_bad_variable : Variable → Bool
is_bad_variable v = not (is_key v.key && leb (length v.value) 8192)

-- `commandRequestSchema.parse`
unfoldable pub parse_request : CommandRequest → Result CommandRequest
unfolding is_key
parse_request request = do
  parsed ← parse_command request.command
  guard (not (any is_bad_variable request.environment)) other
  ok (record request { command = parsed })

unfoldable pub validate_command : CommandRequest → Result CommandRequest
unfolding sanitize_environment parse_request
validate_command request = do
  accepted ← parse_request request
  let parsed = accepted.command
  guard (not (any has_nul parsed.argv)) (refuse input_not_allowed)
  guard (is_python parsed.argv) (refuse input_not_allowed)
  guard (is_diagnostic parsed.argv) (refuse input_not_allowed)
  cwd ← normalize_workspace_path parsed.cwd
  environment ← sanitize_environment accepted.environment
  ok (record { command = record parsed { cwd = cwd }; environment = environment })

abbrev is_timeout : Scenario → Bool
is_timeout timeout = true
is_timeout _ = false

-- The argument of `validateCommandRequest` in `diagnosticCommand`.
unfoldable pub diagnostic_request : Scenario → Limits → CommandRequest
diagnostic_request scenario limits = record {
  command = record {
    argv = codes "python3" ∷ codes "-c" ∷ diagnostic_program scenario ∷ [];
    cwd = codes ".";
    timeout_ms = if is_timeout scenario then min limits.timeout_ms 3000 else limits.timeout_ms;
  };
  environment =
      record { key = codes "LANG"; value = codes "C.UTF-8" }
      ∷ record { key = codes "LC_ALL"; value = codes "C.UTF-8" }
      ∷ record { key = codes "PYTHONIOENCODING"; value = codes "utf-8" }
      ∷ record { key = codes "NO_COLOR"; value = codes "1" }
      ∷ [];
}

unfoldable pub diagnostic_command : Scenario → Limits → Result CommandRequest
unfolding validate_command diagnostic_request
diagnostic_command scenario limits = validate_command (diagnostic_request scenario limits)
