-- ===== src/Execution/Validation/Laws.antt =====
-- The fixed commands of the diagnostic runs pass the validation.
use moatazalasrai.Prelude.{◌≡◌, refl, true, false, arith, any, ◌≤◌}
use moatazalasrai.Prelude.Text.{
  codes, text_eq, has_text, includes_text, trim, starts_with, ends_with,
}
use moatazalasrai.Execution.Errors.{ok}
use moatazalasrai.Execution.Schema.{Limits, Scenario, success, failure, timeout, secrets}
use moatazalasrai.Execution.Quota.{is_valid}
use moatazalasrai.Execution.Worker.Diagnostic.{parse_command, between}
use moatazalasrai.Execution.Validation.Path.{normalize_workspace_path}
use moatazalasrai.Execution.Validation.{
  CommandRequest, diagnostic_request, diagnostic_program, diagnostic_programs, diagnostic_command,
  is_diagnostic, is_python, is_key, has_nul, validate_command, sanitize_environment, parse_request,
}

root_path : normalize_workspace_path (codes ".") ≡ ok (codes ".")
unfolding normalize_workspace_path trim text_eq starts_with ends_with
root_path = refl

listed : (scenario : Scenario) → has_text diagnostic_programs (diagnostic_program scenario) ≡ true
unfolding diagnostic_programs has_text text_eq
listed success = refl
listed failure = refl
listed timeout = refl
listed secrets = refl

plain :
    (scenario : Scenario) (l : Limits)
    → any has_nul (diagnostic_request scenario l).command.argv ≡ false
unfolding diagnostic_request diagnostic_program
plain success l = refl
plain failure l = refl
plain timeout l = refl
plain secrets l = refl

timeout_bounds : (l : Limits) → is_valid l ≡ true → (1000 ≤ l.timeout_ms) × (l.timeout_ms ≤ 1800000)
unfolding is_valid
timeout_bounds l h = ground arith

in_time :
    (scenario : Scenario) (l : Limits)
    → is_valid l ≡ true
    → between 1000 1800000 (diagnostic_request scenario l).command.timeout_ms ≡ true
unfolding diagnostic_request
in_time timeout l h = ground (arith, timeout_bounds l h)
in_time _ l h = ground (arith, timeout_bounds l h)

parsed :
    (scenario : Scenario) (l : Limits)
    → is_valid l ≡ true
    → parse_command (diagnostic_request scenario l).command
      ≡ ok (diagnostic_request scenario l).command
unfolding parse_command diagnostic_request diagnostic_program trim
parsed success l h = rw (in_time success l h) refl
parsed failure l h = rw (in_time failure l h) refl
parsed timeout l h = rw (in_time timeout l h) refl
parsed secrets l h = rw (in_time secrets l h) refl

safe :
    (scenario : Scenario) (l : Limits)
    → sanitize_environment (diagnostic_request scenario l).environment
      ≡ ok (diagnostic_request scenario l).environment
unfolding sanitize_environment diagnostic_request has_text text_eq includes_text starts_with
safe success l = refl
safe failure l = refl
safe timeout l = refl
safe secrets l = refl

validate_command-ok :
    (r : CommandRequest)
    → parse_request r ≡ ok r
    → any has_nul r.command.argv ≡ false
    → is_python r.command.argv ≡ true
    → is_diagnostic r.command.argv ≡ true
    → normalize_workspace_path r.command.cwd ≡ ok r.command.cwd
    → sanitize_environment r.environment ≡ ok r.environment
    → validate_command r ≡ ok r
unfolding validate_command
validate_command-ok r parse plain python diagnostic root safe =
    rw (parse, plain, python, diagnostic, root, safe)

request-parsed :
    (scenario : Scenario) (l : Limits)
    → is_valid l ≡ true
    → parse_request (diagnostic_request scenario l) ≡ ok (diagnostic_request scenario l)
unfolding parse_request is_key
request-parsed scenario l h = rw (parsed scenario l h) (unfold diagnostic_request in refl)

python :
    (scenario : Scenario) (l : Limits)
    → is_python (diagnostic_request scenario l).command.argv ≡ true
unfolding diagnostic_request has_text text_eq
python scenario l = refl

diagnostic :
    (scenario : Scenario) (l : Limits)
    → is_diagnostic (diagnostic_request scenario l).command.argv ≡ true
unfolding diagnostic_request
diagnostic scenario l = rw (listed scenario) (unfold text_eq in refl)

rooted :
    (scenario : Scenario) (l : Limits)
    → normalize_workspace_path (diagnostic_request scenario l).command.cwd
      ≡ ok (diagnostic_request scenario l).command.cwd
unfolding diagnostic_request
rooted scenario l = root_path

-- The command of every scenario passes the validation unchanged, if the limits are valid.
pub diagnostic_command-ok :
    (scenario : Scenario) (l : Limits)
    → is_valid l ≡ true
    → diagnostic_command scenario l ≡ ok (diagnostic_request scenario l)
unfolding diagnostic_command
diagnostic_command-ok scenario l h =
    validate_command-ok (diagnostic_request scenario l) (request-parsed scenario l h)
      (plain scenario l) (python scenario l) (diagnostic scenario l) (rooted scenario l)
      (safe scenario l)
