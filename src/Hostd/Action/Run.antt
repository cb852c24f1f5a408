-- ===== src/Hostd/Action/Run.antt =====
-- `run_action` of ops/openclaw_hostd.py as a whole: what it writes before and after the process.
pub mod Records
pub mod Truth
use ai_ops_runner.Base.{
  if◌then◌else◌, keep, ◌==◌, string_eq, contains, String, Bool, true, false, ◌&&◌, ◌||◌, Option,
  none, some, List, [], ◌∷◌, ◌++◌,
}
use ai_ops_runner.Base.Dict
use ai_ops_runner.Base.Dict.{Dict}
use ai_ops_runner.Base.Int.{ℤ, negsuc, is_zero}
use ai_ops_runner.Base.Json.{Json, bool, int, float, str}
use ai_ops_runner.Base.Text.{Text, codes, strip}
use ai_ops_runner.Hostd.Token.{nonblank}
use ai_ops_runner.Hostd.Registry.{Spec}
use ai_ops_runner.Hostd.Action.{
  Start, Process, ended, late, raised, Station, Summary, Doc, stdout_txt, stderr_txt, result_json,
  error_json, params_json, ActionEnd, ActionRun, max_stdout_bytes, max_stderr_bytes, propose_patch,
  cut_output, save_all, try_save, exit_class, exit_report, summary_of, returned, on_exception,
  on_timeout,
}

-- hostd_result.json of a process that has ended
result_of : String → Start → ℤ → Bool → Option Json → Doc
result_of action p code cut c = result_json record {
  ok = is_zero code;
  action = action;
  exit_code = some code;
  run_id = p.run_id;
  truncated = cut;
  error_class = c;
}

after_class : Station → String → Start → List Doc → ActionEnd → List Doc × Bool → ActionRun
after_class s action p docs e (again, true) = returned p (docs ++ again) e
after_class s action p docs e (again, false) = on_exception s action p (docs ++ again) s.os_error

-- the process has failed: error.json, the summary, and the result once more with its class
on_nonzero : Station → String → Start → List Doc → ActionEnd → ActionRun
unfolding after_class result_of
on_nonzero s action p docs e =
    let report = try_save s (error_json (exit_report s action e.exit_code e.stdout e.stderr)) in
    let notes = report ++ summary_of s action e.exit_code e.stdout e.stderr in
    after_class s action p (docs ++ notes) e (
      save_all s
        (result_of action p e.exit_code e.truncated (some (exit_class s e.stdout e.stderr)) ∷ []))

by_exit : Station → String → Start → List Doc → ActionEnd → Bool → ActionRun
unfolding on_nonzero
by_exit s action p docs e true = returned p docs e
by_exit s action p docs e false = on_nonzero s action p docs e

after_files : Station → String → Start → ActionEnd → List Doc × Bool → ActionRun
unfolding by_exit
after_files s action p e (docs, false) = on_exception s action p docs s.os_error
after_files s action p e (docs, true) = by_exit s action p docs e (is_zero e.exit_code)

on_end : Station → String → Start → ActionEnd → ActionRun
unfolding after_files result_of
on_end s action p e = after_files s action p e (
    save_all s (
      stdout_txt e.stdout
      ∷ stderr_txt e.stderr
      ∷ result_of action p e.exit_code e.truncated none
      ∷ []))

-- the output is cut as bytes, then decoded
end_of : Station → ℤ → Text → Text → ActionEnd
end_of s code out err =
    let (o, o_cut) = cut_output max_stdout_bytes out in
    let (e, e_cut) = cut_output max_stderr_bytes err in
    record {
      exit_code = code;
      stdout = s.decode o;
      stderr = s.decode e;
      truncated = o_cut || e_cut;
    }

on_process : Station → String → Start → Process → ActionRun
unfolding on_end end_of
on_process s action p (ended code out err) = on_end s action p (end_of s code out err)
on_process s action p late = on_timeout s action p
on_process s action p (raised e) = on_exception s action p [] e

abbrev kept_params : List String
kept_params = "goal" ∷ "ref" ∷ "test_command" ∷ "dry_run" ∷ []

is_scalar : Json → Bool
is_scalar (str s) = true
is_scalar (bool b) = true
is_scalar (int n) = true
is_scalar (float x) = true
is_scalar _ = false

unfoldable pub filtered : Dict Json → Dict Json
unfolding is_scalar
filtered d = keep (λ e. contains kept_params e.0 && is_scalar e.1) d

-- `if params and action == …`
params_file : String → Option (Dict Json) → List Doc
unfolding filtered
params_file action none = []
params_file action (some []) = []
params_file action (some (e ∷ d)) =
    if action == propose_patch then params_json (filtered (e ∷ d)) ∷ [] else []

prefixed : List Doc → ActionRun → ActionRun
prefixed docs r = record r { written = docs ++ r.written }

failed : List Doc → ActionRun
failed docs = record { started = none; written = docs; end = none }

after_params : Station → String → Start → List Doc × Bool → ActionRun
unfolding prefixed failed on_process
after_params s action p (docs, false) = failed docs
after_params s action p (docs, true) = prefixed docs (on_process s action p (s.run p))

console_id : Option Text → Option Text
console_id none = none
console_id (some t) = nonblank (strip t)

start_of : Spec → String → Option Text → Start
unfolding console_id
start_of spec run_id console = record {
  cmd = spec.cmd;
  timeout_sec = spec.timeout_sec;
  run_id = run_id;
  console_run_id = console_id console;
}

refused_end : String → ActionEnd
refused_end action = record {
  exit_code = negsuc 0;
  stdout = [];
  stderr = codes "Action not in allowlist: " ++ codes action;
  truncated = false;
}

in_dir : Station → String → Start → Option (Dict Json) → Bool → ActionRun
unfolding after_params params_file failed
in_dir s action p params false = failed []
in_dir s action p params true = after_params s action p (save_all s (params_file action params))

on_spec : Station → String → String → Option (Dict Json) → Option Text → Option Spec → ActionRun
unfolding in_dir start_of refused_end
on_spec s action run_id params console none = record {
  started = none;
  written = [];
  end = some (refused_end action);
}
on_spec s action run_id params console (some spec) =
    in_dir s action (start_of spec run_id console) params s.makes_dir

-- `run_action`
unfoldable pub run_action :
    Station → Dict Spec → String → String → Option (Dict Json) → Option Text → ActionRun
unfolding on_spec
run_action s allowlist action run_id params console =
    on_spec s action run_id params console (Dict.get allowlist action)
