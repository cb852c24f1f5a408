-- ===== src/Hostd/Action.antt =====
-- `run_action` of ops/openclaw_hostd.py: one process, and the files that tell how it ended. The
-- times in them are left out.

pub mod Run
use ai_ops_runner.Base.{
  ltb, if◌then◌else◌, get_or, length, take, drop, ℕ, ◌-◌, ◌*◌, String, Bool, true, false, not, ◌&&◌,
  Option, none, some, List, [], ◌∷◌, ◌++◌,
}
use mathlib.Core.List.{reverse}
use ai_ops_runner.Base.Dict
use ai_ops_runner.Base.Dict.{Dict}
use ai_ops_runner.Base.Int.{ℤ, pos, negsuc, is_zero}
use ai_ops_runner.Base.Json.{Json, null, bool, int, float, str, arr, obj, truthy, as_dict}
use ai_ops_runner.Base.Text.{Text, codes, strip, text_starts_with}
use ai_ops_runner.Base.Pieces.{split_lines, join}
use ai_ops_runner.Hostd.Registry.{Spec}

abbrev pub max_stdout_bytes : ℕ
max_stdout_bytes = 2 * 1024 * 1024

abbrev pub max_stderr_bytes : ℕ
max_stderr_bytes = 512 * 1024

abbrev pub propose_patch : String
propose_patch = "code.opencode.propose_patch"

-- what a process is started with, besides the root and the daemon's own environment
pub record Start : Type 0 where
  pub cmd : List Text
  pub timeout_sec : ℤ
  pub run_id : String
  pub console_run_id : Option Text

-- it returns its exit code and its output's bytes, its time is up, or starting it raises
pub data Process : Type 0 where
  ended : ℤ → Text → Text → Process
  late : Process
  raised : Text → Process

-- hostd_result.json
pub record Summary : Type 0 where
  pub ok : Bool
  pub action : String
  pub exit_code : Option ℤ
  pub run_id : String
  pub truncated : Bool
  pub error_class : Option Json

pub data Failure : Type 0 where
  exited_with : ℤ → Failure
  timed_out : ℤ → Failure
  raised_exception : Failure

-- error.json; the advice is settled by the reason
pub record ErrorReport : Type 0 where
  pub error_class : Json
  pub action : String
  pub reason : Failure
  pub underlying : Option Text

pub data Doc : Type 0 where
  params_json : Dict Json → Doc
  stdout_txt : Text → Doc
  stderr_txt : Text → Doc
  result_json : Summary → Doc
  error_json : ErrorReport → Doc
  error_summary : Json → String → ℤ → Text → Doc

-- the name of the file
unfoldable pub file_name : Doc → String
file_name (params_json d) = "params.json"
file_name (stdout_txt t) = "stdout.txt"
file_name (stderr_txt t) = "stderr.txt"
file_name (result_json s) = "hostd_result.json"
file_name (error_json r) = "error.json"
file_name (error_summary e a c t) = "ERROR_SUMMARY.txt"

-- What an action meets: the processes, the decoding of bytes with replacement, of a text as JSON,
-- whether the artifact directory can be made, which of its files can be written and
-- what a failing write says, and `str` of a number.
pub record Station : Type 0 where
  pub run : Start → Process
  pub decode : Text → Text
  pub loads : Text → Option Json
  pub makes_dir : Bool
  pub writes : String → Bool
  pub os_error : Text
  pub shows : ℤ → Text

-- (exit_code, stdout, stderr, truncated)
pub record ActionEnd : Type 0 where
  pub exit_code : ℤ
  pub stdout : Text
  pub stderr : Text
  pub truncated : Bool

-- What a call did: the process that it started, the files that it wrote, in order, and what it
-- returned, which is nothing when an exception escaped.
pub record ActionRun : Type 0 where
  pub started : Option Start
  pub written : List Doc
  pub end : Option ActionEnd

-- writes in order until one fails
unfoldable pub save_all : Station → List Doc → List Doc × Bool
unfolding file_name
save_all s [] = ([], true)
save_all s (d ∷ ds) =
    let (done, ok) = save_all s ds in if s.writes (file_name d) then (d ∷ done, ok) else ([], false)

-- a write whose OSError is swallowed
pub try_save : Station → Doc → List Doc
unfolding file_name
try_save s d = if s.writes (file_name d) then d ∷ [] else []

abbrev truncation_mark : Text
truncation_mark = 10 ∷ codes "... [truncated]"

-- the output up to the limit, and whether it was cut
unfoldable pub cut_output : ℕ → Text → Text × Bool
cut_output limit out =
    if ltb limit (length out) then (take limit out ++ truncation_mark, true) else (out, false)

truthy_class : Option Json → Option Json
truthy_class none = none
truthy_class (some v) = if truthy v then some v else none

class_of : Option Json → Option Json
unfolding truthy_class
class_of none = none
class_of (some v) = truthy_class (Dict.get (get_or (as_dict v) []) "error_class")

-- the error class that a line of the output states
line_class : Station → Text → Option Json
unfolding class_of
line_class s line = if text_starts_with line (codes "{") then class_of (s.loads line) else none

found_or : Option Json → Option Json → Option Json
found_or none later = later
found_or (some c) later = some c

stated_class : Station → List Text → Option Json
unfolding line_class found_or
stated_class s [] = none
stated_class s (l ∷ ls) = found_or (line_class s (strip l)) (stated_class s ls)

is_blank : Text → Bool
is_blank [] = true
is_blank (c ∷ s) = false

-- stderr says nothing and stdout says something
unfoldable pub speaks_on_stdout : Text → Text → Bool
unfolding is_blank
speaks_on_stdout out err = is_blank (strip err) && not (is_blank (strip out))

-- the class of a process that exits with a code other than 0
unfoldable pub exit_class : Station → Text → Text → Json
unfolding stated_class
exit_class s out err =
    if speaks_on_stdout out err
    then get_or (stated_class s (reverse (split_lines (strip out)))) (str "action_nonzero_exit")
    else str "action_nonzero_exit"

-- xs[-n:]
last_of {ℓ} : {A : Type ℓ} → ℕ → List A → List A
last_of n xs = drop (length xs - n) xs

detail : Text → Option Text
detail [] = none
detail (c ∷ s) = some (take 2000 (c ∷ s))

pub exit_report : Station → String → ℤ → Text → Text → ErrorReport
unfolding last_of detail
exit_report s action code out err = record {
  error_class = exit_class s out err;
  action = action;
  reason = exited_with code;
  underlying = detail (join (10 ∷ []) (last_of 3 (split_lines (strip err))));
}

pub summary_of : Station → String → ℤ → Text → Text → List Doc
unfolding try_save last_of
summary_of s action code out err =
    if speaks_on_stdout out err
    then try_save s (error_summary (exit_class s out err) action code (last_of 4000 out))
    else []

unfoldable pub returned : Start → List Doc → ActionEnd → ActionRun
returned p docs e = record { started = some p; written = docs; end = some e }

-- `except Exception`
pub on_exception : Station → String → Start → List Doc → Text → ActionRun
unfolding try_save returned
on_exception s action p docs e =
    let (tail, ok) = save_all s (
      stderr_txt e
      ∷ result_json record {
        ok = false;
        action = action;
        exit_code = none;
        run_id = p.run_id;
        truncated = false;
        error_class = none;
      }
      ∷ []) in
    let report = try_save s (
      error_json record {
        error_class = str "action_exception";
        action = action;
        reason = raised_exception;
        underlying = detail e;
      }) in
    returned p (docs ++ tail ++ (if ok then report else []))
      record { exit_code = negsuc 0; stdout = []; stderr = e; truncated = false }

timeout_end : Text → Bool → Option ActionEnd
timeout_end e true = some record { exit_code = negsuc 0; stdout = []; stderr = e; truncated = true }
timeout_end e false = none

-- `except subprocess.TimeoutExpired`, whose own writes are not guarded
pub on_timeout : Station → String → Start → ActionRun
unfolding try_save timeout_end
on_timeout s action p =
    let e = codes "Action timed out after " ++ s.shows p.timeout_sec ++ codes "s" in
    let (docs, ok) = save_all s (
      stderr_txt e
      ∷ result_json record {
        ok = false;
        action = action;
        exit_code = none;
        run_id = p.run_id;
        truncated = true;
        error_class = none;
      }
      ∷ []) in
    let report = try_save s (
      error_json record {
        error_class = str "action_timeout";
        action = action;
        reason = timed_out p.timeout_sec;
        underlying = none;
      }) in
    record {
      started = some p;
      written = docs ++ (if ok then report else []);
      end = timeout_end e ok;
    }
