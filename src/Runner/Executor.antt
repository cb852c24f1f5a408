-- ===== src/Runner/Executor.antt =====
-- executor.py of services/test_runner: one job, from its mirror to its artifact. The log files of the
-- artifact directory are taken to open for appending.
pub mod Setting
pub mod Returns
pub mod Ends
pub mod Settles
pub mod Environment
use ai_ops_runner.Base.{
  if◌then◌else◌, get_or, ℕ, ◌*◌, String, Bool, true, false, not, ◌&&◌, Option, none, some, [], ◌∷◌,
  ◌++◌, map,
}
use mathlib.Core.Option
use ai_ops_runner.Base.Dict
use ai_ops_runner.Base.Dict.{Dict}
use ai_ops_runner.Base.Int.{ℤ, pos, negsuc, is_zero}
use ai_ops_runner.Base.Json.{Json, null, bool, str, arr, nil, cons, truthy, as_dict}
use ai_ops_runner.Base.Text.{Text, codes, strip, text_eq}
use ai_ops_runner.Runner.Models.{JobRecord, JobStatus, running, success, failure, error, timeout}
use ai_ops_runner.Runner.Allowlist.{
  AllowedJob, Resolved, resolved, not_allowlisted, unreadable, crashed, resolve_job,
}
use ai_ops_runner.Runner.Executor.Setting.{
  Environ, upper, set_variable, add_params, Launch, CommandEnd, exited, expired, failed_to_run,
  Hooks, no_hooks, hooks_set, hooks_failed, Tree, Machine, ErrorClass, job_nonzero_exit,
  mutation_detected, job_timeout, job_exception, Invariants, Execution, Flow, completed, time_limit,
  exception, SizeCap, Artifact, Ended, returned, raised,
}

-- `_write_error_artifact`
unfoldable pub write_error : Machine → ErrorClass → Execution → Execution
write_error m e r = if m.error_writable then record r { error_file = some e } else r

-- `assert_worktree_clean` does not raise
unfoldable pub is_clean : Tree → Bool
is_clean t = not t.git_raises && text_eq (strip t.porcelain) [] && is_zero t.diff_code

changed : Text → Option Text
changed [] = none
changed (c ∷ s) = some (c ∷ s)

-- the handler of MUTATION_DETECTED; its own `git status` may raise
mutation : Machine → Option Text → Execution → Flow × Execution
unfolding changed write_error
mutation m none r = (
  exception,
  record r {
    job = record r.job { status = failure };
    invariants = record r.invariants { clean_tree_ok = false; mutated = true };
  },
)
mutation m (some again) r = (
  completed,
  write_error m mutation_detected record r {
    job = record r.job { status = failure };
    invariants = record r.invariants {
      clean_tree_ok = false;
      mutated = true;
      changed_files = changed (strip again);
    };
  },
)

-- a git that cannot be run is no RuntimeError
unclean : Bool → Machine → Execution → Flow × Execution
unfolding mutation
unclean true m r = (exception, r)
unclean false m r = mutation m m.tree.porcelain_again r

-- step 7
check_tree : Machine → Execution → Flow × Execution
unfolding unclean is_clean
check_tree m r =
    if is_clean m.tree
    then (completed, record r { invariants = record r.invariants { clean_tree_ok = true } })
    else unclean m.tree.git_raises m r

after_exit : Machine → ℤ → ℕ → Execution → Execution
unfolding write_error
after_exit m code ms r =
    let ended = record r {
      job = record r.job {
        exit_code = some code;
        duration_ms = some ms;
        status = if is_zero code then success else failure;
      };
    } in
    if is_zero code then ended else write_error m job_nonzero_exit ended

on_ran : Machine → CommandEnd → Execution → Flow × Execution
unfolding check_tree after_exit
on_ran m expired r = (time_limit, r)
on_ran m failed_to_run r = (exception, r)
on_ran m (exited code ms) r = check_tree m (after_exit m code ms r)

unfoldable pub launch_of : Machine → String → AllowedJob → Dict String → String → Launch
unfolding add_params set_variable
launch_of m path a params id = record {
  argv = a.argv;
  cwd = path;
  timeout_sec = a.timeout_sec;
  env =
      add_params a.allowed_params params
        (set_variable m.environ (codes "ARTIFACT_DIR") (m.artifact_dir id));
}

-- steps 5 and 6
on_params : Machine → String → AllowedJob → Option (Dict String) → Execution → Flow × Execution
unfolding on_ran launch_of
on_params m path a none r = (exception, r)
on_params m path a (some ps) r =
    on_ran m (m.run (launch_of m path a ps r.job.job_id))
      record r { params = ps; launched = some (launch_of m path a ps r.job.job_id) }

-- step 4
on_resolved : Machine → String → Resolved → Execution → Flow × Execution
unfolding on_params
on_resolved m path (resolved a) r =
    on_params m path a m.params
      record r { job = record r.job { argv = a.argv; timeout_sec = a.timeout_sec } }
on_resolved m path _ r = (exception, r)

-- steps 2a and 3
on_hooks : Machine → String → Hooks → Execution → Flow × Execution
unfolding on_resolved
on_hooks m path hooks_failed r = (exception, r)
on_hooks m path _ r =
    on_resolved m path (resolve_job m.loader m.job_allowlist r.job.job_type m.cache).0
      record r { invariants = record r.invariants { read_only_ok = true } }

-- step 2
on_worktree : Machine → Option String → Execution → Flow × Execution
unfolding on_hooks
on_worktree m none r = (exception, r)
on_worktree m (some path) r = on_hooks m path m.hooks record r { worktree_path = some path }

-- the `try` block
attempt : Machine → Execution → Flow × Execution
unfolding on_worktree
attempt m r = if m.mirror_ok then on_worktree m m.worktree r else (exception, r)

-- the two `except` clauses
handle : Machine → Flow × Execution → Execution
unfolding write_error
handle m (completed, r) = r
handle m (time_limit, r) = write_error m job_timeout record r {
  job = record r.job {
    status = timeout;
    exit_code = some (negsuc 0);
    duration_ms = some (r.job.timeout_sec * 1000);
  };
}
handle m (exception, r) =
    write_error m job_exception
      record r { job = record r.job { status = error; exit_code = some (negsuc 0) } }

-- step 8b; `none` is the exception of `.get` on what is no dictionary
promote : Json → Option (Option SizeCap)
promote meta = if truthy meta then Option.map (λ d. some (fields d)) (as_dict meta) else some none
  where
    fields : Dict Json → SizeCap
    fields d = record {
      size_cap_exceeded = get_or (Dict.get d "size_cap_exceeded") (bool true);
      warnings = get_or (Dict.get d "warnings") (arr (cons (str "SIZE_CAP_EXCEEDED") nil));
      review_packets_archive =
          get_or (Dict.get d "review_packets_archive") (get_or (Dict.get d "archive_path") null);
      review_packets_dir =
          get_or (Dict.get d "review_packets_dir") (get_or (Dict.get d "packet_dir") null);
    }

artifact_for : Machine → Execution → Option SizeCap → Artifact
artifact_for m r cap = record {
  job = r.job;
  params = r.params;
  outputs = m.outputs;
  invariants = r.invariants;
  size_cap_fallback = m.size_cap;
  size_cap = cap;
}

conclude : Machine → Execution → Option (Option SizeCap) → Ended
unfolding artifact_for
conclude m r none = raised r.job
conclude m r (some cap) =
    if m.artifact_writable then returned r (artifact_for m r cap) r.worktree_path else raised r.job

-- the `finally` clause
pub finally_do : Machine → Execution → Ended
unfolding conclude promote
finally_do m r =
    let closed = record r {
      job = record r.job {
        finished_at = some m.finish;
        duration_ms = some (get_or r.job.duration_ms 0);
      };
    } in
    conclude m closed (promote m.size_cap)

unfoldable pub started : Machine → JobRecord → JobRecord
started m j = record j {
  trace_id = some m.trace_id;
  hostname = some m.hostname;
  status = running;
  started_at = some m.start;
  input_hash = some (
      m.sha256 (
        codes j.repo_name
        ++ b':' ∷ codes j.remote_url
        ++ b':' ∷ codes j.sha
        ++ b':' ∷ codes j.job_type));
}

first_run : Machine → JobRecord → String → Execution
first_run m j hash = record {
  job = record j { allowlist_hash = some hash; artifact_dir = some (m.artifact_dir j.job_id) };
  worktree_path = none;
  invariants = record {
    read_only_ok = false;
    clean_tree_ok = false;
    mutated = false;
    changed_files = none;
  };
  params = [];
  error_file = m.error_before;
  launched = none;
}

on_hash : Machine → JobRecord → Option String → Ended
unfolding attempt handle finally_do first_run
on_hash m j none = raised j
on_hash m j (some hash) = finally_do m (handle m (attempt m (first_run m j hash)))

-- `execute_job`
unfoldable pub execute_job : Machine → JobRecord → Ended
unfolding on_hash started
execute_job m j = on_hash m (started m j) m.allowlist_hash
