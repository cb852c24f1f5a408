-- ===== src/Runner/Worker.antt =====
-- worker.py of services/test_runner: the loop that takes ids from the queue and runs their jobs.
pub mod Drains
use ai_ops_runner.Base.{String, Option, none, some, List, [], ◌∷◌}
use ai_ops_runner.Base.Int.{negsuc}
use ai_ops_runner.Runner.Models.{JobRecord, running, error}
use ai_ops_runner.Runner.Store.{Table, get_job, update_job, dequeue_job}
use ai_ops_runner.Runner.Executor.Setting.{Machine, Ended, returned, raised}
use ai_ops_runner.Runner.Executor.{execute_job}

-- the database and the queue
pub record Work : Type 0 where
  pub table : Table
  pub queue : List String

-- the job after the `try` around `execute_job`
after_run : Machine → Ended → JobRecord
after_run m (returned r art removed) = r.job
after_run m (raised j) = record j {
  status = error;
  exit_code = some (negsuc 0);
  finished_at = some m.finish;
}

mark_running : Machine → JobRecord → JobRecord
mark_running m row = record row { status = running; started_at = some m.start }

-- the fields of the last `update_job`
persist : JobRecord → JobRecord → JobRecord
persist j row = record row {
  status = j.status;
  started_at = j.started_at;
  finished_at = j.finished_at;
  duration_ms = j.duration_ms;
  exit_code = j.exit_code;
  hostname = j.hostname;
  trace_id = j.trace_id;
  input_hash = j.input_hash;
  allowlist_hash = j.allowlist_hash;
  artifact_dir = j.artifact_dir;
}

on_row : Machine → String → Option JobRecord → Table → Table
unfolding after_run mark_running persist
on_row m id none t = t
on_row m id (some j) t =
    update_job (update_job t id (mark_running m)) id (persist (after_run m (execute_job m j)))

-- the loop's body, once an id has been taken
unfoldable pub process_job : Machine → String → Table → Table
unfolding on_row
process_job m id t = on_row m id (get_job t id) t

on_taken : Machine → Option String × List String → Table → Work
unfolding process_job
on_taken m (none, q) t = record { table = t; queue = q }
on_taken m (some id, q) t = record { table = process_job m id t; queue = q }

-- `run_worker`: the turns of the loop until the signal to shut down, each with what it meets
unfoldable pub run_worker : List Machine → Work → Work
unfolding on_taken
run_worker [] s = s
run_worker (m ∷ ms) s = run_worker ms (on_taken m (dequeue_job s.queue) s.table)
