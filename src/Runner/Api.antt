-- ===== src/Runner/Api.antt =====
-- api.py of services/test_runner: submission of a job, and the reads of its row and logs.
pub mod Submits
use ai_ops_runner.Base.{
  if◌then◌else◌, get_or, length, drop, keep, string_eq, contains, ℕ, ◌-◌, String, Bool, true, false,
  not, Option, none, some, List, [], ◌∷◌,
}
use ai_ops_runner.Base.Dict
use ai_ops_runner.Base.Dict.{Dict}
use ai_ops_runner.Base.Text.{Text}
use ai_ops_runner.Runner.Models.{JobRecord, JobStatus, queued}
use ai_ops_runner.Runner.Allowlist.{
  AllowedJob, Loader, Cache, Resolved, resolved, not_allowlisted, unreadable, crashed, resolve_job,
}
use ai_ops_runner.Runner.Repos.{
  ConfigFile, ConfigError, not_iterable, Checked, allowed, empty_url, repo_not_allowed,
  repo_name_mismatch, bad_config, validate_repo,
}
use ai_ops_runner.Runner.Store.{
  Table, get_job, Inserted, inserted, existing, duplicate_id, insert_job, enqueue_job,
}

pub record SubmitJobRequest : Type 0 where
  pub repo_name : String
  pub remote_url : String
  pub sha : String
  pub job_type : String
  pub idempotency_key : Option String
  pub params : Option (Dict String)

-- the database, the queue, the params.json of each artifact directory and the allowlist's cache
pub record Service : Type 0 where
  pub table : Table
  pub queue : List String
  pub params_files : Dict (Dict String)
  pub cache : Cache

-- What a request finds: the two allowlist files, a new id, the directory made for it, the time, and
-- whether Redis takes an id.
pub record Surroundings : Type 0 where
  pub loader : Loader
  pub job_allowlist : Option Text
  pub repo_allowlist : ConfigFile
  pub new_job_id : String
  pub artifact_dir : String → String
  pub now : String
  pub queue_ok : Bool

pub data Refusal : Type 0 where
  no_such_job : String → Refusal
  no_allowlist : Refusal
  bad_repo : Checked → Refusal
  params_not_allowed : List String → Refusal

-- status 201, 400 or 500
pub data SubmitResponse : Type 0 where
  submitted : String → String → JobStatus → SubmitResponse
  refused : Refusal → SubmitResponse
  server_error : SubmitResponse

pub data RepoVerdict : Type 0 where
  passed raised : RepoVerdict
  stopped : Refusal → RepoVerdict

-- the two `except` clauses around `validate_repo`
repo_verdict : Checked → RepoVerdict
repo_verdict (allowed r) = passed
repo_verdict (bad_config not_iterable) = raised
repo_verdict c = stopped (bad_repo c)

unfoldable pub check_repo : Surroundings → SubmitJobRequest → AllowedJob → RepoVerdict
unfolding repo_verdict
check_repo w req a =
    if a.requires_repo_allowlist
    then repo_verdict (validate_repo w.repo_allowlist req.remote_url (some req.repo_name))
    else passed

-- `set(req.params.keys()) - allowed.allowed_params`
unfoldable pub invalid_params : Option (Dict String) → List String → List String
invalid_params none names = []
invalid_params (some d) names = keep (λ k. not (contains names k)) (Dict.keys d)

unfoldable pub new_record : Surroundings → SubmitJobRequest → AllowedJob → JobRecord
new_record w req a = record {
  job_id = w.new_job_id;
  repo_name = req.repo_name;
  remote_url = req.remote_url;
  sha = req.sha;
  job_type = req.job_type;
  argv = a.argv;
  timeout_sec = a.timeout_sec;
  status = queued;
  idempotency_key = req.idempotency_key;
  started_at = none;
  finished_at = none;
  duration_ms = none;
  exit_code = none;
  hostname = none;
  trace_id = none;
  input_hash = none;
  allowlist_hash = none;
  artifact_dir = some (w.artifact_dir w.new_job_id);
  created_at = some w.now;
}

-- params.json, for a request with parameters
unfoldable pub write_params :
    String → Option (Dict String) → Dict (Dict String) → Dict (Dict String)
write_params id none files = files
write_params id (some []) files = files
write_params id (some (p ∷ ps)) files = Dict.put files id (p ∷ ps)

answered : Bool → Surroundings → JobRecord → Service → SubmitResponse × Service
answered true w j s = (
  submitted j.job_id (get_or j.artifact_dir (w.artifact_dir w.new_job_id)) j.status,
  record s { queue = enqueue_job s.queue j.job_id },
)
answered false w j s = (server_error, s)

-- the queue and the answer; a failure of Redis leaves what the database holds by then
unfoldable pub accept : Surroundings → JobRecord → Service → SubmitResponse × Service
unfolding answered
accept w j s = answered w.queue_ok w j s

on_inserted : Surroundings → Inserted → Service → SubmitResponse × Service
unfolding accept
on_inserted w (inserted j) s = accept w j s
on_inserted w (existing j) s = accept w j s
on_inserted w duplicate_id s = (server_error, s)

create : Surroundings → SubmitJobRequest → AllowedJob → Service → SubmitResponse × Service
unfolding write_params on_inserted
create w req a s =
    let written = insert_job s.table (new_record w req a) in
    on_inserted w written.0 record s {
      table = written.1;
      params_files = write_params w.new_job_id req.params s.params_files;
    }

on_params :
    List String → Surroundings → SubmitJobRequest → AllowedJob → Service → SubmitResponse × Service
unfolding create
on_params [] w req a s = create w req a s
on_params (k ∷ ks) w req a s = (refused (params_not_allowed (k ∷ ks)), s)

on_repo :
    RepoVerdict → Surroundings → SubmitJobRequest → AllowedJob → Service → SubmitResponse × Service
unfolding on_params
on_repo (stopped r) w req a s = (refused r, s)
on_repo raised w req a s = (server_error, s)
on_repo passed w req a s = on_params (invalid_params req.params a.allowed_params) w req a s

on_resolved : Resolved → Surroundings → SubmitJobRequest → Service → SubmitResponse × Service
unfolding on_repo
on_resolved (not_allowlisted t) w req s = (refused (no_such_job t), s)
on_resolved unreadable w req s = (refused no_allowlist, s)
on_resolved crashed w req s = (server_error, s)
on_resolved (resolved a) w req s = on_repo (check_repo w req a) w req a s

-- `submit_job`
unfoldable pub submit_job : Surroundings → SubmitJobRequest → Service → SubmitResponse × Service
unfolding on_resolved
submit_job w req s =
    let found = resolve_job w.loader w.job_allowlist req.job_type s.cache in
    on_resolved found.0 w req (record s { cache = found.1 })

-- `get_job_status`; `none` is the 404
unfoldable pub get_job_status : Service → String → Option JobRecord
get_job_status s id = get_job s.table id

pub record Logs : Type 0 where
  pub lines : List String
  pub total_lines : ℕ

-- `get_job_logs`, from the lines of the log file, if there is one; `tail` lies in 1..10000
unfoldable pub get_job_logs : Option (List String) → ℕ → Option Logs
get_job_logs none tail = none
get_job_logs (some lines) tail =
    some record { lines = drop (length lines - tail) lines; total_lines = length lines }
