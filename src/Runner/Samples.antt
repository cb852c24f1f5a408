-- ===== src/Runner/Samples.antt =====
-- Runs of the job runner on small inputs.
use ai_ops_runner.Base.{
  if◌then◌else◌, Bool-cases, All, eq_iff, String, ◌≡◌, refl, ◌↔◌, inl, inr, true, false, none, some,
  [], ◌∷◌, ◌++◌, arith,
}
use ai_ops_runner.Base.Dict
use ai_ops_runner.Base.Json
use ai_ops_runner.Base.Dict.{Dict}
use ai_ops_runner.Base.Int.{pos}
use ai_ops_runner.Base.Json.{Json, null, str, obj, field, end}
use ai_ops_runner.Base.Text.{Text, codes, text_eq, text_eq_iff, strip, lower_code}
use ai_ops_runner.Runner.Models.{JobRecord, success}
use ai_ops_runner.Runner.Allowlist.{
  AllowedJob, JobSpec, Loader, Cache, build_jobs, parse_jobs, load_allowlist, resolve_job,
}
use ai_ops_runner.Runner.Allowlist.Cache.{load_allowlist-IsValid, IsValid, read_jobs}
use ai_ops_runner.Runner.Repos.{
  ConfigFile, content, load_repo_allowlist, read_entries, normalize_url, find_repo, validate_repo,
}
use ai_ops_runner.Runner.Repos.Url.{canonicalize_url}
use ai_ops_runner.Runner.Repos.Url.Forms.{ssh_agrees_https}
use ai_ops_runner.Runner.Store.{get_job, has_key, get_by_key, conflict, insert_job}
use ai_ops_runner.Runner.Api.{
  SubmitJobRequest, Service, Surroundings, check_repo, invalid_params, new_record, accept,
  submit_job,
}
use ai_ops_runner.Runner.Api.Submits.{Submission, submit_job-Submission}
use ai_ops_runner.Runner.Api.Submits.Effects.{
  WellFormed, submit_job-WellFormed, resubmitted_queues_again,
}
use ai_ops_runner.Runner.Executor.Setting.{
  upper, set_variable, add_params, Launch, exited, no_hooks, Machine, Invariants, Execution,
  Artifact, returned,
}
use ai_ops_runner.Runner.Executor.{is_clean, launch_of, execute_job}
use ai_ops_runner.Runner.Executor.Ends.{Succeeds, execute_job-Succeeds}
use ai_ops_runner.Runner.Executor.Settles.{IsSettled, execute_job-IsSettled}
use ai_ops_runner.Runner.Executor.Environment.{lookup, or_value, param_for, lookup-launch_of}
use ai_ops_runner.Runner.Worker.{run_worker}
use ai_ops_runner.Runner.Worker.Drains.{IsFinished, run_worker-Drains}

abbrev raw_jobs : Text
raw_jobs = codes "jobs"

abbrev lint_spec : JobSpec
lint_spec = record {
  argv = some ("make" ∷ "lint" ∷ []);
  timeout_sec = some 60;
  allowed_params = some ("since" ∷ []);
  requires_repo_allowlist = some true;
}

abbrev loader : Loader
loader = record {
  sha256 = λ t. if text_eq t raw_jobs then "d1" else "d2";
  yaml = λ t. some (("lint", lint_spec) ∷ []);
}

abbrev repos_file : ConfigFile
repos_file = content (
    obj (
      field "repos"
        (obj (field "app" (obj (field "url" (str "git@github.com:Org/App.git") end)) end)) end))

abbrev surroundings : Surroundings
surroundings = record {
  loader = loader;
  job_allowlist = some raw_jobs;
  repo_allowlist = repos_file;
  new_job_id = "j2";
  artifact_dir = λ id. id;
  now = "noon";
  queue_ok = true;
}

abbrev request : SubmitJobRequest
request = record {
  repo_name = "app";
  remote_url = "https://github.com/org/app";
  sha = "abc";
  job_type = "lint";
  idempotency_key = some "k1";
  params = some (("since", "main") ∷ []);
}

-- a job that has ended, and that a client submits again
abbrev ended_job : JobRecord
ended_job = record {
  job_id = "j1";
  repo_name = "app";
  remote_url = "https://github.com/org/app";
  sha = "abc";
  job_type = "lint";
  argv = "make" ∷ "lint" ∷ [];
  timeout_sec = 60;
  status = success;
  idempotency_key = some "k1";
  started_at = some "ten";
  finished_at = some "eleven";
  duration_ms = some 5;
  exit_code = some (pos 0);
  hostname = some "h";
  trace_id = some "t";
  input_hash = some "i";
  allowlist_hash = some "d1";
  artifact_dir = some "j1";
  created_at = some "nine";
}

abbrev service : Service
service = record { table = ended_job ∷ []; queue = []; params_files = []; cache = none }

abbrev machine : Machine
machine = record {
  loader = loader;
  job_allowlist = some raw_jobs;
  cache = none;
  sha256 = λ t. "i";
  allowlist_hash = some "d1";
  trace_id = "t2";
  hostname = "h2";
  start = "one";
  finish = "two";
  artifact_dir = λ id. id;
  mirror_ok = true;
  worktree = some "/work/j1/repo";
  hooks = no_hooks;
  params = some (("since", "main") ∷ ("path", "/bin") ∷ []);
  environ = (codes "PATH", "/usr/bin") ∷ [];
  run = λ l. exited (pos 0) 7;
  tree = record { git_raises = false; porcelain = []; diff_code = pos 0; porcelain_again = none };
  error_before = none;
  error_writable = true;
  outputs = "stdout.log" ∷ [];
  size_cap = null;
  artifact_writable = true;
}

abbrev lint_job : AllowedJob
lint_job = record {
  name = "lint";
  argv = "make" ∷ "lint" ∷ [];
  timeout_sec = 60;
  allowed_params = "since" ∷ [];
  requires_repo_allowlist = true;
}

abbrev warm : Cache
warm = some ("d1", ("lint", lint_job) ∷ [])

digest_distinct : (b : Text) → loader.sha256 b ≡ loader.sha256 raw_jobs → b ≡ raw_jobs
digest_distinct b h = elim (Bool-cases (text_eq b raw_jobs)) [
  | inl e ↦ (text_eq_iff b raw_jobs).0 e
  | inr e ↦ absurd (ground (arith, e, h, eq_iff "d2" "d1"))
]

warm_load :
    ((load_allowlist loader (some raw_jobs) warm).0 ≡ read_jobs (parse_jobs (loader.yaml raw_jobs)))
    × IsValid loader (load_allowlist loader (some raw_jobs) warm).1
unfolding build_jobs parse_jobs
warm_load = load_allowlist-IsValid loader raw_jobs warm digest_distinct (raw_jobs, refl, refl)

one_remote :
    canonicalize_url (codes "git@" ++ (codes "github.com" ++ b':' ∷ codes "Org/App.git"))
    ≡ canonicalize_url (codes "https://" ++ (codes "github.com" ++ b'/' ∷ codes "Org/App.git"))
one_remote = ssh_agrees_https (codes "github.com") (codes "Org/App.git") (
  λ e. cc,
  (refl, (refl, (refl, (refl, (refl, (refl, (refl, (refl, (refl, (refl, tt)))))))))),
  (refl, (refl, (refl, (refl, (refl, (refl, (refl, (refl, (refl, (refl, tt)))))))))),
)

submitted_again : Submission surroundings request service (submit_job surroundings request service)
submitted_again = submit_job-Submission surroundings request service

again_in_order : WellFormed (submit_job surroundings request service).1
unfolding get_job conflict get_by_key
again_in_order = submit_job-WellFormed surroundings request service ((refl, refl, tt), tt)

ran_again :
    (Path String "j1" ended_job.job_id)
    × (success ≡ ended_job.status)
    × ((submit_job surroundings request service).1.table ≡ service.table)
    × ((submit_job surroundings request service).1.queue ≡ service.queue ++ ended_job.job_id ∷ [])
unfolding submit_job conflict get_by_key has_key check_repo validate_repo resolve_job load_allowlist
    build_jobs parse_jobs load_repo_allowlist read_entries normalize_url canonicalize_url find_repo
    insert_job invalid_params accept new_record Dict.get strip Json.members Json.as_dict lower_code
ran_again =
    resubmitted_queues_again surroundings request service ended_job "j1" "j1" success refl refl

abbrev lint_launch : Launch
lint_launch = record {
  argv = "make" ∷ "lint" ∷ [];
  cwd = "/work/j1/repo";
  timeout_sec = 60;
  env = (codes "PATH", "/usr/bin") ∷ (codes "ARTIFACT_DIR", "j1") ∷ (codes "SINCE", "main") ∷ [];
}

-- the parameter that the job type does not allow is left out
launched :
    launch_of machine "/work/j1/repo" lint_job (("since", "main") ∷ ("path", "/bin") ∷ []) "j1"
    ≡ lint_launch
unfolding launch_of add_params set_variable upper
launched = refl

since_given :
    lookup
      (launch_of machine "/work/j1/repo" lint_job
        (("since", "main") ∷ ("path", "/bin") ∷ [])
        "j1").env
      (codes "SINCE")
    ≡ some "main"
unfolding lookup or_value param_for upper
since_given =
    lookup-launch_of machine "/work/j1/repo" lint_job (("since", "main") ∷ ("path", "/bin") ∷ [])
      "j1" (codes "SINCE")

drained :
    let s =
      run_worker (machine ∷ machine ∷ []) record { table = ended_job ∷ []; queue = "j1" ∷ [] } in
    (s.queue ≡ []) × All (IsFinished s.table) ("j1" ∷ [])
unfolding get_job
drained =
    run_worker-Drains (machine ∷ machine ∷ []) (ended_job ∷ []) ("j1" ∷ []) (refl, (refl, tt))
      ((ended_job, refl), tt) (omega arith)

abbrev ran_job : JobRecord
ran_job = record ended_job {
  status = success;
  started_at = some "one";
  finished_at = some "two";
  duration_ms = some 7;
  exit_code = some (pos 0);
  hostname = some "h2";
  trace_id = some "t2";
  artifact_dir = some "j1";
}

abbrev held : Invariants
held = record { read_only_ok = true; clean_tree_ok = true; mutated = false; changed_files = none }

abbrev ran : Execution
ran = record {
  job = ran_job;
  worktree_path = some "/work/j1/repo";
  invariants = held;
  params = ("since", "main") ∷ ("path", "/bin") ∷ [];
  error_file = none;
  launched = some lint_launch;
}

abbrev ran_artifact : Artifact
ran_artifact = record {
  job = ran_job;
  params = ("since", "main") ∷ ("path", "/bin") ∷ [];
  outputs = "stdout.log" ∷ [];
  invariants = held;
  size_cap_fallback = null;
  size_cap = none;
}

ran_well : execute_job machine ended_job ≡ returned ran ran_artifact (some "/work/j1/repo")
unfolding execute_job resolve_job load_allowlist build_jobs parse_jobs Dict.get launch_of add_params
    set_variable upper is_clean strip Json.truthy
ran_well = refl

row_ended :
    IsSettled machine ran
    × (ran_artifact.job ≡ ran.job)
    × (ran.job.finished_at ≡ some machine.finish)
    × (some "/work/j1/repo" ≡ ran.worktree_path)
row_ended =
    execute_job-IsSettled machine refl ended_job ran ran_artifact (some "/work/j1/repo") ran_well

success_explained : (ran.job.status ≡ success) ↔ Succeeds machine ended_job
success_explained =
    execute_job-Succeeds machine ended_job ran ran_artifact (some "/work/j1/repo") ran_well
