-- ===== src/Runner/Allowlist.antt =====
-- allowlist.py of services/test_runner: the job types that may run, cached by the file's digest.
pub mod Cache
use ai_ops_runner.Base.{
  if◌then◌else◌, get_or, ◌==◌, string_eq, ℕ, String, Bool, false, Option, none, some, List, [], ◌∷◌,
}
use ai_ops_runner.Base.Dict
use ai_ops_runner.Base.Dict.{Dict}
use ai_ops_runner.Base.Text.{Text}

pub record AllowedJob : Type 0 where
  pub name : String
  pub argv : List String
  pub timeout_sec : ℕ
  pub allowed_params : List String
  pub requires_repo_allowlist : Bool

-- an entry of the YAML file
pub record JobSpec : Type 0 where
  pub argv : Option (List String)
  pub timeout_sec : Option ℕ
  pub allowed_params : Option (List String)
  pub requires_repo_allowlist : Option Bool

abbrev pub Jobs : Type 0
Jobs = Dict AllowedJob

allowed_job : String → List String → JobSpec → AllowedJob
allowed_job name argv spec = record {
  name = name;
  argv = argv;
  timeout_sec = get_or spec.timeout_sec 600;
  allowed_params = get_or spec.allowed_params [];
  requires_repo_allowlist = get_or spec.requires_repo_allowlist false;
}

add_job : String → Option (List String) → JobSpec → Option Jobs → Option Jobs
unfolding allowed_job
add_job name none spec rest = none
add_job name (some argv) spec none = none
add_job name (some argv) spec (some jobs) = some ((name, allowed_job name argv spec) ∷ jobs)

-- the loop of `load_allowlist`; `none` is the KeyError of an entry with no argv
unfoldable pub build_jobs : Dict JobSpec → Option Jobs
unfolding add_job
build_jobs [] = some []
build_jobs ((name, spec) ∷ d) = add_job name spec.argv spec (build_jobs d)

-- the file's entries, if it is YAML; `none` is an exception
unfoldable pub parse_jobs : Option (Dict JobSpec) → Option Jobs
unfolding build_jobs
parse_jobs none = none
parse_jobs (some d) = build_jobs d

-- `sha256_bytes`, and the entries of `yaml.safe_load(raw)`, which may raise
pub record Loader : Type 0 where
  pub sha256 : Text → String
  pub yaml : Text → Option (Dict JobSpec)

abbrev pub Cache : Type 0
Cache = Option (String × Jobs)

pub data Loaded : Type 0 where
  loaded : Jobs → Loaded
  no_file bad_spec : Loaded

stored : String → Option Jobs → Cache → Loaded × Cache
stored digest none c = (bad_spec, c)
stored digest (some jobs) c = (loaded jobs, some (digest, jobs))

miss : Loader → Text → Cache → Loaded × Cache
unfolding stored
miss l raw c = stored (l.sha256 raw) (parse_jobs (l.yaml raw)) c

load_raw : Loader → Text → Cache → Loaded × Cache
unfolding miss
load_raw l raw none = miss l raw none
load_raw l raw (some (digest, jobs)) =
    if digest == l.sha256 raw
    then (loaded jobs, some (digest, jobs))
    else miss l raw (some (digest, jobs))

-- `load_allowlist`, from the file's content and the cache to the jobs and the new cache
unfoldable pub load_allowlist : Loader → Option Text → Cache → Loaded × Cache
unfolding load_raw
load_allowlist l none c = (no_file, c)
load_allowlist l (some raw) c = load_raw l raw c

pub data Resolved : Type 0 where
  resolved : AllowedJob → Resolved
  not_allowlisted : String → Resolved
  unreadable : Resolved
  crashed : Resolved

look_up : String → Loaded → Resolved
look_up t no_file = unreadable
look_up t bad_spec = crashed
look_up t (loaded jobs) = elim (Dict.get jobs t) [ none ↦ not_allowlisted t | some j ↦ resolved j ]

-- `resolve_job`
unfoldable pub resolve_job : Loader → Option Text → String → Cache → Resolved × Cache
unfolding look_up
resolve_job l file t c = (look_up t (load_allowlist l file c).0, (load_allowlist l file c).1)
