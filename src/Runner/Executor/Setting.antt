-- ===== src/Runner/Executor/Setting.antt =====
-- What a job execution meets and what it leaves: the outcomes of the calls out of executor.py, its
-- locals and its artifact.
use ai_ops_runner.Base.{
  leb, if◌then◌else◌, string_eq, contains, ℕ, ◌-◌, String, Bool, ◌&&◌, Option, List, [], ◌∷◌, map,
}
use ai_ops_runner.Base.Dict.{Dict}
use ai_ops_runner.Base.Int.{ℤ}
use ai_ops_runner.Base.Json.{Json}
use ai_ops_runner.Base.Text.{Text, codes, text_eq}
use ai_ops_runner.Runner.Models.{JobRecord}
use ai_ops_runner.Runner.Allowlist.{Loader, Cache}

-- str.upper()
unfoldable pub upper : Text → Text
upper s = map (λ c. if leb b'a' c && leb c b'z' then c - 32 else c) s

abbrev pub Environ : Type 0
Environ = List (Text × String)

unfoldable pub set_variable : Environ → Text → String → Environ
set_variable [] k v = (k, v) ∷ []
set_variable ((j, w) ∷ env) k v =
    let rest = set_variable env k v in if text_eq j k then (j, v) ∷ env else (j, w) ∷ rest

-- `for key, value in params.items(): if key in allowed_params: env[key.upper()] = value`
unfoldable pub add_params : List String → Dict String → Environ → Environ
unfolding upper set_variable
add_params names [] env = env
add_params names ((k, v) ∷ ps) env =
    add_params names ps (if contains names k then set_variable env (upper (codes k)) v else env)

-- the arguments of the job's `subprocess.run`
pub record Launch : Type 0 where
  pub argv : List String
  pub cwd : String
  pub timeout_sec : ℕ
  pub env : Environ

-- its end: an exit code after so many milliseconds, TimeoutExpired, or another exception
pub data CommandEnd : Type 0 where
  exited : ℤ → ℕ → CommandEnd
  expired failed_to_run : CommandEnd

-- `git config core.hooksPath`, where the worktree has a .githooks directory
pub data Hooks : Type 0 where
  no_hooks hooks_set hooks_failed : Hooks

-- what git says of the worktree after the run: whether a call of it in `assert_worktree_clean` raises,
-- the two `git status`, and the code of `git diff`
pub record Tree : Type 0 where
  pub git_raises : Bool
  pub porcelain : Text
  pub diff_code : ℤ
  pub porcelain_again : Option Text

pub data ErrorClass : Type 0 where
  job_nonzero_exit mutation_detected job_timeout job_exception : ErrorClass

-- What the calls out of the executor give, and the error.json that an earlier run of the job has left
-- in its directory.
pub record Machine : Type 0 where
  pub loader : Loader
  pub job_allowlist : Option Text
  pub cache : Cache
  pub sha256 : Text → String
  pub allowlist_hash : Option String
  pub trace_id : String
  pub hostname : String
  pub start : String
  pub finish : String
  pub artifact_dir : String → String
  pub mirror_ok : Bool
  pub worktree : Option String
  pub hooks : Hooks
  pub params : Option (Dict String)
  pub environ : Environ
  pub run : Launch → CommandEnd
  pub tree : Tree
  pub error_before : Option ErrorClass
  pub error_writable : Bool
  pub outputs : List String
  pub size_cap : Json
  pub artifact_writable : Bool

pub record Invariants : Type 0 where
  pub read_only_ok : Bool
  pub clean_tree_ok : Bool
  pub mutated : Bool
  pub changed_files : Option Text

-- the locals of `execute_job`, error.json, and the launch of the command
pub record Execution : Type 0 where
  pub job : JobRecord
  pub worktree_path : Option String
  pub invariants : Invariants
  pub params : Dict String
  pub error_file : Option ErrorClass
  pub launched : Option Launch

-- how the `try` block is left
pub data Flow : Type 0 where
  completed time_limit exception : Flow

pub record SizeCap : Type 0 where
  pub size_cap_exceeded : Json
  pub warnings : Json
  pub review_packets_archive : Json
  pub review_packets_dir : Json

-- artifact.json
pub record Artifact : Type 0 where
  pub job : JobRecord
  pub params : Dict String
  pub outputs : List String
  pub invariants : Invariants
  pub size_cap_fallback : Json
  pub size_cap : Option SizeCap

-- `returned` has the artifact that was written and the worktree that `remove_worktree` is called
-- on, whose own failure is only logged
pub data Ended : Type 0 where
  returned : Execution → Artifact → Option String → Ended
  raised : JobRecord → Ended
