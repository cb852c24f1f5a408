-- ===== src/Runner/Models.antt =====
-- models.py of services/test_runner: the job record and its status.
use ai_ops_runner.Base.{ℕ, String, Bool, true, false, Option, List}
use ai_ops_runner.Base.Int.{ℤ}

pub data JobStatus : Type 0 where
  queued running success failure error timeout : JobStatus

pub record JobRecord : Type 0 where
  pub job_id : String
  pub repo_name : String
  pub remote_url : String
  pub sha : String
  pub job_type : String
  pub argv : List String
  pub timeout_sec : ℕ
  pub status : JobStatus
  pub idempotency_key : Option String
  pub started_at : Option String
  pub finished_at : Option String
  pub duration_ms : Option ℕ
  pub exit_code : Option ℤ
  pub hostname : Option String
  pub trace_id : Option String
  pub input_hash : Option String
  pub allowlist_hash : Option String
  pub artifact_dir : Option String
  pub created_at : Option String

-- a job that has ended: the worker has nothing more to do with it
unfoldable pub is_final : JobStatus → Bool
is_final queued = false
is_final running = false
is_final success = true
is_final failure = true
is_final error = true
is_final timeout = true
