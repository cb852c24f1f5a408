-- ===== src/Runner.antt =====
-- services/test_runner/test_runner: the job runner. Clients submit allowlisted jobs, a queue hands
-- them to a worker, and the executor runs each in a read-only worktree.
pub mod Models
pub mod Allowlist
pub mod Repos
pub mod Store
pub mod Api
pub mod Executor
pub mod Worker
mod Samples
