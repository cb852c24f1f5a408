-- ===== src/Runner/Executor/Settles.antt =====
-- What an execution leaves whatever happens in it.
use ai_ops_runner.Base.{
  if◌then◌else◌, Bool-cases, is_some, ℕ, String, ◌≡◌, refl, sym, ap, ◌∙◌, subst, inl, inr, Bool,
  true, false, Option, none, some, List, arith,
}
use ai_ops_runner.Base.Dict.{Dict}
use ai_ops_runner.Base.Int.{ℤ, is_zero}
use ai_ops_runner.Runner.Models.{JobRecord, JobStatus, success, is_final}
use ai_ops_runner.Runner.Allowlist.{
  AllowedJob, Resolved, resolved, not_allowlisted, unreadable, crashed, resolve_job,
}
use ai_ops_runner.Runner.Executor.Setting.{
  CommandEnd, exited, expired, failed_to_run, Hooks, no_hooks, hooks_set, hooks_failed, Machine,
  ErrorClass, Execution, Flow, time_limit, exception, Artifact, returned,
}
use ai_ops_runner.Runner.Executor.Returns.{finally_do-IsReturned}
use ai_ops_runner.Runner.Executor.{
  write_error, is_clean, mutation, unclean, check_tree, after_exit, on_ran, launch_of, on_params,
  on_resolved, on_hooks, on_worktree, attempt, handle, started, first_run, on_hash, execute_job,
}

unfoldable pub succeeded : JobStatus → Bool
succeeded success = true
succeeded _ = false

-- a job that has succeeded leaves error.json as it was before, and another has one
unfoldable pub LeavesError : Option ErrorClass → Bool → Option ErrorClass → Type 0
LeavesError before true after = after ≡ before
LeavesError before false after = is_some after ≡ true

-- a final status, and the error.json that fits it
abbrev pub IsSettled : Machine → Execution → Type 0
IsSettled m r =
    (is_final r.job.status ≡ true)
    × LeavesError m.error_before (succeeded r.job.status) r.error_file

module _ (m : Machine) (w : m.error_writable ≡ true) where
  exception-IsSettled : (r : Execution) → IsSettled m (handle m (exception, r))
  unfolding handle write_error is_final succeeded LeavesError
  exception-IsSettled r = (ground (arith, w), ground (arith, w))

  time_limit-IsSettled : (r : Execution) → IsSettled m (handle m (time_limit, r))
  unfolding handle write_error is_final succeeded LeavesError
  time_limit-IsSettled r = (ground (arith, w), ground (arith, w))

  mutation-IsSettled :
      (o : Option (List ℕ)) (r : Execution) → IsSettled m (handle m (mutation m o r))
  unfolding mutation handle write_error is_final succeeded LeavesError
  mutation-IsSettled none r = (ground (arith, w), ground (arith, w))
  mutation-IsSettled (some t) r = (ground (arith, w), ground (arith, w))

  unclean-IsSettled : (b : Bool) (r : Execution) → IsSettled m (handle m (unclean b m r))
  unfolding unclean
  unclean-IsSettled true r = exception-IsSettled r
  unclean-IsSettled false r = mutation-IsSettled m.tree.porcelain_again r

  check_tree-IsSettled : (r : Execution) → IsSettled m r → IsSettled m (handle m (check_tree m r))
  unfolding check_tree handle
  check_tree-IsSettled r h = elim (Bool-cases (is_clean m.tree)) [
    | inl e ↦ rw e h
    | inr e ↦ rw e (unclean-IsSettled m.tree.git_raises r)
  ]

  after_exit-IsSettled :
      (code : ℤ) (ms : ℕ) (r : Execution)
      → r.error_file ≡ m.error_before
      → IsSettled m (after_exit m code ms r)
  unfolding after_exit write_error is_final succeeded LeavesError
  after_exit-IsSettled code ms r e = elim (Bool-cases (is_zero code)) [
    | inl z ↦ rw z (refl, e)
    | inr z ↦ rw (z, w) (refl, refl)
  ]

  on_ran-IsSettled :
      (x : CommandEnd) (r : Execution)
      → r.error_file ≡ m.error_before
      → IsSettled m (handle m (on_ran m x r))
  unfolding on_ran
  on_ran-IsSettled expired r e = time_limit-IsSettled r
  on_ran-IsSettled failed_to_run r e = exception-IsSettled r
  on_ran-IsSettled (exited code ms) r e =
      check_tree-IsSettled (after_exit m code ms r) (after_exit-IsSettled code ms r e)

  on_params-IsSettled :
      (path : String) (a : AllowedJob) (o : Option (Dict String)) (r : Execution)
      → r.error_file ≡ m.error_before
      → IsSettled m (handle m (on_params m path a o r))
  unfolding on_params
  on_params-IsSettled path a none r e = exception-IsSettled r
  on_params-IsSettled path a (some ps) r e =
      on_ran-IsSettled (m.run (launch_of m path a ps r.job.job_id))
        record r { params = ps; launched = some (launch_of m path a ps r.job.job_id) } e

  on_resolved-IsSettled :
      (path : String) (o : Resolved) (r : Execution)
      → r.error_file ≡ m.error_before
      → IsSettled m (handle m (on_resolved m path o r))
  unfolding on_resolved
  on_resolved-IsSettled path (resolved a) r e =
      on_params-IsSettled path a m.params
        record r { job = record r.job { argv = a.argv; timeout_sec = a.timeout_sec } } e
  on_resolved-IsSettled path (not_allowlisted t) r e = exception-IsSettled r
  on_resolved-IsSettled path unreadable r e = exception-IsSettled r
  on_resolved-IsSettled path crashed r e = exception-IsSettled r

  hooked-IsSettled :
      (path : String) (r : Execution)
      → r.error_file ≡ m.error_before
      → IsSettled m (
          handle m (
            on_resolved m path
              (resolve_job m.loader m.job_allowlist r.job.job_type m.cache).0
              record r { invariants = record r.invariants { read_only_ok = true } }))
  hooked-IsSettled path r e =
      on_resolved-IsSettled path (resolve_job m.loader m.job_allowlist r.job.job_type m.cache).0
        record r { invariants = record r.invariants { read_only_ok = true } } e

  on_hooks-IsSettled :
      (path : String) (o : Hooks) (r : Execution)
      → r.error_file ≡ m.error_before
      → IsSettled m (handle m (on_hooks m path o r))
  unfolding on_hooks
  on_hooks-IsSettled path hooks_failed r e = exception-IsSettled r
  on_hooks-IsSettled path no_hooks r e = hooked-IsSettled path r e
  on_hooks-IsSettled path hooks_set r e = hooked-IsSettled path r e

  on_worktree-IsSettled :
      (o : Option String) (r : Execution)
      → r.error_file ≡ m.error_before
      → IsSettled m (handle m (on_worktree m o r))
  unfolding on_worktree
  on_worktree-IsSettled none r e = exception-IsSettled r
  on_worktree-IsSettled (some path) r e =
      on_hooks-IsSettled path m.hooks record r { worktree_path = some path } e

  attempt-IsSettled :
      (r : Execution) → r.error_file ≡ m.error_before → IsSettled m (handle m (attempt m r))
  unfolding attempt
  attempt-IsSettled r e =
      let run : Bool → Flow × Execution =
        λ b. if b then on_worktree m m.worktree r else (exception, r) in
      elim (Bool-cases m.mirror_ok) [
        | inl y ↦
            subst (λ b. IsSettled m (handle m (run b))) (sym y)
              (on_worktree-IsSettled m.worktree r e)
        | inr y ↦ subst (λ b. IsSettled m (handle m (run b))) (sym y) (exception-IsSettled r)
      ]

  on_hash-IsSettled :
      (j : JobRecord) (o : Option String) (r : Execution) (art : Artifact) (rm : Option String)
      → on_hash m j o ≡ returned r art rm
      → IsSettled m r
        × (art.job ≡ r.job)
        × (r.job.finished_at ≡ some m.finish)
        × (rm ≡ r.worktree_path)
  unfolding on_hash first_run
  on_hash-IsSettled j none r art rm h = cc
  on_hash-IsSettled j (some hash) r art rm h =
      let x = handle m (attempt m (first_run m j hash)) in
      let closing = finally_do-IsReturned m x r art rm h in
      let settled = attempt-IsSettled (first_run m j hash) refl in
      (
        (
          ap (λ (y : JobRecord). is_final y.status) closing.0 ∙ settled.0,
          subst (λ b. LeavesError m.error_before b r.error_file)
              (sym (ap (λ (y : JobRecord). succeeded y.status) closing.0))
              (subst (λ f. LeavesError m.error_before (succeeded x.job.status) f) (sym closing.2)
                settled.1),
        ),
        closing.3,
        ap (λ (y : JobRecord). y.finished_at) closing.0,
        closing.4 ∙ sym closing.1,
      )

  -- When `execute_job` returns and error.json can be written, the job has a final status and a finish
  -- time; error.json is there if the job has not succeeded, and is as it was before if it has;
  -- artifact.json describes the returned job, and the worktree that was made, if one was, has been
  -- given up for removal.
  pub execute_job-IsSettled :
      (j : JobRecord) (r : Execution) (art : Artifact) (rm : Option String)
      → execute_job m j ≡ returned r art rm
      → IsSettled m r
        × (art.job ≡ r.job)
        × (r.job.finished_at ≡ some m.finish)
        × (rm ≡ r.worktree_path)
  unfolding execute_job
  execute_job-IsSettled j r art rm h = on_hash-IsSettled (started m j) m.allowlist_hash r art rm h
