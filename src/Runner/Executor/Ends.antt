-- ===== src/Runner/Executor/Ends.antt =====
-- How an execution ends: when it is a success, and what it always leaves.
use ai_ops_runner.Base.{
  if◌then◌else◌, Bool-cases, ℕ, zero, suc, String, ◌≡◌, refl, sym, ap, ◌∙◌, subst, ◌≢◌, ◌↔◌, inl,
  inr, Bool, true, false, Option, none, some, List, arith,
}
use mathlib.Core.Option.{some-injective}
use ai_ops_runner.Base.Dict.{Dict}
use ai_ops_runner.Base.Int.{ℤ, pos, negsuc, is_zero}
use ai_ops_runner.Runner.Models.{JobRecord, JobStatus, success, failure, error}
use ai_ops_runner.Runner.Allowlist.{
  AllowedJob, Resolved, resolved, not_allowlisted, unreadable, crashed, resolve_job,
}
use ai_ops_runner.Runner.Executor.Setting.{
  CommandEnd, exited, expired, failed_to_run, Hooks, no_hooks, hooks_set, hooks_failed, Machine,
  Execution, Flow, time_limit, exception, Artifact, returned,
}
use ai_ops_runner.Runner.Executor.Returns.{finally_do-IsReturned}
use ai_ops_runner.Runner.Executor.{
  write_error, is_clean, mutation, unclean, check_tree, after_exit, on_ran, launch_of, on_params,
  on_resolved, on_hooks, on_worktree, attempt, handle, started, first_run, on_hash, execute_job,
}

is_zero→zero : (n : ℤ) → is_zero n ≡ true → n ≡ pos 0
is_zero→zero (pos zero) h = refl
is_zero→zero (pos (suc n)) h = cc
is_zero→zero (negsuc n) h = cc

code_of : CommandEnd → ℤ
code_of (exited code ms) = code
code_of _ = pos 1

job_of : AllowedJob → Resolved → AllowedJob
job_of d (resolved a) = a
job_of d _ = d

module _ (m : Machine) where
  -- the status that the `except` clauses leave
  final_status : Flow × Execution → JobStatus
  final_status f = (handle m f).job.status

  abbrev pub RanWell : String → AllowedJob → String → Dict String → Type 0
  RanWell path a id ps =
      ((ms : ℕ) × (m.run (launch_of m path a ps id) ≡ exited (pos 0) ms)) × (is_clean m.tree ≡ true)

  -- the parameters load, the command exits with 0, and the tree is clean
  abbrev pub HasRun : String → AllowedJob → String → Type 0
  HasRun path a id = (ps : Dict String) × (m.params ≡ some ps) × RanWell path a id ps

  -- every step before the run has worked too
  abbrev pub Succeeds : JobRecord → Type 0
  Succeeds j =
      (m.mirror_ok ≡ true)
      × ((path : String) × (m.worktree ≡ some path)
          × (m.hooks ≢ hooks_failed)
          × ((a : AllowedJob) × ((resolve_job m.loader m.job_allowlist j.job_type m.cache).0
                ≡ resolved a)
              × HasRun path a j.job_id))

  exception-status : (r : Execution) → final_status (exception, r) ≡ error
  unfolding final_status handle write_error
  exception-status r = ground arith

  exception-fails : (r : Execution) → final_status (exception, r) ≢ success
  exception-fails r h = cc (exception-status r, h)

  time_limit-fails : (r : Execution) → final_status (time_limit, r) ≢ success
  unfolding final_status handle write_error
  time_limit-fails r h = elim (Bool-cases m.error_writable) [
    | inl e ↦ absurd (ground (arith, e, h))
    | inr e ↦ absurd (ground (arith, e, h))
  ]

  mutation-fails : (o : Option (List ℕ)) (r : Execution) → final_status (mutation m o r) ≢ success
  unfolding mutation final_status handle write_error
  mutation-fails none r h = elim (Bool-cases m.error_writable) [
    | inl e ↦ absurd (ground (arith, e, h))
    | inr e ↦ absurd (ground (arith, e, h))
  ]
  mutation-fails (some t) r h = elim (Bool-cases m.error_writable) [
    | inl e ↦ absurd (ground (arith, e, h))
    | inr e ↦ absurd (ground (arith, e, h))
  ]

  unclean-fails : (b : Bool) (r : Execution) → final_status (unclean b m r) ≢ success
  unfolding unclean
  unclean-fails true r = exception-fails r
  unclean-fails false r = mutation-fails m.tree.porcelain_again r

  check_tree-status :
      (r : Execution)
      → (final_status (check_tree m r) ≡ success)
        ↔ ((r.job.status ≡ success) × (is_clean m.tree ≡ true))
  unfolding check_tree final_status handle
  check_tree-status r = elim (Bool-cases (is_clean m.tree)) [
    | inl e ↦ (λ h. (ground (arith, e, h), e), λ h. ground (arith, e, h.0))
    | inr e ↦ (
      λ h. absurd (unclean-fails m.tree.git_raises r (ground (arith, e, h))),
      λ h. absurd (ground (arith, e, h.1)),
    )
  ]

  after_exit-status :
      (code : ℤ) (ms : ℕ) (r : Execution)
      → (after_exit m code ms r).job.status ≡ (if is_zero code then success else failure)
  unfolding after_exit write_error
  after_exit-status code ms r = ground arith

  on_ran-status :
      (x : CommandEnd) (r : Execution)
      → (final_status (on_ran m x r) ≡ success)
        ↔ (((ms : ℕ) × (x ≡ exited (pos 0) ms)) × (is_clean m.tree ≡ true))
  unfolding on_ran code_of
  on_ran-status expired r = (λ h. absurd (time_limit-fails r h), λ h. cc (h.0.1))
  on_ran-status failed_to_run r = (λ h. absurd (exception-fails r h), λ h. cc (h.0.1))
  on_ran-status (exited code ms) r = (
    λ h.
        let c = (check_tree-status (after_exit m code ms r)).0 h in
        elim (Bool-cases (is_zero code)) [
          | inl z ↦ ((ms, ap (λ (k : ℤ). exited k ms) (is_zero→zero code z)), c.1)
          | inr z ↦ absurd (ground (arith, z, c.0, after_exit-status code ms r))
        ],
    λ h.
        let zero_code : is_zero code ≡ true = ap (λ (x : CommandEnd). is_zero (code_of x)) h.0.1 in
        (check_tree-status (after_exit m code ms r)).1
          (after_exit-status code ms r ∙ rw zero_code refl, h.1),
  )

  on_params-status :
      (path : String) (a : AllowedJob) (o : Option (Dict String)) (r : Execution)
      → (final_status (on_params m path a o r) ≡ success)
        ↔ ((ps : Dict String) × (o ≡ some ps) × RanWell path a r.job.job_id ps)
  unfolding on_params
  on_params-status path a none r = (λ h. absurd (exception-fails r h), λ h. cc (h.1))
  on_params-status path a (some ps) r =
      let stage = on_ran-status (m.run (launch_of m path a ps r.job.job_id)) _ in
      (
        λ h. (ps, refl, stage.0 h),
        λ h. stage.1 (subst (RanWell path a r.job.job_id) (sym (some-injective ps h.0 h.1)) h.2),
      )

  on_resolved-status :
      (path : String) (o : Resolved) (r : Execution)
      → (final_status (on_resolved m path o r) ≡ success)
        ↔ ((a : AllowedJob) × (o ≡ resolved a) × HasRun path a r.job.job_id)
  unfolding on_resolved job_of
  on_resolved-status path (not_allowlisted t) r = (λ h. absurd (exception-fails r h), λ h. cc (h.1))
  on_resolved-status path unreadable r = (λ h. absurd (exception-fails r h), λ h. cc (h.1))
  on_resolved-status path crashed r = (λ h. absurd (exception-fails r h), λ h. cc (h.1))
  on_resolved-status path (resolved a) r =
      let stage =
        on_params-status path a m.params
          record r { job = record r.job { argv = a.argv; timeout_sec = a.timeout_sec } } in
      (
        λ h. (a, refl, stage.0 h),
        λ h.
            stage.1 (
              subst (λ (b : AllowedJob). HasRun path b r.job.job_id) (sym (ap (job_of a) h.1)) h.2),
      )

  Resolves : String → JobRecord → Type 0
  Resolves path j =
      (a : AllowedJob) × ((resolve_job m.loader m.job_allowlist j.job_type m.cache).0 ≡ resolved a)
      × HasRun path a j.job_id

  on_hooks-status :
      (path : String) (o : Hooks) (r : Execution)
      → (final_status (on_hooks m path o r) ≡ success) ↔ ((o ≢ hooks_failed) × Resolves path r.job)
  unfolding on_hooks Resolves
  on_hooks-status path hooks_failed r = (λ h. absurd (exception-fails r h), λ h. absurd (h.0 refl))
  on_hooks-status path no_hooks r =
      let stage =
        on_resolved-status path (resolve_job m.loader m.job_allowlist r.job.job_type m.cache).0
          record r { invariants = record r.invariants { read_only_ok = true } } in
      (λ h. (λ e. cc, stage.0 h), λ h. stage.1 h.1)
  on_hooks-status path hooks_set r =
      let stage =
        on_resolved-status path (resolve_job m.loader m.job_allowlist r.job.job_type m.cache).0
          record r { invariants = record r.invariants { read_only_ok = true } } in
      (λ h. (λ e. cc, stage.0 h), λ h. stage.1 h.1)

  on_worktree-status :
      (o : Option String) (r : Execution)
      → (final_status (on_worktree m o r) ≡ success)
        ↔ ((path : String) × (o ≡ some path) × (m.hooks ≢ hooks_failed) × Resolves path r.job)
  unfolding on_worktree
  on_worktree-status none r = (λ h. absurd (exception-fails r h), λ h. cc (h.1))
  on_worktree-status (some path) r =
      let stage = on_hooks-status path m.hooks record r { worktree_path = some path } in
      (
        λ h. (path, refl, (stage.0 h).0, (stage.0 h).1),
        λ h.
            stage.1 (
              h.2,
              subst (λ (p : String). Resolves p r.job) (sym (some-injective path h.0 h.1)) h.3,
            ),
      )

  attempt-status : (r : Execution) → (final_status (attempt m r) ≡ success) ↔ Succeeds r.job
  unfolding attempt Resolves
  attempt-status r = elim (Bool-cases m.mirror_ok) [
    | inl e ↦ (
      λ h. (e, (on_worktree-status m.worktree r).0 (ground (arith, e, h))),
      λ h. ground (arith, e, (on_worktree-status m.worktree r).1 h.1),
    )
    | inr e ↦ (λ h. absurd (exception-fails r (ground (arith, e, h))), λ h. cc (e, h.0))
  ]

on_hash-success :
    (m : Machine) (j : JobRecord) (o : Option String) (r : Execution) (art : Artifact)
    (rm : Option String)
    → on_hash m j o ≡ returned r art rm
    → (r.job.status ≡ success) ↔ Succeeds m j
unfolding on_hash first_run final_status
on_hash-success m j none r art rm h = cc
on_hash-success m j (some hash) r art rm h =
    let x = attempt m (first_run m j hash) in
    let closing = finally_do-IsReturned m (handle m x) r art rm h in
    let same : r.job.status ≡ final_status m x = ap (λ (y : JobRecord). y.status) closing.0 in
    let stage = attempt-status m (first_run m j hash) in
    (λ e. stage.0 (sym same ∙ e), λ w. same ∙ stage.1 w)

-- When `execute_job` returns, its job has succeeded exactly when the mirror and the worktree could be
-- made, the hooks could be set, the job type is on the allowlist, the parameters load, the command of
-- the allowlist has exited with 0 in that worktree, and git finds the worktree clean afterwards.
pub execute_job-Succeeds :
    (m : Machine) (j : JobRecord) (r : Execution) (art : Artifact) (rm : Option String)
    → execute_job m j ≡ returned r art rm
    → (r.job.status ≡ success) ↔ Succeeds m j
unfolding execute_job started
execute_job-Succeeds m j r art rm h = on_hash-success m (started m j) m.allowlist_hash r art rm h
