-- ===== src/Runner/Executor/Returns.antt =====
-- What the `finally` clause makes of the run it is given.
use ai_ops_runner.Base.{
  Bool-cases, get_or, String, ◌≡◌, sym, ap, ◌∙◌, inl, inr, Option, none, some, arith,
}
use ai_ops_runner.Runner.Executor.Setting.{
  Machine, Execution, Artifact, Ended, returned, raised, SizeCap,
}
use ai_ops_runner.Runner.Executor.{promote, artifact_for, conclude, finally_do}

-- what `returned` holds
run_of : Execution → Ended → Execution
run_of d (returned r art rm) = r
run_of d (raised j) = d

artifact_of : Artifact → Ended → Artifact
artifact_of d (returned r art rm) = art
artifact_of d (raised j) = d

removed_of : Ended → Option String
removed_of (returned r art rm) = rm
removed_of (raised j) = none

-- the run that the `finally` clause returns, with its artifact and the worktree it removes
abbrev pub IsReturned : Machine → Execution → Execution → Artifact → Option String → Type 0
IsReturned m x r art rm =
    (r.job ≡ record x.job {
      finished_at = some m.finish;
      duration_ms = some (get_or x.job.duration_ms 0);
    })
    × (r.worktree_path ≡ x.worktree_path)
    × (r.error_file ≡ x.error_file)
    × (art.job ≡ r.job)
    × (rm ≡ x.worktree_path)

pub finally_do-IsReturned :
    (m : Machine) (x r : Execution) (art : Artifact) (rm : Option String)
    → finally_do m x ≡ returned r art rm
    → IsReturned m x r art rm
unfolding finally_do conclude artifact_for run_of artifact_of removed_of
finally_do-IsReturned m x r art rm = conclude-lem (promote m.size_cap)
  where
    closed : Execution
    closed = record x {
      job = record x.job {
        finished_at = some m.finish;
        duration_ms = some (get_or x.job.duration_ms 0);
      };
    }

    conclude-lem :
        (o : Option (Option SizeCap))
        → conclude m closed o ≡ returned r art rm
        → IsReturned m x r art rm
    conclude-lem none h = cc
    conclude-lem (some cap) h = elim (Bool-cases m.artifact_writable) [
      | inr e ↦ absurd (ground (arith, e, h))
      | inl e ↦
          let same : returned closed (artifact_for m closed cap) closed.worktree_path
              ≡ returned r art rm =
            ground (arith, e, h) in
          let run : closed ≡ r = ap (run_of closed) same in
          (
            ap (λ (y : Execution). y.job) (sym run),
            ap (λ (y : Execution). y.worktree_path) (sym run),
            ap (λ (y : Execution). y.error_file) (sym run),
            sym (ap (λ y. (artifact_of (artifact_for m closed cap) y).job) same)
                ∙ ap (λ (y : Execution). y.job) run,
            sym (ap removed_of same),
          )
    ]
