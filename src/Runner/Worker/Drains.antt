-- ===== src/Runner/Worker/Drains.antt =====
-- What the worker does to the rows of the queued jobs, and to the others.
use ai_ops_runner.Base.{
  Bool-cases, length, All, eq_iff, ◌==◌, string_eq, ◌≤◌, String, ◌≡◌, refl, sym, ap, ◌∙◌, subst,
  inl, inr, true, false, Option, none, some, List, [], ◌∷◌, arith,
}
use ai_ops_runner.Runner.Models.{JobRecord, is_final}
use ai_ops_runner.Runner.Store.{Table, get_job, update_job, dequeue_job}
use ai_ops_runner.Runner.Store.Rows.{KeepsKeys, get-update, get-update_other}
use ai_ops_runner.Runner.Executor.Setting.{Machine, Ended, returned, raised}
use ai_ops_runner.Runner.Executor.{execute_job}
use ai_ops_runner.Runner.Executor.Settles.{execute_job-IsSettled}
use ai_ops_runner.Runner.Api.Submits.Effects.{HasRow}
use ai_ops_runner.Runner.Worker.{
  after_run, mark_running, persist, on_row, process_job, on_taken, run_worker,
}

-- the row of the id has a final status
abbrev pub IsFinished : Table → String → Type 0
IsFinished t id = (j : JobRecord) × (get_job t id ≡ some j) × (is_final j.status ≡ true)

abbrev pub IsWritable : Machine → Type 0
IsWritable m = m.error_writable ≡ true

marks-KeepsKeys : (m : Machine) → KeepsKeys (mark_running m)
unfolding mark_running
marks-KeepsKeys m j = (refl, refl)

persist-KeepsKeys : (j : JobRecord) → KeepsKeys (persist j)
unfolding persist
persist-KeepsKeys j row = (refl, refl)

on_row-other :
    (m : Machine) (id other : String) (o : Option JobRecord) (t : Table)
    → (id == other) ≡ false
    → get_job (on_row m id o t) other ≡ get_job t other
unfolding on_row
on_row-other m id other none t e = refl
on_row-other m id other (some j) t e =
    get-update_other (update_job t id (mark_running m)) id other
      (persist (after_run m (execute_job m j))) (persist-KeepsKeys (after_run m (execute_job m j)))
      e
    ∙ get-update_other t id other (mark_running m) (marks-KeepsKeys m) e

-- Processing the job of one id leaves the row of every other id as it is.
process_job-other :
    (m : Machine) (id other : String) (t : Table)
    → (id == other) ≡ false
    → get_job (process_job m id t) other ≡ get_job t other
unfolding process_job
process_job-other m id other t e = on_row-other m id other (get_job t id) t e

after_run-final :
    (m : Machine) (j : JobRecord) (x : Ended)
    → IsWritable m
    → execute_job m j ≡ x
    → is_final (after_run m x).status ≡ true
unfolding after_run is_final
after_run-final m j (returned r art removed) w e = (execute_job-IsSettled m w j r art removed e).0.0
after_run-final m j (raised k) w e = refl

process_job-IsFinished :
    (m : Machine) (id : String) (t : Table)
    → IsWritable m
    → HasRow t id
    → IsFinished (process_job m id t) id
unfolding process_job on_row persist
process_job-IsFinished m id t w (j, e) =
    let k = after_run m (execute_job m j) in
    let marked = get-update t id (mark_running m) j (marks-KeepsKeys m) e in
    let row =
      get-update (update_job t id (mark_running m)) id (persist k) (mark_running m j)
        (persist-KeepsKeys k) marked in
    (
      persist k (mark_running m j),
      ap (λ (o : Option JobRecord). get_job (on_row m id o t) id) e ∙ row,
      after_run-final m j (execute_job m j) w refl,
    )

process_job-HasRow :
    (m : Machine) (id other : String) (t : Table)
    → IsWritable m
    → HasRow t other
    → HasRow (process_job m id t) other
process_job-HasRow m id other t w (j, e) = elim (Bool-cases (id == other)) [
  | inl y ↦
      let same = (eq_iff id other).0 y in
      let done = process_job-IsFinished m id t w (j, ap (get_job t) same ∙ e) in
      (done.0, ap (get_job (process_job m id t)) (sym same) ∙ done.1)
  | inr y ↦ (j, process_job-other m id other t y ∙ e)
]

process_job-keeps_IsFinished :
    (m : Machine) (id other : String) (t : Table)
    → IsWritable m
    → IsFinished t other
    → IsFinished (process_job m id t) other
process_job-keeps_IsFinished m id other t w (j, e, f) = elim (Bool-cases (id == other)) [
  | inl y ↦
      let same = (eq_iff id other).0 y in
      subst (IsFinished (process_job m id t)) same
        (process_job-IsFinished m id t w (j, ap (get_job t) same ∙ e))
  | inr y ↦ (j, process_job-other m id other t y ∙ e, f)
]

run_worker-keeps_IsFinished :
    (ms : List Machine) (t : Table) (q : List String) (other : String)
    → All IsWritable ms
    → IsFinished t other
    → IsFinished (run_worker ms record { table = t; queue = q }).table other
unfolding run_worker dequeue_job on_taken
run_worker-keeps_IsFinished [] t q other w h = h
run_worker-keeps_IsFinished (m ∷ ms) t [] other w h =
    run_worker-keeps_IsFinished ms t [] other w.1 h
run_worker-keeps_IsFinished (m ∷ ms) t (id ∷ q) other w h =
    run_worker-keeps_IsFinished ms (process_job m id t) q other w.1
      (process_job-keeps_IsFinished m id other t w.0 h)

All-HasRow :
    (m : Machine) (id : String) (t : Table) (q : List String)
    → IsWritable m
    → All (HasRow t) q
    → All (HasRow (process_job m id t)) q
All-HasRow m id t [] w h = tt
All-HasRow m id t (x ∷ q) w h = (process_job-HasRow m id x t w h.0, All-HasRow m id t q w h.1)

-- A worker that takes at least as many turns as the queue is long empties the queue and leaves every
-- job that was queued in a final status, when each of them has its row and error.json can be written.
pub run_worker-Drains :
    (ms : List Machine) (t : Table) (q : List String)
    → All IsWritable ms
    → All (HasRow t) q
    → length q ≤ length ms
    → let s = run_worker ms record { table = t; queue = q } in
      (s.queue ≡ []) × All (IsFinished s.table) q
unfolding run_worker dequeue_job on_taken
run_worker-Drains [] t [] w h n = (refl, tt)
run_worker-Drains [] t (id ∷ q) w h n = absurd (omega (arith, n))
run_worker-Drains (m ∷ ms) t [] w h n = run_worker-Drains ms t [] w.1 tt (omega arith)
run_worker-Drains (m ∷ ms) t (id ∷ q) w h n =
    let rest =
      run_worker-Drains ms (process_job m id t) q w.1 (All-HasRow m id t q w.0 h.1)
        (omega (arith, n)) in
    (
      rest.0,
      (
        run_worker-keeps_IsFinished ms (process_job m id t) q id w.1
            (process_job-IsFinished m id t w.0 h.0),
        rest.1,
      ),
    )
