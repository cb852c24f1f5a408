-- ===== src/Brain/Loop/Verdict.antt =====
-- What an exit code of 0 says of a run of the loop.
use ai_ops_runner.Base.{
  Bool-cases, ℕ, ◌≡◌, refl, ap, ◌∙◌, inl, inr, Bool, true, false, Option, none, some, List, arith,
}
use ai_ops_runner.Brain.Checks.{MatrixStatus, pass, fail, Event, Seen}
use ai_ops_runner.Brain.Router.{Sent}
use ai_ops_runner.Brain.Matrix.{Matrix, run_matrix}
use ai_ops_runner.Brain.Matrix.Said.{SaidPass, run_matrix-SaidPass}
use ai_ops_runner.Brain.Loop.{
  Turn, World, StateFile, last_state, Warning, Report, Alerting, exit_of, final_status, report_of,
  excepted, after_alert, after_matrix, execute,
}

-- the verdict that the state file holds
unfoldable pub recorded_status : StateFile → Option MatrixStatus
recorded_status (last_state s) = some s.seen.status
recorded_status _ = none

code_in : Option Report → ℕ
code_in none = 1
code_in (some r) = r.exit_code

pass_of_exit :
    (b : Bool) (s : MatrixStatus) → exit_of (final_status b s) ≡ 0 → (b ≡ true) × (s ≡ pass)
unfolding exit_of final_status
pass_of_exit true pass h = (refl, refl)
pass_of_exit true fail h = absurd (omega (arith, h))
pass_of_exit false pass h = absurd (omega (arith, h))
pass_of_exit false fail h = absurd (omega (arith, h))

excepted_code :
    (t : Turn) (o : Option Event) (ws : List Warning) (w : World)
    → code_in (excepted t o ws w).1 ≡ 1
unfolding excepted code_in
excepted_code t o ws w = elim (Bool-cases t.writes_bundle) [ inl e ↦ rw e refl | inr e ↦ rw e refl ]

-- the verdict is PASS, and the state file says so
Passed : MatrixStatus → World → Type 0
Passed s w = (s ≡ pass) × (recorded_status w.state_file ≡ some pass)

after_alert-Passed :
    (t : Turn) (now : Seen) (o : Option Event) (ws : List Warning) (w : World)
    (x : Sent × Option Alerting)
    → code_in (after_alert t now o ws w x).1 ≡ 0
    → Passed now.status (after_alert t now o ws w x).0
unfolding after_alert report_of code_in Passed recorded_status
after_alert-Passed t now o ws w (s, none) h =
    absurd (omega (arith, h, excepted_code t o ws (record w { sent = s })))
after_alert-Passed t now o ws w (s, some a) h = elim (Bool-cases t.writes_bundle) [
  | inr e ↦ absurd (ground (arith, h, e))
  | inl e ↦
      let (written, passed) = pass_of_exit t.writes_state now.status (ground (arith, h, e)) in
      (passed, rw written (ap (λ x. some x) passed))
]

after_matrix-Passed :
    (t : Turn) (ws : List Warning) (w : World) (o : Option (Matrix × Bool))
    → code_in (after_matrix t ws w o).1 ≡ 0
    → (m : Matrix) × (failed : Bool) × (o ≡ some (m, failed))
      × (m.seen.status ≡ pass)
      × (recorded_status (after_matrix t ws w o).0.state_file ≡ some pass)
unfolding after_matrix Passed
after_matrix-Passed t ws w none h = absurd (omega (arith, h, excepted_code t none ws w))
after_matrix-Passed t ws w (some (m, failed)) h =
    let (passed, kept) = after_alert-Passed t _ _ _ w _ h in (m, failed, refl, passed, kept)

-- A run that reports exit code 0 has a verdict PASS, and afterwards last_state.json holds it. The verdict
-- is the mock's own, or that of the doctors, who have answered and named a bundle: what says PASS is
-- the bundle's RESULT.json, or the answer where there is none.
pub execute_passed :
    (t : Turn) (w : World) (r : Report)
    → (execute t w).1 ≡ some r
    → r.exit_code ≡ 0
    → SaidPass t.doctor t.mock × (recorded_status (execute t w).0.state_file ≡ some pass)
unfolding execute code_in
execute_passed t w r e h =
    let (m, failed, same, passed, kept) =
      after_matrix-Passed t _ w (run_matrix t.doctor t.mock) (ap code_in e ∙ h) in
    (run_matrix-SaidPass t.doctor t.mock m failed same passed, kept)
