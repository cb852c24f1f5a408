-- ===== src/Hostd/Action/Run/Records.antt =====
-- The files that a run of an action leaves, held against what it returns.
use ai_ops_runner.Base.{
  Bool-cases, is_some, ◌==◌, string_eq, String, ◌≡◌, refl, inl, inr, Bool, true, false, not, Option,
  none, some, List, [], ◌∷◌, arith,
}
use ai_ops_runner.Base.Dict
use ai_ops_runner.Base.Dict.{Dict}
use ai_ops_runner.Base.Int.{is_zero}
use ai_ops_runner.Base.Json.{Json}
use ai_ops_runner.Base.Text.{Text}
use ai_ops_runner.Hostd.Registry.{Spec}
use ai_ops_runner.Hostd.Action.{
  Start, Process, ended, late, raised, Station, Summary, ErrorReport, Doc, stdout_txt, stderr_txt,
  params_json, result_json, error_json, file_name, ActionEnd, ActionRun, propose_patch, save_all,
  try_save, speaks_on_stdout, summary_of, returned, on_exception, on_timeout, timeout_end,
}
use ai_ops_runner.Hostd.Action.Run.{
  on_nonzero, after_class, by_exit, after_files, on_end, on_process, result_of, params_file,
  prefixed, after_params, in_dir, on_spec, run_action,
}

result_in : Doc → Option Summary
result_in (result_json r) = some r
result_in _ = none

report_in : Doc → Option ErrorReport
report_in (error_json r) = some r
report_in _ = none

-- the last document of a kind, which is the file's content
last {ℓ} : {A : Type ℓ} → (Doc → Option A) → List Doc → Option A
last f [] = none
last f (d ∷ ds) = elim (last f ds) [ some a ↦ some a | none ↦ f d ]

-- hostd_result.json and error.json at the end
unfoldable pub final_result : List Doc → Option Summary
unfolding last result_in
final_result ds = last result_in ds

unfoldable pub final_report : List Doc → Option ErrorReport
unfolding last report_in
final_report ds = last report_in ds

-- The call returns, hostd_result.json says how it ended, and there is an error.json exactly when it
-- did not end with exit code 0.
pub record IsRecorded (r : ActionRun) : Type 0 where
  pub end : ActionEnd
  pub returns : r.end ≡ some end
  pub result : Summary
  pub kept : final_result r.written ≡ some result
  pub same_verdict : result.ok ≡ is_zero end.exit_code
  pub same_cut : result.truncated ≡ end.truncated
  pub reported : is_some (final_report r.written) ≡ not result.ok

module _ (s : Station) (w : (name : String) → s.writes name ≡ true) where
  save_all-saved : (ds : List Doc) → save_all s ds ≡ (ds, true)
  unfolding save_all
  save_all-saved [] = refl
  save_all-saved (d ∷ ds) = rw (save_all-saved ds, w (file_name d)) refl

  try_save-saved : (d : Doc) → try_save s d ≡ d ∷ []
  unfolding try_save
  try_save-saved d = rw (w (file_name d)) refl

  on_exception-IsRecorded :
      (action : String) (p : Start) (e : Text) → IsRecorded (on_exception s action p [] e)
  unfolding on_exception returned final_result final_report
  on_exception-IsRecorded action p e =
      rw (save_all-saved, try_save-saved)
        record {
          end = _;
          returns = refl;
          result = _;
          kept = refl;
          same_verdict = refl;
          same_cut = refl;
          reported = refl;
        }

  on_timeout-IsRecorded : (action : String) (p : Start) → IsRecorded (on_timeout s action p)
  unfolding on_timeout timeout_end final_result final_report
  on_timeout-IsRecorded action p =
      rw (save_all-saved, try_save-saved)
        record {
          end = _;
          returns = refl;
          result = _;
          kept = refl;
          same_verdict = refl;
          same_cut = refl;
          reported = refl;
        }

  on_nonzero-IsRecorded :
      (action : String) (p : Start) (e : ActionEnd) (x y z : Doc)
      → is_zero e.exit_code ≡ false
      → IsRecorded (on_nonzero s action p (x ∷ y ∷ z ∷ []) e)
  unfolding on_nonzero after_class returned result_of summary_of final_result final_report
  on_nonzero-IsRecorded action p e x y z bad =
      elim (Bool-cases (speaks_on_stdout e.stdout e.stderr)) [
        | inl said ↦
            rw (said, try_save-saved, try_save-saved, save_all-saved)
              record {
                end = _;
                returns = refl;
                result = _;
                kept = refl;
                same_verdict = refl;
                same_cut = refl;
                reported = rw bad refl;
              }
        | inr unsaid ↦
            rw (unsaid, try_save-saved, save_all-saved)
              record {
                end = _;
                returns = refl;
                result = _;
                kept = refl;
                same_verdict = refl;
                same_cut = refl;
                reported = rw bad refl;
              }
      ]

  good-IsRecorded :
      (action : String) (p : Start) (e : ActionEnd) (x y : Doc)
      → final_report (x ∷ y ∷ []) ≡ none
      → is_zero e.exit_code ≡ true
      → IsRecorded (returned p (x ∷ y ∷ result_of action p e.exit_code e.truncated none ∷ []) e)
  unfolding returned result_of final_result final_report
  good-IsRecorded action p e x y unreported good = record {
    end = e;
    returns = refl;
    result = _;
    kept = refl;
    same_verdict = refl;
    same_cut = refl;
    reported = rw good (ground (arith, unreported));
  }

  by_exit-IsRecorded :
      (action : String) (p : Start) (e : ActionEnd) (b : Bool)
      → is_zero e.exit_code ≡ b
      → IsRecorded (
          by_exit s action p
            (stdout_txt e.stdout
              ∷ stderr_txt e.stderr
              ∷ result_of action p e.exit_code e.truncated none
              ∷ [])
            e
            b)
  unfolding by_exit final_report
  by_exit-IsRecorded action p e true good = good-IsRecorded action p e _ _ refl good
  by_exit-IsRecorded action p e false bad = on_nonzero-IsRecorded action p e _ _ _ bad

  on_end-IsRecorded :
      (action : String) (p : Start) (e : ActionEnd) → IsRecorded (on_end s action p e)
  unfolding on_end after_files
  on_end-IsRecorded action p e = rw save_all-saved (by_exit-IsRecorded action p e _ refl)

  on_process-IsRecorded :
      (action : String) (p : Start) (x : Process) → IsRecorded (on_process s action p x)
  unfolding on_process
  on_process-IsRecorded action p (ended code out err) = on_end-IsRecorded action p _
  on_process-IsRecorded action p late = on_timeout-IsRecorded action p
  on_process-IsRecorded action p (raised e) = on_exception-IsRecorded action p e

  prefixed-IsRecorded :
      (r : ActionRun) (d : Dict Json) → IsRecorded r → IsRecorded (prefixed (params_json d ∷ []) r)
  unfolding prefixed final_result final_report
  prefixed-IsRecorded r d h = record {
    end = h.end;
    returns = h.returns;
    result = h.result;
    kept = rw h.kept refl;
    same_verdict = h.same_verdict;
    same_cut = h.same_cut;
    reported = still (final_report r.written) h.reported;
  }
    where
      still :
          (o : Option ErrorReport)
          → is_some o ≡ not h.result.ok
          → is_some (elim o [ some a ↦ some a | none ↦ none ]) ≡ not h.result.ok
      still none e = e
      still (some a) e = e

  after_params-IsRecorded :
      (action : String) (p : Start) (params : Option (Dict Json))
      → IsRecorded (after_params s action p (params_file action params, true))
  unfolding after_params params_file
  after_params-IsRecorded action p none = on_process-IsRecorded action p _
  after_params-IsRecorded action p (some []) = on_process-IsRecorded action p _
  after_params-IsRecorded action p (some (e ∷ d)) = elim (Bool-cases (action == propose_patch)) [
    | inl e ↦ rw e (prefixed-IsRecorded _ _ (on_process-IsRecorded action p _))
    | inr e ↦ rw e (on_process-IsRecorded action p _)
  ]

  in_dir-IsRecorded :
      (action : String) (p : Start) (params : Option (Dict Json)) (b : Bool)
      → b ≡ true
      → IsRecorded (in_dir s action p params b)
  unfolding in_dir
  in_dir-IsRecorded action p params true e =
      rw save_all-saved (after_params-IsRecorded action p params)
  in_dir-IsRecorded action p params false e = cc

-- Where the artifact directory can be written, a run of an allowlisted action returns however its
-- process ends; hostd_result.json then states the outcome that the call returns, and error.json is
-- there exactly when the exit code is not 0.
pub run_action-IsRecorded :
    (s : Station) (allowlist : Dict Spec) (action run_id : String) (params : Option (Dict Json))
    (console : Option Text) (spec : Spec)
    → ((name : String) → s.writes name ≡ true)
    → s.makes_dir ≡ true
    → Dict.get allowlist action ≡ some spec
    → IsRecorded (run_action s allowlist action run_id params console)
unfolding run_action on_spec
run_action-IsRecorded s allowlist action run_id params console spec w dir listed =
    rw listed (in_dir-IsRecorded s w action _ params _ dir)
