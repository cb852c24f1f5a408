-- ===== src/Hostd/Action/Run/Truth.antt =====
-- What a returned exit code of 0 says of the process.
use ai_ops_runner.Base.{
  String, ◌≡◌, refl, sym, ap, ◌∙◌, ◌≢◌, ◌⊎◌, inl, inr, Bool, true, false, Option, none, some, List,
  [],
}
use mathlib.Core.Option.{some-injective}
use ai_ops_runner.Base.Dict
use ai_ops_runner.Base.Dict.{Dict}
use ai_ops_runner.Base.Int.{ℤ, pos, negsuc}
use ai_ops_runner.Base.Json.{Json}
use ai_ops_runner.Base.Text.{Text}
use ai_ops_runner.Hostd.Registry.{Spec}
use ai_ops_runner.Hostd.Action.{
  Start, Process, ended, late, raised, Station, Doc, ActionEnd, ActionRun, max_stdout_bytes,
  max_stderr_bytes, cut_output, returned, on_exception, on_timeout, timeout_end,
}
use ai_ops_runner.Hostd.Action.Run.{
  on_nonzero, after_class, by_exit, after_files, on_end, on_process, end_of, prefixed, failed,
  after_params, in_dir, on_spec, start_of, refused_end, run_action,
}

-- The process was started with the action's own command and time limit, it returned 0, and the
-- output is what it wrote, cut and decoded.
pub record IsSuccess (s : Station) (allowlist : Dict Spec) (action : String) (r : ActionRun)
    (e : ActionEnd) : Type 0 where
  pub start : Start
  pub started : r.started ≡ some start
  pub spec : Spec
  pub listed : Dict.get allowlist action ≡ some spec
  pub own_cmd : start.cmd ≡ spec.cmd
  pub own_limit : start.timeout_sec ≡ spec.timeout_sec
  pub out : Text
  pub err : Text
  pub ran : s.run start ≡ ended (pos 0) out err
  pub same_stdout : e.stdout ≡ s.decode (cut_output max_stdout_bytes out).0
  pub same_stderr : e.stderr ≡ s.decode (cut_output max_stderr_bytes err).0

-- the run returns -1, or this end
Ends : ActionEnd → ActionRun → Type 0
Ends e r = (x : ActionEnd) → r.end ≡ some x → (x.exit_code ≡ negsuc 0) ⊎ (x ≡ e)

-- the run is of this start
Starts : Start → ActionRun → Type 0
Starts p r = r.started ≡ some p

exit_of : ℤ → Option ActionEnd → ℤ
exit_of d none = d
exit_of d (some x) = x.exit_code

ended_with :
    (s : Station) (code : ℤ) (out err : Text) (e : ActionEnd)
    → e ≡ end_of s code out err
    → e.exit_code ≡ pos 0
    → (o : Text) × (r : Text) × (ended code out err ≡ ended (pos 0) o r)
      × (e.stdout ≡ s.decode (cut_output max_stdout_bytes o).0)
      × (e.stderr ≡ s.decode (cut_output max_stderr_bytes r).0)
unfolding end_of
ended_with s code out err e same ok = (
  out,
  err,
  ap (λ c. ended c out err) (ap (λ (x : ActionEnd). x.exit_code) (sym same) ∙ ok),
  ap (λ (x : ActionEnd). x.stdout) same,
  ap (λ (x : ActionEnd). x.stderr) same,
)

not_minus : (e : ActionEnd) → e.exit_code ≡ pos 0 → e.exit_code ≢ negsuc 0
not_minus e ok minus = cc

module _ (s : Station) (action : String) (p : Start) where
  on_exception-minus :
      (docs : List Doc) (t : Text) (x : ActionEnd)
      → (on_exception s action p docs t).end ≡ some x
      → x.exit_code ≡ negsuc 0
  unfolding on_exception returned exit_of
  on_exception-minus docs t x h = ap (exit_of x.exit_code) (sym h)

  on_exception-Ends :
      (docs : List Doc) (t : Text) (e : ActionEnd) → Ends e (on_exception s action p docs t)
  unfolding Ends
  on_exception-Ends docs t e x h = inl (on_exception-minus docs t x h)

  after_class-Ends :
      (docs : List Doc) (e : ActionEnd) (o : List Doc × Bool)
      → Ends e (after_class s action p docs e o)
  unfolding after_class returned Ends
  after_class-Ends docs e (again, true) = λ x h. inr (sym (some-injective _ _ h))
  after_class-Ends docs e (again, false) = on_exception-Ends _ _ e

  by_exit-Ends : (docs : List Doc) (e : ActionEnd) (b : Bool) → Ends e (by_exit s action p docs e b)
  unfolding by_exit on_nonzero returned Ends
  by_exit-Ends docs e true = λ x h. inr (sym (some-injective _ _ h))
  by_exit-Ends docs e false = search after_class-Ends

  after_files-Ends : (e : ActionEnd) (o : List Doc × Bool) → Ends e (after_files s action p e o)
  unfolding after_files
  after_files-Ends e (docs, true) = by_exit-Ends docs e _
  after_files-Ends e (docs, false) = on_exception-Ends docs _ e

  timeout_end-minus :
      (t : Text) (b : Bool) (x : ActionEnd) → timeout_end t b ≡ some x → x.exit_code ≡ negsuc 0
  unfolding timeout_end exit_of
  timeout_end-minus t true x h = ap (exit_of x.exit_code) (sym h)
  timeout_end-minus t false x h = cc

  on_timeout-minus : (x : ActionEnd) → (on_timeout s action p).end ≡ some x → x.exit_code ≡ negsuc 0
  unfolding on_timeout
  on_timeout-minus x h = timeout_end-minus _ _ x h

  on_exception-Starts : (docs : List Doc) (t : Text) → Starts p (on_exception s action p docs t)
  unfolding on_exception returned Starts
  on_exception-Starts docs t = refl

  after_class-Starts :
      (docs : List Doc) (e : ActionEnd) (o : List Doc × Bool)
      → Starts p (after_class s action p docs e o)
  unfolding after_class returned Starts
  after_class-Starts docs e (again, true) = refl
  after_class-Starts docs e (again, false) = on_exception-Starts _ _

  by_exit-Starts :
      (docs : List Doc) (e : ActionEnd) (b : Bool) → Starts p (by_exit s action p docs e b)
  unfolding by_exit on_nonzero returned Starts
  by_exit-Starts docs e true = refl
  by_exit-Starts docs e false = search after_class-Starts

  after_files-Starts : (e : ActionEnd) (o : List Doc × Bool) → Starts p (after_files s action p e o)
  unfolding after_files
  after_files-Starts e (docs, true) = by_exit-Starts docs e _
  after_files-Starts e (docs, false) = on_exception-Starts docs _

  on_process-Starts : (x : Process) → Starts p (on_process s action p x)
  unfolding on_process on_end on_timeout Starts
  on_process-Starts (ended code out err) = search after_files-Starts
  on_process-Starts late = refl
  on_process-Starts (raised t) = on_exception-Starts _ _

  on_process-ends :
      (x : Process) (e : ActionEnd)
      → (on_process s action p x).end ≡ some e
      → e.exit_code ≡ pos 0
      → (out : Text) × (err : Text) × (x ≡ ended (pos 0) out err)
        × (e.stdout ≡ s.decode (cut_output max_stdout_bytes out).0)
        × (e.stderr ≡ s.decode (cut_output max_stderr_bytes err).0)
  unfolding on_process Ends on_end
  on_process-ends (ended code out err) e h ok =
      elim (after_files-Ends (end_of s code out err) _ e h) [
        | inl minus ↦ absurd (not_minus e ok minus)
        | inr same ↦ ended_with s code out err e same ok
      ]
  on_process-ends late e h ok = absurd (not_minus e ok (on_timeout-minus e h))
  on_process-ends (raised t) e h ok = absurd (not_minus e ok (on_exception-minus [] t e h))

  on_process-IsSuccess :
      (allowlist : Dict Spec) (spec : Spec) (r : ActionRun) (e : ActionEnd)
      → Dict.get allowlist action ≡ some spec
      → p.cmd ≡ spec.cmd
      → p.timeout_sec ≡ spec.timeout_sec
      → r.started ≡ (on_process s action p (s.run p)).started
      → (on_process s action p (s.run p)).end ≡ some e
      → e.exit_code ≡ pos 0
      → IsSuccess s allowlist action r e
  unfolding Starts
  on_process-IsSuccess allowlist spec r e listed cmd limit same h ok =
      let (out, err, ran, o, x) = on_process-ends (s.run p) e h ok in
      record {
        start = p;
        started = same ∙ on_process-Starts (s.run p);
        spec = spec;
        listed = listed;
        own_cmd = cmd;
        own_limit = limit;
        out = out;
        err = err;
        ran = ran;
        same_stdout = o;
        same_stderr = x;
      }

module _ (s : Station) (allowlist : Dict Spec) (action : String) (spec : Spec)
    (listed : Dict.get allowlist action ≡ some spec) where
  after_params-IsSuccess :
      (p : Start) (o : List Doc × Bool) (e : ActionEnd)
      → p.cmd ≡ spec.cmd
      → p.timeout_sec ≡ spec.timeout_sec
      → (after_params s action p o).end ≡ some e
      → e.exit_code ≡ pos 0
      → IsSuccess s allowlist action (after_params s action p o) e
  unfolding after_params failed prefixed
  after_params-IsSuccess p (docs, false) e cmd limit h ok = cc
  after_params-IsSuccess p (docs, true) e cmd limit h ok =
      on_process-IsSuccess s action p allowlist spec _ e listed cmd limit refl h ok

  in_dir-IsSuccess :
      (p : Start) (params : Option (Dict Json)) (b : Bool) (e : ActionEnd)
      → p.cmd ≡ spec.cmd
      → p.timeout_sec ≡ spec.timeout_sec
      → (in_dir s action p params b).end ≡ some e
      → e.exit_code ≡ pos 0
      → IsSuccess s allowlist action (in_dir s action p params b) e
  unfolding in_dir failed
  in_dir-IsSuccess p params false e cmd limit h ok = cc
  in_dir-IsSuccess p params true e cmd limit h ok = after_params-IsSuccess p _ e cmd limit h ok

on_spec-IsSuccess :
    (s : Station) (allowlist : Dict Spec) (action run_id : String) (params : Option (Dict Json))
    (console : Option Text) (o : Option Spec) (e : ActionEnd)
    → Dict.get allowlist action ≡ o
    → (on_spec s action run_id params console o).end ≡ some e
    → e.exit_code ≡ pos 0
    → IsSuccess s allowlist action (on_spec s action run_id params console o) e
unfolding on_spec refused_end start_of exit_of
on_spec-IsSuccess s allowlist action run_id params console none e unlisted h ok =
    absurd (not_minus e ok (ap (exit_of e.exit_code) (sym h)))
on_spec-IsSuccess s allowlist action run_id params console (some spec) e listed h ok =
    in_dir-IsSuccess s allowlist action spec listed _ params _ e refl refl h ok

-- A run that returns exit code 0, whatever files could be written, has started a process with the
-- command and the time limit that the allowlist gives to the action; that process returned 0, and
-- the output returned is its own, cut and decoded.
pub run_action-IsSuccess :
    (s : Station) (allowlist : Dict Spec) (action run_id : String) (params : Option (Dict Json))
    (console : Option Text) (e : ActionEnd)
    → (run_action s allowlist action run_id params console).end ≡ some e
    → e.exit_code ≡ pos 0
    → IsSuccess s allowlist action (run_action s allowlist action run_id params console) e
unfolding run_action
run_action-IsSuccess s allowlist action run_id params console e h ok =
    on_spec-IsSuccess s allowlist action run_id params console _ e refl h ok
