-- ===== src/Rootd/Command.antt =====
-- `handle_command` of ops/openclaw_rootd.py, with the audit records that it writes.
pub mod Audits
pub mod Effects
use ai_ops_runner.Base.{
  if◌then◌else◌, get_or, take, ◌==◌, string_eq, contains, ℕ, String, Bool, true, false, Option,
  none, some, List, [], ◌∷◌, ◌++◌,
}
use ai_ops_runner.Base.Dict
use ai_ops_runner.Base.Dict.{Dict}
use ai_ops_runner.Base.Int.{ℤ, is_zero}
use ai_ops_runner.Base.Json.{Json, truthy, as_text, as_dict}
use ai_ops_runner.Base.Text.{Text, codes}
use ai_ops_runner.Policy.{Policy, PolicyResult, Reason, validate_rootd_command}
use ai_ops_runner.Rootd.Exec.{
  Host, Effect, Executed, value, exec_systemctl, exec_daemon_reload, exec_tailscale_serve,
  exec_write_etc_config, exec_bind_verify_443, exec_install_timer,
}

abbrev pub sensitive_fields : List String
sensitive_fields = "content" ∷ "secret" ∷ "key" ∷ "token" ∷ "password" ∷ "hmac" ∷ []

abbrev pub redacted : Json
redacted = Json.str "***REDACTED***"

-- `_redact_body_for_log`
unfoldable pub redact_body : Dict Json → Dict Json
redact_body [] = []
redact_body ((k, v) ∷ d) = (k, if contains sensitive_fields k then redacted else v) ∷ redact_body d

pub record Result : Type 0 where
  pub ok : Bool
  pub command : String
  pub run_id : Json
  pub tier : Option String
  pub policy_allowed : Bool
  pub reason : Option Reason
  pub exit_code : Option ℤ
  pub stdout : Text
  pub stderr : Text

-- the files of one audit directory
pub record Audit : Type 0 where
  pub run_id : String
  pub request : Dict Json
  pub result : Result
  pub stdout : Text
  pub stderr : Text

-- What rootd has done to the host and the audits it has written, each in order, and the directories
-- under AUDIT_BASE, each with the files that were last written to it.
pub record World : Type 0 where
  pub effects : List Effect
  pub audits : List Audit
  pub directories : Dict Audit

-- s[:n]
unfoldable pub truncate : ℕ → Text → Text
truncate n s = take n s

-- `_write_audit`; `none` is the TypeError of `os.path.join` on a run id that is no text
unfoldable pub write_audit : Json → Dict Json → Result → Text → Text → World → Option World
unfolding redact_body
write_audit run_id request result out err w = elim (as_text run_id) [
  | none ↦ none
  | some r ↦
      let audit : Audit = record {
        run_id = r;
        request = redact_body request;
        result = result;
        stdout = truncate 512_000 out;
        stderr = truncate 128_000 err;
      } in
      some
        (record w { audits = w.audits ++ audit ∷ []; directories = Dict.put w.directories r audit })
]

-- `data.get("run_id") or <a fresh one>`
unfoldable pub choose_run_id : Dict Json → String → Json
choose_run_id request fresh = elim (Dict.get request "run_id") [
  | none ↦ Json.str fresh
  | some v ↦ if truthy v then v else Json.str fresh
]

-- `data.get("args", {})`, where what is no dictionary counts as empty
unfoldable pub command_args : Dict Json → Dict Json
command_args request = elim (Dict.get request "args") [ none ↦ [] | some v ↦ get_or (as_dict v) [] ]

-- the routing of `handle_command`; `none` is an exception that it does not catch
unfoldable pub route : Host → String → Dict Json → Option Executed
route h c args =
    let text = λ (k : String). get_or (Dict.get args k) (Json.str "") in
    if c == "systemctl_restart"
    then some (exec_systemctl h "restart" (value (text "unit")))
    else if c == "systemctl_enable"
    then some (exec_systemctl h "enable" (value (text "unit")))
    else if c == "tailscale_serve"
    then some (exec_tailscale_serve h (get_or (Dict.get args "subcmd") (Json.str "status")) args)
    else if c == "write_etc_config"
    then some (exec_write_etc_config h (text "path") (text "content"))
    else if c == "bind_verify_443"
    then some (exec_bind_verify_443 h)
    else if c == "install_timer"
    then exec_install_timer h (text "service_file") (text "timer_file")
    else if c == "daemon_reload"
    then some (exec_daemon_reload h)
    else some ([], (ℤ.pos 1, [], codes "Command not implemented"))

-- a call ends with the new world, and a result unless an exception escapes
abbrev pub Reply : Type 0
Reply = World × Option Result

refusal : String → Json → PolicyResult → Result
refusal c run_id p = record {
  ok = false;
  command = c;
  run_id = run_id;
  tier = p.tier;
  policy_allowed = false;
  reason = some p.reason;
  exit_code = none;
  stdout = [];
  stderr = [];
}

completed : String → Json → PolicyResult → Executed → Result
completed c run_id p (effects, (code, out, err)) = record {
  ok = is_zero code;
  command = c;
  run_id = run_id;
  tier = p.tier;
  policy_allowed = true;
  reason = none;
  exit_code = some code;
  stdout = truncate 64_000 out;
  stderr = truncate 16_000 err;
}

audited : Json → Dict Json → Result → Text → Text → World → Reply
unfolding write_audit
audited run_id request result out err w = elim (write_audit run_id request result out err w) [
  | none ↦ (w, none)
  | some w' ↦ (w', some result)
]

finish : String → Json → Dict Json → PolicyResult → Option Executed → World → Reply
unfolding completed audited
finish c run_id request p none w = (w, none)
finish c run_id request p (some e) w =
    audited run_id request (completed c run_id p e) e.1.1 e.1.2
      (record w { effects = w.effects ++ e.0 })

-- `handle_command` on a request whose command `do_POST` has found to be the text `c`
unfoldable pub handle_command : Host → Policy → String → String → Dict Json → World → Reply
unfolding refusal finish audited
handle_command h p fresh c request w =
    let run_id = choose_run_id request fresh in
    let args = command_args request in
    let verdict = validate_rootd_command p c args in
    if verdict.allowed
    then finish c run_id request verdict (route h c args) w
    else audited run_id request (refusal c run_id verdict) [] [] w
