-- ===== src/Rootd/Samples.antt =====
-- A rootd daemon with a toy HMAC, and the theorems about rootd at its requests.
use ai_ops_runner.Base.{◌≡◌, refl, true, none, some, [], ◌∷◌}
use ai_ops_runner.Base.Dict
use ai_ops_runner.Base.Dict.{Dict}
use ai_ops_runner.Base.Int.{pos, negsuc}
use ai_ops_runner.Base.Json.{Json, Fields, members, truthy, as_text, as_dict}
use ai_ops_runner.Base.Text.{codes, strip}
use ai_ops_runner.Policy.{Policy, member, arg, validate_rootd_command}
use ai_ops_runner.Rootd.Exec.{Host, exited, exec_systemctl, exec_install_timer, has_dots}
use ai_ops_runner.Rootd.Exec.Timers.{WritesConfined, effects_of, exec_install_timer-WritesConfined}
use ai_ops_runner.Rootd.Command.{
  World, Result, redact_body, redacted, choose_run_id, command_args, route, write_audit,
  handle_command,
}
use ai_ops_runner.Rootd.Command.Audits.{AuditedAs, get-redact_body, handle_command_audits}
use ai_ops_runner.Rootd.Server.{Daemon, Request, number, load_hmac_key, verify_hmac, read, do_post}
use ai_ops_runner.Rootd.Server.Boundary.{IsAuthorised, do_post_guarded}

abbrev quiet : Host
quiet = record {
  run = λ args. exited (pos 0) [] [];
  write = λ path content. none;
  is_file = λ f. true;
  install = λ source target. none;
}

abbrev permissions : Policy
permissions = record {
  version = none;
  tiers = [];
  actions = [];
  rootd_allowlist =
      (
        "systemctl_restart",
        record {
          allowed_units = some ("openclaw-hostd.service" ∷ []);
          allowed_targets = none;
          allowed_paths = none;
        },
      )
      ∷ [];
}

abbrev start : World
start = record { effects = []; audits = []; directories = [] }

abbrev restart : Json → Fields
restart run_id = Fields.field "command" (Json.str "systemctl_restart") (
    Fields.field "args"
      (Json.obj (Fields.field "unit" (Json.str "openclaw-hostd.service") Fields.end))
      (Fields.field "run_id" run_id Fields.end))

abbrev request : Json → Dict Json
request run_id =
    ("command", Json.str "systemctl_restart")
    ∷ ("args", Json.obj (Fields.field "unit" (Json.str "openclaw-hostd.service") Fields.end))
    ∷ ("run_id", run_id)
    ∷ []

restart_result :
    (res : Result) × ((handle_command quiet permissions "f" "systemctl_restart"
        (request (Json.str "r1"))
        start).1
      ≡ some res)
unfolding handle_command choose_run_id command_args route write_audit as_text truthy as_dict members
    validate_rootd_command member arg Dict.get exec_systemctl
restart_result = (_, refl)

handle_command_audits_example :
    AuditedAs
      (request (Json.str "r1"))
      start
      "r1"
      restart_result.0
      (handle_command quiet permissions "f" "systemctl_restart" (request (Json.str "r1")) start)
unfolding choose_run_id as_text truthy Dict.get
handle_command_audits_example =
    handle_command_audits quiet permissions "f" "systemctl_restart" (request (Json.str "r1")) start
      "r1" restart_result.0 refl restart_result.1

exec_install_timer-WritesConfined_example :
    WritesConfined (exec_install_timer quiet (Json.str "../x") (Json.str "t.timer"))
    × (has_dots (Json.str "../x") ≡ some true
        → effects_of (exec_install_timer quiet (Json.str "../x") (Json.str "t.timer")) ≡ [])
exec_install_timer-WritesConfined_example =
    exec_install_timer-WritesConfined quiet (Json.str "../x") (Json.str "t.timer")

-- the payload is its own HMAC here, and every payload decodes to the restart request
abbrev daemon : Daemon
daemon = record {
  mac = λ key payload. payload;
  loads = λ payload. some (Json.obj (restart (Json.str "r1")));
  key_file = some (codes "0123456789abcdef");
  fresh = "f";
  host = quiet;
  policy = permissions;
}

abbrev post : Request
post = record {
  path = "/exec";
  content_length = number (pos 2);
  stream = codes "okok";
  signature = codes "ok";
}

do_post_guarded_example : IsAuthorised daemon post
unfolding do_post verify_hmac read load_hmac_key strip handle_command choose_run_id command_args
    route write_audit as_text truthy as_dict members validate_rootd_command member arg Dict.get
    exec_systemctl
do_post_guarded_example = do_post_guarded daemon post start (λ e. cc)

-- A negative length passes the size test, and the whole stream is read.
negative_length : read (negsuc 0) (codes "a long body") ≡ codes "a long body"
unfolding read
negative_length = refl

get-redact_body_example :
    Dict.get (redact_body (("token", Json.str "t") ∷ [])) "token" ≡ some redacted
unfolding Dict.get
get-redact_body_example = get-redact_body (("token", Json.str "t") ∷ []) "token"
