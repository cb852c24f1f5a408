-- ===== src/Hostd/Server.antt =====
-- `Handler` of ops/openclaw_hostd.py: every request of the host executor. A request is handled by
-- itself; its effects are the deeds that its handling returns.
pub mod Guarded
use ai_ops_runner.Base.{
  nat_beq, if◌then◌else◌, get_or, length, ◌==◌, string_eq, contains, ℕ, String, Bool, false, not,
  ◌&&◌, Option, none, some, List, [], ◌∷◌,
}
use ai_ops_runner.Base.Dict
use ai_ops_runner.Base.Dict.{Dict}
use ai_ops_runner.Base.Int.{ℤ, pos, negsuc, is_zero}
use ai_ops_runner.Base.Json.{Json, str, obj, end, truthy, as_dict}
use ai_ops_runner.Base.Text.{Text, codes, strip}
use ai_ops_runner.Rootd.Server.{Request, Length, missing, number, junk, read}
use ai_ops_runner.Hostd.Token.{
  TokenSources, AuthSource, Admission, admitted, not_configured, forbidden, nonblank, require_admin,
}
use ai_ops_runner.Hostd.Registry.{Spec, nonempty_text}
use ai_ops_runner.Hostd.Secrets.{
  Vault, UploadBody, UploadEnd, SecretStatus, handle_secrets_upload, gmail_client_secret_status,
}
use ai_ops_runner.Hostd.Action.{Station, ActionEnd, ActionRun, propose_patch}
use ai_ops_runner.Hostd.Action.Run.{run_action}
use ai_ops_runner.Hostd.Backtest.{
  Gate, open_gate, closed_gate, broken_gate, orb_backtest_actions, is_orb_backtest_allowed,
}
use ai_ops_runner.Hostd.Client.{Link, Wire, answered, unreachable, read_response, client_exec}
use ai_ops_runner.Hostd.Service.{
  Service, Call, Deed, stored, blocked, sent_to_rootd, incident, ran, Body, problem, auth_missing,
  auth_forbidden, lane_locked, action_result, rootd_result, upload_result, secret_status,
  rootd_health, health, HttpReply, replied, aborted, Handled, answer, with_admin, Received,
  bad_length, no_number, body, receive_body,
}

-- `data.get(key) if isinstance(data, dict) else None`, as a text that is not empty
named_text : String → Json → Option String
named_text key v = nonempty_text (Dict.get (get_or (as_dict v) []) key)

-- `200 if ok else 403 if not policy_allowed else 500`
rootd_status : Dict Json → ℕ
rootd_status result =
    if truthy (get_or (Dict.get result "ok") Json.null)
    then 200
    else if not (truthy (get_or (Dict.get result "policy_allowed") Json.null))
    then 403
    else 500

rootd_answer : Service → String → Option (Dict Json) → Handled
unfolding rootd_status
rootd_answer s command none = ([], aborted)
rootd_answer s command (some result) =
    if truthy (get_or (Dict.get result "rootd_unavailable") Json.null)
    then (
      incident s.fresh command (get_or (Dict.get result "reason") (str "unknown")) ∷ [],
      replied 503 (rootd_result result),
    )
    else answer (rootd_status result) (rootd_result result)

-- what reaches rootd, and then what its result leads to
forwarded : Deed → Option Request → Handled → Handled
forwarded d none h = h
forwarded d (some r) (deeds, reply) = (d ∷ deeds, reply)

forward : Service → String → Json → Option Request × Json → Handled
unfolding forwarded rootd_answer
forward s command args (request, result) =
    forwarded (sent_to_rootd command args) request (rootd_answer s command (as_dict result))

rootd_command : Service → Json → Option String → Handled
unfolding forward
rootd_command s data' none = answer 400 (problem "Missing or invalid command")
rootd_command s data' (some command) =
    let args = get_or (Dict.get (get_or (as_dict data') []) "args") (obj end) in
    forward s command args (client_exec s.link command args s.fresh)

rootd_json : Service → Option Json → Handled
unfolding rootd_command named_text
rootd_json s none = answer 400 (problem "Invalid JSON")
rootd_json s (some v) = rootd_command s v (named_text "command" v)

-- POST /rootd/exec, once the token has been checked
rootd_exec : Service → Received → Handled
unfolding rootd_json
rootd_exec s bad_length = answer 400 (problem "Invalid or missing body")
rootd_exec s no_number = ([], aborted)
rootd_exec s (body b) = rootd_json s (s.station.loads (s.station.decode b))

stored_deed : Option (Text × Text) → List Deed
stored_deed none = []
stored_deed (some (path, content)) = stored path content ∷ []

upload_answer : Option UploadEnd → Handled
unfolding stored_deed
upload_answer none = ([], aborted)
upload_answer (some u) = (stored_deed u.stored, replied u.status (upload_result u.body))

-- POST /secrets/upload
secrets_upload : Service → Received → Handled
unfolding upload_answer
secrets_upload s bad_length = answer 400 (problem "Invalid or missing body")
secrets_upload s no_number = ([], aborted)
secrets_upload s (body b) = upload_answer (handle_secrets_upload s.vault b)

run_answer : String → String → Option ActionEnd → HttpReply
run_answer action run_id none = aborted
run_answer action run_id (some e) = replied 200 (action_result action run_id e)

run_now : Service → String → Option (Dict Json) → Option Text → Handled
unfolding run_answer
run_now s action params console =
    let r = run_action s.station s.allowlist action s.fresh params console in
    (ran action r ∷ [], run_answer action s.fresh r.end)

by_gate : Service → String → Option (Dict Json) → Option Text → Gate → Handled
unfolding run_now
by_gate s action params console open_gate = run_now s action params console
by_gate s action params console closed_gate =
    (blocked s.fresh action ∷ [], replied 423 (lane_locked s.fresh action))
by_gate s action params console broken_gate = ([], aborted)

gated : Service → String → Option (Dict Json) → Option Text → Handled
unfolding by_gate run_now
gated s action params console =
    if contains orb_backtest_actions action
    then by_gate s action params console (is_orb_backtest_allowed s.state_file)
    else run_now s action params console

goal_of : Option Json → Text
goal_of (some (str goal)) = strip (codes goal)
goal_of _ = []

-- `params.goal` is a text that is not blank
unfoldable pub has_goal : Option (Dict Json) → Bool
unfolding goal_of
has_goal none = false
has_goal (some params) = not (nat_beq (length (goal_of (Dict.get params "goal"))) 0)

console_of : Option Json → Option Text
console_of (some (str id)) = nonblank (strip (codes id))
console_of _ = none

dict_of : Option Json → Option (Dict Json)
dict_of none = none
dict_of (some v) = as_dict v

listed_action : Service → Dict Json → String → Handled
unfolding gated console_of dict_of
listed_action s data' action =
    let params = dict_of (Dict.get data' "params") in
    if action == propose_patch && not (has_goal params)
    then answer 400 (problem "code.opencode.propose_patch requires params.goal (non-empty string)")
    else gated s action params (console_of (Dict.get data' "console_run_id"))

action_command : Service → Json → Option String → Handled
unfolding listed_action
action_command s v none = answer 400 (problem "Missing or invalid action")
action_command s v (some action) =
    if Dict.has s.allowlist action
    then listed_action s (get_or (as_dict v) []) action
    else answer 403 (problem "Action not allowlisted")

action_json : Service → Option Json → Handled
unfolding action_command named_text
action_json s none = answer 400 (problem "Invalid JSON")
action_json s (some v) = action_command s v (named_text "action" v)

-- POST /exec
action_exec : Service → Received → Handled
unfolding action_json
action_exec s bad_length = answer 400 (problem "Invalid or missing body")
action_exec s no_number = ([], aborted)
action_exec s (body b) = action_json s (s.station.loads (s.station.decode b))

-- `Handler.do_POST`
unfoldable pub do_post : Service → Call → Handled
unfolding with_admin rootd_exec secrets_upload action_exec
do_post s c =
    let admission = require_admin s.sources c.token in
    if c.path == "/rootd/exec"
    then with_admin admission (rootd_exec s (receive_body 32768 c))
    else if c.path == "/secrets/upload"
    then with_admin admission (secrets_upload s (receive_body 200_000 c))
    else if c.path == "/exec"
    then with_admin admission (action_exec s (receive_body 65536 c))
    else answer 404 (problem "Not found")

health_ok : Option (Dict Json) → Json
health_ok none = Json.bool false
health_ok (some d) = get_or (Dict.get d "ok") (Json.bool false)

on_health : Link → Wire → Json
unfolding health_ok
on_health l (unreachable e) = Json.bool false
on_health l (answered data') = health_ok (as_dict (read_response l data'))

-- `_rootd_available`
unfoldable pub rootd_available : Link → Json
unfolding on_health
rootd_available l = on_health l l.health

secret_answer : Option SecretStatus → Handled
secret_answer none = ([], aborted)
secret_answer (some st) = answer 200 (secret_status st)

-- `Handler.do_GET`; of the health report, what it says of rootd
unfoldable pub do_get : Service → Call → Handled
unfolding with_admin secret_answer
do_get s c =
    let admission = require_admin s.sources c.token in
    if c.path == "/health"
    then answer 200 (health (rootd_available s.link))
    else if c.path == "/connectors/gmail/secret-status"
    then with_admin admission (secret_answer (gmail_client_secret_status s.vault))
    else if c.path == "/rootd/health"
    then with_admin admission (answer 200 (rootd_health (rootd_available s.link)))
    else answer 404 (problem "Not found")
