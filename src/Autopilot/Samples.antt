-- ===== src/Autopilot/Samples.antt =====
-- A run that the autopilot polls three times.
use mathlib.Core.Option
use ai_ops_runner.Base.{
  ltb, if◌then◌else◌, ℕ, ◌≤◌, String, ◌≡◌, refl, ◌≢◌, true, false, Option, none, some, List, [],
  ◌∷◌, map, arith,
}
use ai_ops_runner.Base.Dict.{Dict}
use ai_ops_runner.Base.Json.{Json, obj, field, end, str}
use ai_ops_runner.Base.Text.{text_contains, Text, codes, text_eq}
use ai_ops_runner.Autopilot.Remote.{Reader, Terminal, success, waiting_for_human, failed, running}
use ai_ops_runner.Autopilot.Resolve.{
  fs_scan, Method, RunDir, Artifacts, resolve_run_to_done_artifacts,
}
use ai_ops_runner.Autopilot.Resolve.Owned.{IsOwned, resolve_run_to_done_artifacts-IsOwned}
use ai_ops_runner.Autopilot.Poll.{
  Console, Pace, GenericResult, poll_generic_action, TerminalResult, poll_to_terminal,
}
use ai_ops_runner.Base.Int.{ℤ, pos}
use ai_ops_runner.Brain.Notifier.{Posted}
use ai_ops_runner.Autopilot.Interval.{parse_poll_interval}
use ai_ops_runner.Autopilot.Alert.{Notice, Outlet, Memory, alerts}
use ai_ops_runner.Autopilot.Alert.Distinct.{sent_keys, Distinct, alerts-Distinct}
use ai_ops_runner.Autopilot.Poll.Frozen.{poll_to_terminal_frozen}
use ai_ops_runner.Autopilot.Poll.Verdicts.{
  ToldBy, poll_generic_action-parse_poll_interval, poll_to_terminal-IsOwned,
}

abbrev run_with : String → Json
run_with status = obj (field "run" (obj (field "status" (str status) end)) end)

abbrev proof_with : String → Dict Json
proof_with status = ("console_run_id", str "r1") ∷ ("status", str status) ∷ []

-- the texts that these answers have
abbrev reader : Reader
reader = record {
  loads = λ t.
      if text_eq t (codes "R")
      then some (run_with "running")
      else if text_eq t (codes "S")
      then some (run_with "success")
      else none;
  shows = λ v. [];
}

-- the run goes on in the first two rounds and has succeeded in the third
abbrev answer : ℕ → ℕ × Text
answer n = if ltb n 3 then (200, codes "R") else (200, codes "S")

abbrev console : Console
console = record { reader = reader; answers = answer; took = λ n. 40; overslept = λ n. 1 }

abbrev pace : Pace
pace = record { max_seconds = 60; poll_min = 6; poll_max = 24 }

abbrev run_dir : String → RunDir
run_dir status = record {
  name = codes "artifacts/soma_kajabi/run_to_done/run_to_done_1";
  proof_exists = true;
  proof = some (proof_with status);
  precheck_exists = false;
  precheck = none;
}

abbrev artifacts : String → Artifacts
artifacts status = record {
  reader = reader;
  listed = some (run_dir status ∷ []);
  local_dir = λ d. none;
  local_pointer = none;
  browse = λ p. (404, []);
}

proof_of_r1 :
    IsOwned
      (artifacts "RUNNING")
      (codes "r1")
      (resolve_run_to_done_artifacts (artifacts "RUNNING") (codes "r1"))
proof_of_r1 = resolve_run_to_done_artifacts-IsOwned (artifacts "RUNNING") (codes "r1")

-- `int` on the two texts that the default interval has
abbrev int_of : Text → Option ℤ
int_of t =
    if text_eq t (codes "6")
    then some (pos 6)
    else if text_eq t (codes "24")
    then some (pos 24)
    else none

default_interval : parse_poll_interval int_of (codes "6..24") ≡ some (6, 24)
unfolding parse_poll_interval ai_ops_runner.Base.Text.strip
default_interval = refl

three_rounds :
    (r : GenericResult) × (poll_generic_action console pace ≡ some r)
    × (r.poll_count ≤ 61)
    × (r.terminal ≡ success → ToldBy console (codes "success"))
three_rounds =
    poll_generic_action-parse_poll_interval int_of (codes "6..24") console pace default_interval

verdict_in_time :
    (r : TerminalResult) × (poll_to_terminal console (λ n. artifacts "RUNNING") (codes "r1") pace
      ≡ some r)
    × (r.poll_count ≤ 61)
    × (r.terminal ≢ running)
    × ((n : ℕ) × IsOwned (artifacts "RUNNING") (codes "r1") r.info)
verdict_in_time =
    poll_to_terminal-IsOwned console (λ n. artifacts "RUNNING") (codes "r1") pace (omega arith)
      (omega arith)

third_round :
    Option.map {B = ℕ × ℕ × Terminal}
      (λ r. (r.poll_count, r.elapsed, r.terminal))
      (poll_generic_action console pace)
    ≡ some (3, 18122, success)
unfolding poll_generic_action ai_ops_runner.Autopilot.Poll.poll
    ai_ops_runner.Autopilot.Poll.hear_generic ai_ops_runner.Autopilot.Remote.parse_run_poll_response
    ai_ops_runner.Base.Text.strip ai_ops_runner.Base.Dict.get ai_ops_runner.Base.Json.as_dict
    ai_ops_runner.Base.Json.truthy ai_ops_runner.Base.Text.lower_code
third_round = refl

-- the run stops for a person after the first round
abbrev stopped : ℕ → Artifacts
stopped n = artifacts (if ltb n 2 then "RUNNING" else "WAITING_FOR_HUMAN")

found_first : (resolve_run_to_done_artifacts (artifacts "RUNNING") (codes "r1")).method ≡ fs_scan
unfolding resolve_run_to_done_artifacts ai_ops_runner.Autopilot.Resolve.resolve_by_fs_scan
    ai_ops_runner.Base.Text.strip ai_ops_runner.Autopilot.Resolve.console_run_id
    ai_ops_runner.Autopilot.Remote.shown_or_empty ai_ops_runner.Base.Dict.get
    ai_ops_runner.Base.Json.truthy ai_ops_runner.Autopilot.Resolve.result_from_local_run_dir
found_first = refl

later_proof_unread :
    poll_to_terminal console (λ n. artifacts "RUNNING") (codes "r1") pace
    ≡ poll_to_terminal console stopped (codes "r1") pace
later_proof_unread =
    poll_to_terminal_frozen console (λ n. artifacts "RUNNING") stopped (codes "r1") refl refl
      (λ e. cc (e, found_first)) pace

stopped_run_succeeds :
    Option.map {B = Terminal} (λ r. r.terminal) (poll_to_terminal console stopped (codes "r1") pace)
    ≡ some success
unfolding poll_to_terminal ai_ops_runner.Autopilot.Poll.poll
    ai_ops_runner.Autopilot.Poll.hear_terminal
    ai_ops_runner.Autopilot.Remote.classify_soma_terminal_status ai_ops_runner.Base.Dict.get
    resolve_run_to_done_artifacts ai_ops_runner.Autopilot.Resolve.resolve_by_fs_scan
    ai_ops_runner.Base.Text.strip ai_ops_runner.Autopilot.Resolve.console_run_id
    ai_ops_runner.Autopilot.Remote.shown_or_empty ai_ops_runner.Base.Json.truthy
    ai_ops_runner.Autopilot.Remote.parse_run_poll_response ai_ops_runner.Base.Json.as_dict
    ai_ops_runner.Base.Text.lower_code ai_ops_runner.Autopilot.Resolve.result_from_local_run_dir
stopped_run_succeeds = refl

abbrev notice : Terminal → Notice
notice t = record { project = "soma_kajabi"; terminal = t; error_class = ""; run_id = "r1" }

abbrev outlet : Outlet
outlet = record {
  hasher = record {
    quotes = λ t. t;
    sha256 = λ t. if text_contains t (codes "FAIL") then "bad" else "gate";
  };
  preflight_ok = true;
  webhook = record {
    env_urls = codes "http://hook/x" ∷ [];
    files = [];
    parse = λ u. (codes "http", codes "hook", codes "/x");
    post = λ u. Posted.status 204;
  };
  writes_router = true;
}

abbrev nothing_seen : Memory
nothing_seen = record { seen = []; router = record { events = []; delivered = [] } }

-- the run waits, fails and waits again
abbrev calls : List (Outlet × Notice)
calls =
    (outlet, notice waiting_for_human)
    ∷ (outlet, notice failed)
    ∷ (outlet, notice waiting_for_human)
    ∷ []

alerts_apart : Distinct (sent_keys (alerts calls nothing_seen))
alerts_apart = alerts-Distinct calls nothing_seen (omega arith)

two_alerts_sent :
    sent_keys (alerts calls nothing_seen) ≡ "HUMAN_ONLY_OPEN:gate" ∷ "PLAYBOOK_RUN_FAIL:bad" ∷ []
unfolding alerts sent_keys ai_ops_runner.Autopilot.Alert.send_terminal_alert
    ai_ops_runner.Brain.Router.send_transition_notification ai_ops_runner.Base.Dict.get
    ai_ops_runner.Brain.Notifier.send_discord_webhook_alert
    ai_ops_runner.Brain.Notifier.resolve_discord_webhook_url ai_ops_runner.Base.Text.strip
    ai_ops_runner.Brain.Notifier.is_valid_webhook_url ai_ops_runner.Brain.Router.sent_ok
    ai_ops_runner.Base.Dict.put ai_ops_runner.Autopilot.Alert.build_autopilot_alert_hash
    ai_ops_runner.Brain.Router.build_state_hash ai_ops_runner.Base.Pieces.join
two_alerts_sent = refl
