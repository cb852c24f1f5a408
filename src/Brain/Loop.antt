-- ===== src/Brain/Loop.antt =====
-- `execute` of ops/system/brain_loop.py: one run of the loop. Its report is left with what the run
-- decided; times, paths and texts for people are left out.
pub mod Alerts
pub mod Verdict
use Prim.Native.String.{◌++◌ as str_append}
use ai_ops_runner.Base.{
  if◌then◌else◌, ◌==◌, string_eq, ℕ, String, Bool, true, false, not, ◌&&◌, ◌||◌, Option, none, some,
  List, [], ◌∷◌, ◌++◌,
}
use ai_ops_runner.Base.Text.{Text, codes}
use ai_ops_runner.Brain.Checks.{
  MatrixStatus, pass, fail, Event, fail_to_pass, Seen, normalize_failed_checks, decide_event,
}
use ai_ops_runner.Brain.Notifier.{AlertError, Notify, Webhook}
use ai_ops_runner.Brain.Router.{
  Hasher, dumps_list, build_state_hash, Sent, Routed, sent_ok, send_transition_notification,
}
use ai_ops_runner.Brain.Matrix.{Doctor, Matrix, run_matrix}

-- last_state.json as the loop writes it
pub record LastState : Type 0 where
  pub seen : Seen
  pub last_alert_hash : String

pub data StateFile : Type 0 where
  no_state unreadable_state : StateFile
  last_state : LastState → StateFile

-- what one run leaves for the next
pub record World : Type 0 where
  pub state_file : StateFile
  pub sent : Sent

-- What a run meets: the doctors and the mock of the command line, the setting that alerts on a
-- first failure, the webhook, the hashing of a verdict, and which files can be written: the router's
-- state, last_state.json, and those of the run's own bundle.
pub record Turn : Type 0 where
  pub doctor : Doctor
  pub mock : Option (Text × Seen)
  pub alert_on_first_fail : Bool
  pub webhook : Webhook
  pub hasher : Hasher
  pub writes_router : Bool
  pub writes_state : Bool
  pub writes_bundle : Bool

pub data Warning : Type 0 where
  state_file_unreadable doctor_inprocess_failed discord_alert_failed state_write_failed : Warning
  alert_error : AlertError → Warning

pub data LoopError : Type 0 where
  state_write_error brain_loop_exception : LoopError

pub record Report : Type 0 where
  pub exit_code : ℕ
  pub status : MatrixStatus
  pub error_class : Option LoopError
  pub event_type : Option Event
  pub alert_sent : Bool
  pub alert_deduped : Bool
  pub warnings : List Warning

-- the project that the loop reports on
abbrev pub project : String
project = "infra_openclaw"

-- a status as the payload has it
status_name : MatrixStatus → String
status_name pass = "PASS"
status_name fail = "FAIL"

-- the hash that an alert of this verdict has
unfoldable pub matrix_hash : Hasher → Seen → String
unfolding status_name
matrix_hash h now = build_state_hash h (
    ("failed_checks", dumps_list h now.failed_checks)
    ∷ ("matrix_status", h.quotes (codes (status_name now.status)))
    ∷ [])

-- the event under which the router knows it
unfoldable pub router_event : Event → String
router_event fail_to_pass = "CORE_RECOVERED"
router_event _ = "CORE_DEGRADED"

previous_seen : StateFile → Option Seen
previous_seen (last_state s) = some s.seen
previous_seen _ = none

prior_hash : StateFile → String
prior_hash (last_state s) = s.last_alert_hash
prior_hash _ = ""

read_warnings : StateFile → List Warning
read_warnings unreadable_state = state_file_unreadable ∷ []
read_warnings _ = []

-- what alerting gives: sent, left out, the hash to keep, and a warning if it failed
record Alerting : Type 0 where
  alert_sent : Bool
  alert_deduped : Bool
  kept_hash : String
  warnings : List Warning

unchanged : String → Alerting
unchanged prior = record {
  alert_sent = false;
  alert_deduped = false;
  kept_hash = prior;
  warnings = [];
}

failure_warning : Option Notify → Warning
failure_warning none = discord_alert_failed
failure_warning (some n) = elim n.error_class [
  | none ↦ discord_alert_failed
  | some e ↦ alert_error e
]

after_routing : String → String → Option Routed → Option Alerting
unfolding failure_warning
after_routing prior stored none = none
after_routing prior stored (some r) =
    let sent = sent_ok r.notify in
    some record {
      alert_sent = sent;
      alert_deduped = r.deduped;
      kept_hash = if sent || r.deduped then stored else prior;
      warnings = if sent || r.deduped then [] else failure_warning r.notify ∷ [];
    }

routed : String → String → Sent × Option Routed → Sent × Option Alerting
unfolding after_routing
routed prior stored (s, o) = (s, after_routing prior stored o)

-- the alert of an event; `none` is the exception of the router's write
alert_for : Turn → String → Seen → Event → Sent → Sent × Option Alerting
unfolding routed unchanged
alert_for t prior now e s =
    let hash = matrix_hash t.hasher now in
    let stored = str_append (router_event e) (str_append ":" hash) in
    if not (prior == "") && stored == prior
    then (
      s,
      some record { alert_sent = false; alert_deduped = true; kept_hash = stored; warnings = [] },
    )
    else routed prior stored
        (send_transition_notification t.webhook t.writes_router project (router_event e) hash s)

on_event : Turn → String → Seen → Option Event → Sent → Sent × Option Alerting
unfolding alert_for unchanged
on_event t prior now none s = (s, some (unchanged prior))
on_event t prior now (some e) s = alert_for t prior now e s

-- `except Exception`; the writes of its handler are not guarded
excepted : Turn → Option Event → List Warning → World → World × Option Report
excepted t event ws w = (
  w,
  if t.writes_bundle
      then some record {
        exit_code = 1;
        status = fail;
        error_class = some brain_loop_exception;
        event_type = event;
        alert_sent = false;
        alert_deduped = false;
        warnings = ws;
      }
      else none,
)

exit_of : MatrixStatus → ℕ
exit_of pass = 0
exit_of fail = 1

final_status : Bool → MatrixStatus → MatrixStatus
final_status writes_state status = if writes_state then status else fail

report_of : Turn → Seen → Option Event → List Warning → Alerting → Report
unfolding exit_of final_status
report_of t now event ws a =
    let status = final_status t.writes_state now.status in
    record {
      exit_code = exit_of status;
      status = status;
      error_class = if t.writes_state then none else some state_write_error;
      event_type = event;
      alert_sent = a.alert_sent;
      alert_deduped = a.alert_deduped;
      warnings = ws ++ a.warnings ++ (if t.writes_state then [] else state_write_failed ∷ []);
    }

-- the state is written, then the bundle
after_alert :
    Turn
    → Seen
    → Option Event
    → List Warning
    → World
    → Sent × Option Alerting
    → World × Option Report
unfolding excepted report_of
after_alert t now event ws w (s, none) = excepted t event ws (record w { sent = s })
after_alert t now event ws w (s, some a) = (
  record {
    state_file =
        if t.writes_state
        then last_state record { seen = now; last_alert_hash = a.kept_hash }
        else w.state_file;
    sent = s;
  },
  if t.writes_bundle then some (report_of t now event ws a) else none,
)

after_matrix : Turn → List Warning → World → Option (Matrix × Bool) → World × Option Report
unfolding after_alert on_event excepted previous_seen prior_hash
after_matrix t ws w none = excepted t none ws w
after_matrix t ws w (some (m, failed)) =
    let now : Seen = record {
      status = m.seen.status;
      failed_checks = normalize_failed_checks m.seen.failed_checks;
    } in
    let event = (decide_event (previous_seen w.state_file) now t.alert_on_first_fail).0 in
    after_alert t now event (ws ++ (if failed then doctor_inprocess_failed ∷ [] else [])) w
      (on_event t (prior_hash w.state_file) now event w.sent)

-- `execute`
unfoldable pub execute : Turn → World → World × Option Report
unfolding after_matrix read_warnings
execute t w = after_matrix t (read_warnings w.state_file) w (run_matrix t.doctor t.mock)

-- a run for each turn, one after the other
unfoldable pub run_all : List Turn → World → World
unfolding execute
run_all [] w = w
run_all (t ∷ ts) w = run_all ts (execute t w).0
