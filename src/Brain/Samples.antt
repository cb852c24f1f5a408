-- ===== src/Brain/Samples.antt =====
-- Runs of the brain loop, with mocked verdicts and with one of the doctors.
use ai_ops_runner.Base.{
  if◌then◌else◌, ◌≡◌, refl, sym, ap, ◌↔◌, Bool, true, false, Option, none, some, List, [], ◌∷◌,
}
use ai_ops_runner.Base.Dict
use ai_ops_runner.Base.Json.{Json}
use ai_ops_runner.Base.Text.{Text, codes, text_contains}
use ai_ops_runner.Brain.Checks.{MatrixStatus, pass, fail, Seen, decide_event}
use ai_ops_runner.Brain.Checks.Silence.{Stays, decide_event_iff}
use ai_ops_runner.Brain.Notifier.{status}
use ai_ops_runner.Brain.Router.{Hasher, dedupe_key}
use ai_ops_runner.Brain.Router.Once.{NoRepeat, recent, under}
use ai_ops_runner.Brain.Matrix.{Matrix, run_matrix}
use ai_ops_runner.Brain.Matrix.Said.{SaidPass}
use ai_ops_runner.Brain.Loop.{Turn, World, Report, no_state, execute, run_all}
use ai_ops_runner.Brain.Loop.Alerts.{
  PassesClean, passing_hash, recovered, run_all-NoRepeat, run_all-recovered,
}
use ai_ops_runner.Brain.Loop.Verdict.{recorded_status, execute_passed}
use ai_ops_runner.Brain.Autonomy.{
  Files, normalized, read_autonomy_mode, write_autonomy_mode, read-write_autonomy_mode,
}

abbrev failing : Seen
failing = record { status = fail; failed_checks = codes "disk" ∷ [] }

abbrev passing : Seen
passing = record { status = pass; failed_checks = [] }

silent_on_repeat :
    ((decide_event (some failing) failing true).0 ≡ none)
    ↔ Stays fail fail (codes "disk" ∷ []) (codes "disk" ∷ [])
silent_on_repeat = decide_event_iff failing failing true

-- a hash that tells a text with PASS from the others
abbrev hasher : Hasher
hasher = record {
  quotes = λ t. t;
  sha256 = λ t. if text_contains t (codes "PASS") then "ok" else "bad";
}

-- a webhook that always takes the message, and a loop whose files can be written
abbrev turn : Seen → Turn
turn s = record {
  doctor = record {
    in_process = none;
    subprocess = none;
    loads = λ t. none;
    shows = λ v. [];
    result_file = λ d. none;
  };
  mock = some (codes "bundle", s);
  alert_on_first_fail = true;
  webhook = record {
    env_urls = codes "http://hook/x" ∷ [];
    files = [];
    parse = λ u. (codes "http", codes "hook", codes "/x");
    post = λ u. status 204;
  };
  hasher = hasher;
  writes_router = true;
  writes_state = true;
  writes_bundle = true;
}

abbrev fresh_start : World
fresh_start = record { state_file = no_state; sent = record { events = []; delivered = [] } }

abbrev outage : List Turn
outage = turn failing ∷ turn passing ∷ turn failing ∷ turn passing ∷ []

outage_sent : NoRepeat (run_all outage fresh_start).sent.delivered
unfolding recent NoRepeat
outage_sent =
    run_all-NoRepeat outage fresh_start (refl, (refl, (refl, (refl, tt))))
      record { ordered = tt; known = λ key hash e. cc }

checks_of : Option (Matrix × Bool) → List Text
checks_of none = []
checks_of (some (m, failed)) = m.seen.failed_checks

status_of : Option (Matrix × Bool) → MatrixStatus
status_of none = fail
status_of (some (m, failed)) = m.seen.status

passing_clean : PassesClean hasher (turn passing)
unfolding run_matrix checks_of
passing_clean = record { hashes = refl; clean = λ m failed e up. sym (ap checks_of e) }

failing_clean : PassesClean hasher (turn failing)
unfolding run_matrix status_of
failing_clean = record { hashes = refl; clean = λ m failed e up. cc (ap status_of e, up) }

-- the second recovery of an outage is not delivered
abbrev remembered : World
remembered = record {
  state_file = no_state;
  sent = record { events = (recovered, passing_hash hasher) ∷ []; delivered = [] };
}

second_recovery_unsent :
    under recovered (run_all outage remembered).sent.delivered
    ≡ under recovered remembered.sent.delivered
unfolding Dict.get dedupe_key
second_recovery_unsent =
    run_all-recovered hasher outage remembered refl
      (failing_clean, (passing_clean, (failing_clean, (passing_clean, tt))))

-- doctors that pass, in a run without a mock
abbrev live_turn : Turn
live_turn = record (turn passing) {
  doctor = record (turn passing).doctor {
    in_process = some (("status", Json.str "PASS") ∷ ("bundle_dir", Json.str "run1") ∷ []);
  };
  mock = none;
}

abbrev passed_report : Report
passed_report = record {
  exit_code = 0;
  status = pass;
  error_class = none;
  event_type = none;
  alert_sent = false;
  alert_deduped = false;
  warnings = [];
}

run_of_pass :
    SaidPass live_turn.doctor none
    × (recorded_status (execute live_turn fresh_start).0.state_file ≡ some pass)
unfolding execute run_matrix ai_ops_runner.Brain.Matrix.run_doctor_live
    ai_ops_runner.Brain.Matrix.seen_in ai_ops_runner.Base.Json.or_empty Dict.get
    ai_ops_runner.Brain.Matrix.str_of decide_event
run_of_pass = execute_passed live_turn fresh_start passed_report refl refl

abbrev switch : Files
switch = record { path = "/srv/mode.json"; store = [] }

read_back :
    read_autonomy_mode (write_autonomy_mode (codes "Off") Json.null Json.null switch)
    ≡ normalized (codes "Off")
read_back = read-write_autonomy_mode (codes "Off") Json.null Json.null switch
