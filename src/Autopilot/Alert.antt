-- ===== src/Autopilot/Alert.antt =====
-- The alert of ops/system/project_autopilot.py for the end of a run: sent through the notification
-- router, unless it is among those that the autopilot's state remembers.
pub mod Distinct
use Prim.Native.String.{◌++◌ as str_append}
use ai_ops_runner.Base.{
  if◌then◌else◌, length, drop, string_eq, contains, ℕ, ◌-◌, String, Bool, false, ◌||◌, Option, none,
  some, List, [], ◌∷◌, ◌++◌,
}
use ai_ops_runner.Base.Text.{codes}
use ai_ops_runner.Brain.Notifier.{Webhook}
use ai_ops_runner.Brain.Router.{
  Hasher, build_state_hash, Sent, Routed, sent_ok, send_transition_notification,
}
use ai_ops_runner.Autopilot.Remote.{Terminal, success, waiting_for_human, failed, running}

-- what is told of a run
pub record Notice : Type 0 where
  pub project : String
  pub terminal : Terminal
  pub error_class : String
  pub run_id : String

-- What surrounds an alert: hashing, whether the webhook's address was found to be valid
-- at the start, the webhook, and whether the router's file can be written.
pub record Outlet : Type 0 where
  pub hasher : Hasher
  pub preflight_ok : Bool
  pub webhook : Webhook
  pub writes_router : Bool

pub data AlertStatus : Type 0 where
  skipped deduped sent error : AlertStatus

-- `key` is the event with the hash of the notice
pub record Alert : Type 0 where
  pub alert_status : AlertStatus
  pub key : String

-- the autopilot's own state and the router's
pub record Memory : Type 0 where
  pub seen : List String
  pub router : Sent

abbrev pub seen_alerts_max : ℕ
seen_alerts_max = 200

-- a terminal status as the payload has it
terminal_name : Terminal → String
terminal_name success = "SUCCESS"
terminal_name waiting_for_human = "WAITING_FOR_HUMAN"
terminal_name failed = "FAIL"
terminal_name running = "RUNNING"

-- `build_autopilot_alert_hash`
unfoldable pub build_autopilot_alert_hash : Hasher → Notice → String
unfolding terminal_name
build_autopilot_alert_hash h n = build_state_hash h (
    ("error_class", h.quotes (codes n.error_class))
    ∷ ("project", h.quotes (codes n.project))
    ∷ ("run_id", h.quotes (codes n.run_id))
    ∷ ("terminal_status", h.quotes (codes (terminal_name n.terminal)))
    ∷ [])

event_of : Terminal → Option String
event_of waiting_for_human = some "HUMAN_ONLY_OPEN"
event_of failed = some "PLAYBOOK_RUN_FAIL"
event_of success = some "PLAYBOOK_RUN_PASS"
event_of running = none

-- `[*seen, seen_key][-SEEN_ALERTS_MAX:]`
unfoldable pub remember : String → List String → List String
remember key seen = drop (length (seen ++ key ∷ []) - seen_alerts_max) (seen ++ key ∷ [])

status_of : Routed → AlertStatus
status_of r = if r.deduped then deduped else if sent_ok r.notify then sent else error

-- an exception of the router leaves the autopilot's state as it is
after_notify : String → List String → Sent × Option Routed → Memory × Alert
unfolding remember status_of
after_notify key seen (router, none) =
    (record { seen = seen; router = router }, record { alert_status = error; key = key })
after_notify key seen (router, some r) = (
  record {
    seen = if sent_ok r.notify || r.deduped then remember key seen else seen;
    router = router;
  },
  record { alert_status = status_of r; key = key },
)

notify : Outlet → Notice → String → Sent → Sent × Option Routed
notify o n event router =
    if o.preflight_ok
    then send_transition_notification o.webhook o.writes_router n.project event
        (build_autopilot_alert_hash o.hasher n) router
    else (router, some record { notify = none; deduped = false })

send_event : Outlet → Notice → String → String → Memory → Memory × Alert
unfolding after_notify notify
send_event o n event key m =
    if contains m.seen key
    then (m, record { alert_status = deduped; key = key })
    else after_notify key m.seen (notify o n event m.router)

on_event : Outlet → Notice → Option String → Memory → Memory × Alert
unfolding send_event
on_event o n none m = (m, record { alert_status = skipped; key = "" })
on_event o n (some event) m =
    send_event o n event (str_append event (str_append ":" (build_autopilot_alert_hash o.hasher n)))
      m

-- `send_terminal_alert`
unfoldable pub send_terminal_alert : Outlet → Notice → Memory → Memory × Alert
unfolding on_event event_of
send_terminal_alert o n m = on_event o n (event_of n.terminal) m

-- the alerts of one run of the autopilot after the other, the first first
unfoldable pub alerts : List (Outlet × Notice) → Memory → List Alert
alerts [] m = []
alerts ((o, n) ∷ calls) m =
    let (after, alert) = send_terminal_alert o n m in alert ∷ alerts calls after
