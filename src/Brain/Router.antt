-- ===== src/Brain/Router.antt =====
-- ops/lib/notification_router.py: a notification is sent once for a state of a project and an event.
pub mod Once
use Prim.Native.String.{◌++◌ as str_append}
use ai_ops_runner.Base.{
  if◌then◌else◌, get_or, ◌==◌, string_eq, String, Bool, true, false, Option, none, some, List, [],
  ◌∷◌, ◌++◌,
}
use ai_ops_runner.Base.Dict
use ai_ops_runner.Base.Dict.{Dict}
use ai_ops_runner.Base.Text.{Text, codes}
use ai_ops_runner.Base.Pieces.{join}
use ai_ops_runner.Brain.Notifier.{Notify, Webhook, send_discord_webhook_alert}

-- `json.dumps` on a text, and the hexadecimal SHA-256
pub record Hasher : Type 0 where
  pub quotes : Text → Text
  pub sha256 : Text → String

quoted_all : Hasher → List Text → List Text
quoted_all h [] = []
quoted_all h (t ∷ ts) = h.quotes t ∷ quoted_all h ts

-- `json.dumps` on a list of texts, without blanks
unfoldable pub dumps_list : Hasher → List Text → Text
unfolding quoted_all
dumps_list h ts = codes "[" ++ join (codes ",") (quoted_all h ts) ++ codes "]"

dumps_members : Hasher → List (String × Text) → List Text
dumps_members h [] = []
dumps_members h ((k, v) ∷ ms) = (h.quotes (codes k) ++ codes ":" ++ v) ∷ dumps_members h ms

-- `build_state_hash` on a dictionary whose keys are in order, with its values as JSON
unfoldable pub build_state_hash : Hasher → List (String × Text) → String
unfolding dumps_members
build_state_hash h ms = h.sha256 (codes "{" ++ join (codes ",") (dumps_members h ms) ++ codes "}")

-- What the router keeps between calls: the hash last sent for each project and event, where a file
-- that is missing or of another shape counts as empty; and the log of what has been delivered, the
-- latest first.
pub record Sent : Type 0 where
  pub events : Dict String
  pub delivered : List (String × String)

-- `f"{project_id}:{event_type}"`
unfoldable pub dedupe_key : String → String → String
dedupe_key project event = str_append project (str_append ":" event)

-- the key's hash, empty when there is none
unfoldable pub known_hash : Dict String → String → String
known_hash events key = get_or (Dict.get events key) ""

-- the answer of the router: the notification's, and whether it was left out as sent before
pub record Routed : Type 0 where
  pub notify : Option Notify
  pub deduped : Bool

unfoldable pub sent_ok : Option Notify → Bool
sent_ok none = false
sent_ok (some n) = n.ok

-- the state is written after a delivery; `none` is an OSError of the write
after_send : Bool → String → String → Notify → Sent → Sent × Option Routed
after_send writable key hash n s =
    if n.ok
    then (
      record {
        events = if writable then Dict.put s.events key hash else s.events;
        delivered = (key, hash) ∷ s.delivered;
      },
      if writable then some record { notify = some n; deduped = false } else none,
    )
    else (s, some record { notify = some n; deduped = false })

-- `send_transition_notification`
unfoldable pub send_transition_notification :
    Webhook → Bool → String → String → String → Sent → Sent × Option Routed
unfolding after_send dedupe_key known_hash
send_transition_notification h writable project event hash s =
    let key = dedupe_key project event in
    if known_hash s.events key == hash
    then (s, some record { notify = none; deduped = true })
    else after_send writable key hash (send_discord_webhook_alert h) s
