-- ===== src/Brain/Notifier.antt =====
-- `send_discord_webhook_alert` of ops/lib/notifier.py: where the webhook's address comes from, and what
-- an attempt to post ends with. The messages are left out.
use ai_ops_runner.Base.{
  ltb, leb, nat_beq, if◌then◌else◌, ℕ, Bool, true, false, not, ◌&&◌, ◌||◌, Option, none, some, List,
  [], ◌∷◌,
}
use ai_ops_runner.Base.Text.{Text, codes, strip, text_eq}

-- a file is not there, cannot be read, or has a content
pub data WebhookFile : Type 0 where
  no_file unreadable_file : WebhookFile
  contents : Text → WebhookFile

pub data UrlSource : Type 0 where
  env file file_error missing : UrlSource

-- what opening the request ends with
pub data Posted : Type 0 where
  status : ℕ → Posted
  http_error : ℕ → Posted
  value_error url_error timed_out other_error : Posted

-- What surrounds the notifier: the three environment variables in order, empty when unset, the two
-- files in order, the parts of a URL (scheme, host, path), and what posting to it ends with.
pub record Webhook : Type 0 where
  pub env_urls : List Text
  pub files : List WebhookFile
  pub parse : Text → Text × Text × Text
  pub post : Text → Posted

or_next : UrlSource → Text → Option Text × UrlSource → Option Text × UrlSource
or_next source [] later = later
or_next source (c ∷ s) later = (some (c ∷ s), source)

from_files : Bool → List WebhookFile → Option Text × UrlSource
unfolding or_next
from_files failed [] = (none, if failed then file_error else missing)
from_files failed (no_file ∷ fs) = from_files failed fs
from_files failed (unreadable_file ∷ fs) = from_files true fs
from_files failed (contents t ∷ fs) = or_next file (strip t) (from_files failed fs)

from_env : List WebhookFile → List Text → Option Text × UrlSource
unfolding or_next from_files
from_env files [] = from_files false files
from_env files (u ∷ us) = or_next env (strip u) (from_env files us)

-- `resolve_discord_webhook_url`
unfoldable pub resolve_discord_webhook_url : Webhook → Option Text × UrlSource
unfolding from_env
resolve_discord_webhook_url h = from_env h.files h.env_urls

-- the path holds something but slashes
has_more : Text → Bool
has_more [] = false
has_more (c ∷ s) = not (nat_beq c b'/') || has_more s

valid_parts : Text × Text × Text → Bool
unfolding has_more
valid_parts (scheme, host, path) =
    (text_eq scheme (codes "http") || text_eq scheme (codes "https"))
    && not (text_eq host [])
    && has_more path

-- `_is_valid_webhook_url`
unfoldable pub is_valid_webhook_url : Webhook → Option Text → Bool
unfolding valid_parts
is_valid_webhook_url h none = false
is_valid_webhook_url h (some url) =
    not (text_eq (strip url) []) && valid_parts (h.parse (strip url))

pub data AlertError : Type 0 where
  webhook_invalid discord_http_error discord_url_error discord_timeout discord_unknown : AlertError

pub record Notify : Type 0 where
  pub ok : Bool
  pub error_class : Option AlertError
  pub status_code : Option ℕ
  pub source : UrlSource

refused : UrlSource → AlertError → Option ℕ → Notify
refused source e code = record {
  ok = false;
  error_class = some e;
  status_code = code;
  source = source;
}

notify_of : UrlSource → Posted → Notify
unfolding refused
notify_of source (status n) =
    if leb 200 n && ltb n 300
    then record { ok = true; error_class = none; status_code = some n; source = source }
    else refused source discord_http_error (some n)
notify_of source (http_error n) = refused source discord_http_error (some n)
notify_of source value_error = refused source webhook_invalid none
notify_of source url_error = refused source discord_url_error none
notify_of source timed_out = refused source discord_timeout none
notify_of source other_error = refused source discord_unknown none

to_url : Webhook → Option Text × UrlSource → Notify
unfolding notify_of refused
to_url h (none, source) = refused source webhook_invalid none
to_url h (some url, source) =
    if is_valid_webhook_url h (some url)
    then notify_of source (h.post url)
    else refused source webhook_invalid none

-- `send_discord_webhook_alert`
unfoldable pub send_discord_webhook_alert : Webhook → Notify
unfolding to_url
send_discord_webhook_alert h = to_url h (resolve_discord_webhook_url h)
