-- ===== src/Hostd/Service.antt =====
-- What the requests of ops/openclaw_hostd.py share: the service around them, their bodies, their
-- answers, and the deeds that they leave.
use ai_ops_runner.Base.{ltb, if◌then◌else◌, ℕ, String, Bool, false, Option, List, []}
use ai_ops_runner.Base.Dict.{Dict}
use ai_ops_runner.Base.Int.{ℤ, pos, negsuc}
use ai_ops_runner.Base.Json.{Json}
use ai_ops_runner.Base.Text.{Text}
use ai_ops_runner.Rootd.Server.{Length, missing, number, junk, read}
use ai_ops_runner.Hostd.Token.{
  TokenSources, AuthSource, Admission, admitted, not_configured, forbidden,
}
use ai_ops_runner.Hostd.Registry.{Spec}
use ai_ops_runner.Hostd.Secrets.{Vault, UploadBody, SecretStatus}
use ai_ops_runner.Hostd.Action.{Station, ActionEnd, ActionRun}
use ai_ops_runner.Hostd.Client.{Link}

-- What surrounds the service: where its token is, its allowlist, the processes and files of an
-- action, the secrets, the state file's JSON value if it is there, rootd, and the next run id.
pub record Service : Type 0 where
  pub sources : TokenSources
  pub allowlist : Dict Spec
  pub station : Station
  pub vault : Vault
  pub state_file : Option Json
  pub link : Link
  pub fresh : String

-- The path is that of the parsed URL, the token empty when its header is missing.
pub record Call : Type 0 where
  pub path : String
  pub token : Text
  pub content_length : Length
  pub stream : Text

pub data Deed : Type 0 where
  stored : Text → Text → Deed
  blocked : String → String → Deed
  sent_to_rootd : String → Json → Deed
  incident : String → String → Json → Deed
  ran : String → ActionRun → Deed

pub data Body : Type 0 where
  problem : String → Body
  auth_missing : Body
  auth_forbidden : AuthSource → Body
  lane_locked : String → String → Body
  action_result : String → String → ActionEnd → Body
  rootd_result : Dict Json → Body
  upload_result : UploadBody → Body
  secret_status : SecretStatus → Body
  rootd_health : Json → Body
  health : Json → Body

-- an answer, or the exception that drops the connection
pub data HttpReply : Type 0 where
  replied : ℕ → Body → HttpReply
  aborted : HttpReply

abbrev pub Handled : Type 0
Handled = List Deed × HttpReply

-- an answer that leaves nothing behind
abbrev pub answer : ℕ → Body → Handled
answer code b = ([], replied code b)

-- `if not self._require_admin(): return`
unfoldable pub with_admin : Admission → Handled → Handled
with_admin admitted rest = rest
with_admin not_configured rest = answer 503 auth_missing
with_admin (forbidden source) rest = answer 403 (auth_forbidden source)

-- the body is refused for its length, the header is no number, or it is read
pub data Received : Type 0 where
  bad_length : Received
  no_number : Received
  body : Text → Received

exceeds : ℕ → ℤ → Bool
exceeds limit (pos n) = ltb limit n
exceeds limit (negsuc n) = false

received_of : ℕ → Text → Length → Received
unfolding exceeds
received_of limit stream missing = bad_length
received_of limit stream junk = no_number
received_of limit stream (number n) = if exceeds limit n then bad_length else body (read n stream)

unfoldable pub receive_body : ℕ → Call → Received
unfolding received_of
receive_body limit c = received_of limit c.stream c.content_length
