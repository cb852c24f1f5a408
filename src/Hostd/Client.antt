-- ===== src/Hostd/Client.antt =====
-- ops/rootd_client.py: how a command is signed and sent to rootd, and what comes back.
pub mod Signed
use ai_ops_runner.Base.{
  if◌then◌else◌, get_or, length, drop, String, true, false, Option, none, some, [], ◌∷◌,
}
use ai_ops_runner.Base.Int.{pos}
use ai_ops_runner.Base.Json.{Json, bool, str, obj, field, end, truthy}
use ai_ops_runner.Base.Text.{Text, codes, text_starts_with}
use ai_ops_runner.Rootd.Server.{Request, number, load_hmac_key}

-- what the socket gives: the bytes of an answer, or an exception before there is one
pub data Wire : Type 0 where
  answered : Text → Wire
  unreachable : String → Wire

-- What surrounds the client: `json.dumps` and `json.loads`, the HMAC of a payload under a key, the
-- key file's content if it can be read, the socket, and the answer to GET /health if there is one.
pub record Link : Type 0 where
  pub dumps : Json → Text
  pub loads : Text → Option Json
  pub mac : Text → Text → Text
  pub key_file : Option Text
  pub post : Request → Wire
  pub health : Wire

-- the payload of a command
unfoldable pub payload : String → Json → String → Json
payload command args run_id = obj (
    field "command" (str command)
      (field "args" (if truthy args then args else obj end) (field "run_id" (str run_id) end)))

-- `_http_post("/exec", body, signature)`
unfoldable pub request_of : Text → Text → Request
request_of body signature = record {
  path = "/exec";
  content_length = number (pos (length body));
  stream = body;
  signature = signature;
}

sign_with : Link → Text → Option Text → Text
sign_with l body none = []
sign_with l body (some key) = l.mac key body

-- `_compute_hmac`
unfoldable pub compute_hmac : Link → Text → Text
unfolding sign_with
compute_hmac l body = sign_with l body (load_hmac_key l.key_file)

blank_line : Text
blank_line = 13 ∷ 10 ∷ 13 ∷ 10 ∷ []

-- what follows the first blank line
after_blank_line : Text → Option Text
unfolding blank_line
after_blank_line [] = none
after_blank_line (c ∷ s) = elim (text_starts_with (c ∷ s) blank_line) [
  | true ↦ some (drop 4 (c ∷ s))
  | false ↦ after_blank_line s
]

-- the message that the client makes up carries the raw text too
or_invalid : Option Json → Json
or_invalid none =
    obj (field "ok" (bool false) (field "error" (str "Invalid JSON response from rootd") end))
or_invalid (some v) = v

-- `_read_response`, without the raw text of an answer that is no JSON
unfoldable pub read_response : Link → Text → Json
unfolding or_invalid after_blank_line
read_response l data' = or_invalid (l.loads (get_or (after_blank_line data') data'))

no_key : String → String → Json
no_key command run_id = obj (
    field "ok" (bool false) (
      field "command" (str command) (
        field "run_id" (str run_id) (
          field "reason"
            (str
              "Cannot read HMAC key from /etc/ai-ops-runner/secrets/rootd_hmac_key. Denied (fail-closed).")
            end))))

-- the reason is the socket's path with what the exception says
no_answer : String → String → String → Json
no_answer command run_id reason = obj (
    field "ok" (bool false) (
      field "command" (str command) (
        field "run_id" (str run_id)
          (field "reason" (str reason) (field "rootd_unavailable" (bool true) end)))))

on_wire : Link → String → String → Wire → Json
unfolding read_response no_answer
on_wire l command run_id (answered data') = read_response l data'
on_wire l command run_id (unreachable e) = no_answer command run_id e

-- a command is sent only when it can be signed
sent_request : Text → Text → Option Request
unfolding request_of
sent_request body [] = none
sent_request body (c ∷ s) = some (request_of body (c ∷ s))

on_request : Link → String → String → Option Request → Option Request × Json
unfolding on_wire no_key
on_request l command run_id none = (none, no_key command run_id)
on_request l command run_id (some r) = (some r, on_wire l command run_id (l.post r))

-- `RootdClient.exec` with a run id: the request that it sends, if any, and its result
unfoldable pub client_exec : Link → String → Json → String → Option Request × Json
unfolding payload compute_hmac sent_request on_request
client_exec l command args run_id =
    let body = l.dumps (payload command args run_id) in
    on_request l command run_id (sent_request body (compute_hmac l body))
