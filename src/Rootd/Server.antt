-- ===== src/Rootd/Server.antt =====
-- `RootdHandler.do_POST` of ops/openclaw_rootd.py, with the signature check.
pub mod Boundary
pub mod Accepts
use ai_ops_runner.Base.{
  ltb, leb, nat_beq, if◌then◌else◌, length, take, ◌==◌, string_eq, ℕ, String, Bool, false, not,
  ◌||◌, Option, none, some,
}
use ai_ops_runner.Base.Dict
use ai_ops_runner.Base.Dict.{Dict}
use ai_ops_runner.Base.Int.{ℤ, pos, negsuc}
use ai_ops_runner.Base.Json.{Json, as_text, as_dict}
use ai_ops_runner.Base.Text.{Text, strip, text_eq}
use ai_ops_runner.Policy.{Policy}
use ai_ops_runner.Rootd.Exec.{Host}
use ai_ops_runner.Rootd.Command.{World, Result, Reply, handle_command}

abbrev pub max_request_size : ℕ
max_request_size = 32768

-- What surrounds the daemon: the HMAC of a payload under a key, `json.loads`, the key file's
-- content if it can be read, the run id it would make up, the host and the policy.
pub record Daemon : Type 0 where
  pub mac : Text → Text → Text
  pub loads : Text → Option Json
  pub key_file : Option Text
  pub fresh : String
  pub host : Host
  pub policy : Policy

-- A Content-Length header: missing or empty, a number, or what `int` does not read.
pub data Length : Type 0 where
  missing : Length
  number : ℤ → Length
  junk : Length

pub record Request : Type 0 where
  pub path : String
  pub content_length : Length
  pub stream : Text
  pub signature : Text

-- `_load_hmac_key`
unfoldable pub load_hmac_key : Option Text → Option Text
load_hmac_key none = none
load_hmac_key (some file) = if leb 16 (length (strip file)) then some (strip file) else none

-- `_verify_hmac`
unfoldable pub verify_hmac : Daemon → Text → Text → Bool
unfolding load_hmac_key
verify_hmac d payload signature = elim (load_hmac_key d.key_file) [
  | none ↦ false
  | some key ↦ text_eq (d.mac key payload) signature
]

-- `rfile.read(n)`: the count −1 reads to the end
unfoldable pub read : ℤ → Text → Text
read (pos n) s = take n s
read (negsuc n) s = s

-- `rfile.read(n)` raises on a count below −1
is_unreadable : ℤ → Bool
is_unreadable (pos n) = false
is_unreadable (negsuc n) = ltb 0 n

oversized : ℤ → Bool
oversized (pos n) = ltb max_request_size n
oversized (negsuc n) = false

pub data Response : Type 0 where
  sent : ℕ → Option Result → Response
  dropped : Response

-- `200 if ok else 403 if not policy_allowed else 500`
status_code : Result → ℕ
status_code r = if r.ok then 200 else if not r.policy_allowed then 403 else 500

pub respond : Reply → World × Response
unfolding status_code
respond (w, none) = (w, dropped)
respond (w, some r) = (w, sent (status_code r) (some r))

dispatch : Daemon → Option (Dict Json) → World → World × Response
unfolding respond
dispatch d none w = (w, sent 400 none)
dispatch d (some request) w = elim (Dict.get request "command") [
  | none ↦ (w, sent 400 none)
  | some v ↦ elim (as_text v) [
    | none ↦ (w, sent 400 none)
    | some c ↦
        if c == ""
        then (w, sent 400 none)
        else respond (handle_command d.host d.policy d.fresh c request w)
  ]
]

body_of : Option Json → Option (Dict Json)
body_of none = none
body_of (some v) = as_dict v

receive : Daemon → Text → Text → World → World × Response
unfolding dispatch body_of
receive d signature body w =
    if nat_beq (length signature) 0 || not (verify_hmac d body signature)
    then (w, sent 403 none)
    else dispatch d (body_of (d.loads body)) w

-- `do_POST`
unfoldable pub do_post : Daemon → Request → World → World × Response
unfolding receive oversized is_unreadable
do_post d r w = if not (r.path == "/exec") then (w, sent 404 none) else elim r.content_length [
  | missing ↦ (w, sent 400 none)
  | junk ↦ (w, dropped)
  | number n ↦
      let on_read = receive d r.signature (read n r.stream) w in
      if oversized n then (w, sent 400 none) else if is_unreadable n then (w, dropped) else on_read
]
