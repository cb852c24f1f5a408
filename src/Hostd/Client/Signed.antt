-- ===== src/Hostd/Client/Signed.antt =====
-- The client of rootd and rootd itself, put together.
use ai_ops_runner.Base.{if◌then◌else◌, length, ◌≤◌, String, ◌≡◌, refl, ap, ◌∙◌, ◌≢◌, some, [], ◌∷◌}
use ai_ops_runner.Base.Dict
use ai_ops_runner.Base.Dict.{Dict}
use ai_ops_runner.Base.Json.{Json, as_dict, str, obj, end, members, truthy}
use ai_ops_runner.Base.Text.{Text}
use ai_ops_runner.Rootd.Command.{World, handle_command}
use ai_ops_runner.Rootd.Server.{Daemon, Request, load_hmac_key, do_post, respond, max_request_size}
use ai_ops_runner.Rootd.Server.Accepts.{IsSigned, verify_hmac-holds, do_post_accepts}
use ai_ops_runner.Hostd.Client.{
  Link, payload, request_of, compute_hmac, sign_with, sent_request, on_request, client_exec,
}

-- what the client signs and sends
abbrev pub wire_body : Link → String → Json → String → Text
wire_body l command args run_id = l.dumps (payload command args run_id)

-- the fields that rootd finds in it
unfoldable pub request_fields : String → Json → String → Dict Json
request_fields command args run_id =
    ("command", str command)
    ∷ ("args", if truthy args then args else obj end)
    ∷ ("run_id", str run_id)
    ∷ []

-- Rootd reads the key that the client reads, computes the same HMAC, which is not empty, and decodes
-- the payload as it was.
pub record IsPaired (l : Link) (d : Daemon) (p : Json) : Type 0 where
  pub key : Text
  pub has_key : load_hmac_key l.key_file ≡ some key
  pub same_file : d.key_file ≡ l.key_file
  pub same_mac : d.mac key (l.dumps p) ≡ l.mac key (l.dumps p)
  pub has_mac : l.mac key (l.dumps p) ≢ []
  pub decodes : d.loads (l.dumps p) ≡ some p

compute_hmac-key :
    (l : Link) (body key : Text)
    → load_hmac_key l.key_file ≡ some key
    → compute_hmac l body ≡ l.mac key body
unfolding compute_hmac sign_with
compute_hmac-key l body key e = rw e refl

sent_request-signed :
    (body signature : Text)
    → signature ≢ []
    → sent_request body signature ≡ some (request_of body signature)
unfolding sent_request
sent_request-signed body [] ne = absurd (ne refl)
sent_request-signed body (c ∷ s) ne = refl

request_of-IsSigned :
    (l : Link) (d : Daemon) (command run_id : String) (args : Json)
    → (h : IsPaired l d (payload command args run_id))
    → length (wire_body l command args run_id) ≤ max_request_size
    → command ≢ ""
    → IsSigned d
        (request_of
          (wire_body l command args run_id)
          (l.mac h.key (wire_body l command args run_id)))
        command
        (request_fields command args run_id)
unfolding request_of request_fields payload as_dict members Dict.get
request_of-IsSigned l d command run_id args h small named = record {
  on_exec = refl;
  sized = refl;
  small = small;
  has_signature = h.has_mac;
  signed =
      verify_hmac-holds d (wire_body l command args run_id) _ h.key
        (ap load_hmac_key h.same_file ∙ h.has_key) h.same_mac;
  body = payload command args run_id;
  decoded = h.decodes;
  object = refl;
  command = refl;
  named = named;
}

client_exec-sends :
    (l : Link) (command run_id : String) (args : Json) (key : Text)
    → load_hmac_key l.key_file ≡ some key
    → l.mac key (wire_body l command args run_id) ≢ []
    → (client_exec l command args run_id).0
      ≡ some (
          request_of
            (wire_body l command args run_id)
            (l.mac key (wire_body l command args run_id)))
unfolding client_exec on_request
client_exec-sends l command run_id args key e ne =
    rw
      (
        compute_hmac-key l (wire_body l command args run_id) key e,
        sent_request-signed (wire_body l command args run_id) _ ne,
      )
      refl

-- When client and rootd are paired, a command with a name, whose payload is within rootd's size
-- limit, is sent, and the request sent passes rootd's checks and is handled with the client's fields.
pub client_exec-do_post :
    (l : Link) (d : Daemon) (command run_id : String) (args : Json) (w : World)
    → IsPaired l d (payload command args run_id)
    → length (wire_body l command args run_id) ≤ max_request_size
    → command ≢ ""
    → (r : Request) × ((client_exec l command args run_id).0 ≡ some r)
      × (do_post d r w
          ≡ respond (
              handle_command d.host d.policy d.fresh command
                (request_fields command args run_id)
                w))
client_exec-do_post l d command run_id args w h small named = (
  request_of (wire_body l command args run_id) (l.mac h.key (wire_body l command args run_id)),
  client_exec-sends l command run_id args h.key h.has_key h.has_mac,
  do_post_accepts d _ command _ w (request_of-IsSigned l d command run_id args h small named),
)
