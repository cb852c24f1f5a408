-- ===== src/Rootd/Server/Accepts.antt =====
-- A request that rootd takes through to its command.
use ai_ops_runner.Base.{
  nat_beq, length, take, eq_iff, ◌==◌, string_eq, ℕ, ◌≤◌, String, ◌≡◌, refl, ap, ◌≢◌, true, false,
  some, List, [], ◌∷◌, arith,
}
use ai_ops_runner.Base.Dict
use ai_ops_runner.Base.Dict.{Dict}
use ai_ops_runner.Base.Int.{pos}
use ai_ops_runner.Base.Json.{Json, str, as_dict, as_text}
use ai_ops_runner.Base.Text.{Text, text_eq_iff}
use ai_ops_runner.Rootd.Command.{World, handle_command}
use ai_ops_runner.Rootd.Server.{
  Daemon, Request, number, max_request_size, receive, body_of, dispatch, load_hmac_key, verify_hmac,
  read, oversized, respond, do_post,
}

take-length {ℓ} : {A : Type ℓ} (xs : List A) → take (length xs) xs ≡ xs
take-length [] = refl
take-length (x ∷ xs) = ap (λ ys. x ∷ ys) (take-length xs)

length_nonempty : (s : Text) → s ≢ [] → nat_beq (length s) 0 ≡ false
length_nonempty [] ne = absurd (ne refl)
length_nonempty (c ∷ s) ne = ground arith

not_named : (c : String) → c ≢ "" → (c == "") ≡ false
not_named c ne = ground (arith, eq_iff c "")

dispatch_accepts :
    (d : Daemon) (request : Dict Json) (c : String) (w : World)
    → Dict.get request "command" ≡ some (str c)
    → c ≢ ""
    → dispatch d (some request) w ≡ respond (handle_command d.host d.policy d.fresh c request w)
unfolding dispatch as_text
dispatch_accepts d request c w e ne = rw (dispatch, e, not_named c ne) refl

-- the request is well-formed, within the size limit, and signed
pub record IsSigned (d : Daemon) (r : Request) (c : String) (request : Dict Json) : Type 0 where
  pub on_exec : r.path ≡ "/exec"
  pub sized : r.content_length ≡ number (pos (length r.stream))
  pub small : length r.stream ≤ max_request_size
  pub has_signature : r.signature ≢ []
  pub signed : verify_hmac d r.stream r.signature ≡ true
  pub body : Json
  pub decoded : d.loads r.stream ≡ some body
  pub object : as_dict body ≡ some request
  pub command : Dict.get request "command" ≡ some (str c)
  pub named : c ≢ ""

receive_accepts :
    (d : Daemon) (r : Request) (c : String) (request : Dict Json) (w : World)
    → IsSigned d r c request
    → receive d r.signature r.stream w
      ≡ respond (handle_command d.host d.policy d.fresh c request w)
unfolding receive body_of
receive_accepts d r c request w h =
    rw (length_nonempty r.signature h.has_signature, h.signed, h.decoded, h.object)
      (dispatch_accepts d request c w h.command h.named)

fits : (n : ℕ) → n ≤ max_request_size → oversized (pos n) ≡ false
unfolding oversized
fits n h = ground arith

pub verify_hmac-holds :
    (d : Daemon) (body signature key : Text)
    → load_hmac_key d.key_file ≡ some key
    → d.mac key body ≡ signature
    → verify_hmac d body signature ≡ true
unfolding verify_hmac
verify_hmac-holds d body signature key e same =
    rw (verify_hmac, e) ((text_eq_iff (d.mac key body) signature).1 same)

-- Such a request reaches `handle_command`.
pub do_post_accepts :
    (d : Daemon) (r : Request) (c : String) (request : Dict Json) (w : World)
    → IsSigned d r c request
    → do_post d r w ≡ respond (handle_command d.host d.policy d.fresh c request w)
unfolding do_post read
do_post_accepts d r c request w h =
    rw (h.on_exec, h.sized, fits (length r.stream) h.small, take-length r.stream)
      (receive_accepts d r c request w h)
