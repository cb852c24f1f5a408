-- ===== src/Rootd/Server/Boundary.antt =====
-- What a request must pass before rootd touches the host.
use ai_ops_runner.Base.{
  Bool-cases, Option-cases, eq_iff, ◌==◌, string_eq, String, ◌≡◌, refl, ◌≢◌, inl, inr, true, false,
  some, arith,
}
use ai_ops_runner.Base.Dict
use ai_ops_runner.Base.Dict.{Dict}
use ai_ops_runner.Base.Int.{ℤ}
use ai_ops_runner.Base.Json.{Json, as_text, as_dict}
use ai_ops_runner.Policy.{Policy, validate_rootd_command}
use ai_ops_runner.Rootd.Exec.{Host}
use ai_ops_runner.Rootd.Command.{World, command_args, handle_command}
use ai_ops_runner.Rootd.Server.{
  Daemon, Request, Length, missing, junk, number, receive, verify_hmac, read, dispatch, do_post,
}

-- a refused command has no effect
effects-refused :
    (h : Host) (p : Policy) (fresh c : String) (request : Dict Json) (w : World)
    → (validate_rootd_command p c (command_args request)).allowed ≡ false
    → (handle_command h p fresh c request w).0.effects ≡ w.effects
unfolding handle_command
effects-refused h p fresh c request w e = ground arith

-- The request is a POST to /exec whose body has a valid signature, decodes to an object, and
-- names a command that the policy allows with its arguments.
pub record IsAuthorised (d : Daemon) (r : Request) : Type 0 where
  pub on_exec : r.path ≡ "/exec"
  pub size : ℤ
  pub sized : r.content_length ≡ number size
  pub signed : verify_hmac d (read size r.stream) r.signature ≡ true
  pub body : Json
  pub decoded : d.loads (read size r.stream) ≡ some body
  pub request : Dict Json
  pub object : as_dict body ≡ some request
  pub command : Json
  pub named : Dict.get request "command" ≡ some command
  pub name : String
  pub text : as_text command ≡ some name
  pub allowed : (validate_rootd_command d.policy name (command_args request)).allowed ≡ true

dispatch_guarded :
    (d : Daemon) (request : Dict Json) (w : World)
    → (dispatch d (some request) w).0.effects ≢ w.effects
    → (v : Json) × (name : String) × (Dict.get request "command" ≡ some v)
      × (as_text v ≡ some name)
      × ((validate_rootd_command d.policy name (command_args request)).allowed ≡ true)
unfolding dispatch
dispatch_guarded d request w changed = elim (Option-cases (Dict.get request "command")) [
  | inl e ↦ absurd (changed (ground (arith, e)))
  | inr (v, e) ↦ elim (Option-cases (as_text v)) [
    | inl e' ↦ absurd (changed (ground (arith, e, e')))
    | inr (name, e') ↦
        let verdict = validate_rootd_command d.policy name (command_args request) in
        elim (Bool-cases verdict.allowed) [
          | inl yes' ↦ (v, name, e, e', yes')
          | inr no' ↦ absurd (
              changed
                (ground (arith, e, e', effects-refused d.host d.policy d.fresh name request w no')))
        ]
  ]
]

receive_guarded :
    (d : Daemon) (r : Request) (size : ℤ) (w : World)
    → r.path ≡ "/exec"
    → r.content_length ≡ number size
    → (receive d r.signature (read size r.stream) w).0.effects ≢ w.effects
    → IsAuthorised d r
unfolding receive
receive_guarded d r size w at sized changed =
    let body = read size r.stream in
    elim (Bool-cases (verify_hmac d body r.signature)) [
      | inr e ↦ absurd (changed (ground (arith, e)))
      | inl signed ↦ elim (Option-cases (d.loads body)) [
        | inl e ↦ absurd (changed (ground (arith, e)))
        | inr (v, decoded) ↦ elim (Option-cases (as_dict v)) [
          | inl e ↦ absurd (changed (ground (arith, decoded, e)))
          | inr (request, object) ↦
              let (cmd, name, named, text, allowed) =
                dispatch_guarded d request w
                  (λ same. changed (ground (arith, decoded, object, same))) in
              record {
                on_exec = at;
                size = size;
                sized = sized;
                signed = signed;
                body = v;
                decoded = decoded;
                request = request;
                object = object;
                command = cmd;
                named = named;
                name = name;
                text = text;
                allowed = allowed;
              }
        ]
      ]
    ]

by_length :
    (d : Daemon) (r : Request) (w : World) (l : Length)
    → r.content_length ≡ l
    → r.path ≡ "/exec"
    → (do_post d r w).0.effects ≢ w.effects
    → IsAuthorised d r
unfolding do_post
by_length d r w missing e at changed = absurd (changed (ground (arith, e)))
by_length d r w junk e at changed = absurd (changed (ground (arith, e)))
by_length d r w (number n) e at changed =
    receive_guarded d r n w at e (λ same. changed (ground (arith, e, same)))

-- Whatever request changes the host is authorised: sent to /exec with a valid signature over the
-- body that was read, an object whose command the policy allows with its arguments.
pub do_post_guarded :
    (d : Daemon) (r : Request) (w : World)
    → (do_post d r w).0.effects ≢ w.effects
    → IsAuthorised d r
unfolding do_post
do_post_guarded d r w changed = elim (Bool-cases (r.path == "/exec")) [
  | inr e ↦ absurd (changed (ground (arith, e)))
  | inl e ↦ by_length d r w (r.content_length) refl ((eq_iff r.path "/exec").0 e) changed
]
