-- ===== src/Hostd/Server/Guarded.antt =====
-- Why the host executor does what it does: each deed of a request has its reason.
use ai_ops_runner.Base.{
  if◌then◌else◌, Bool-cases, All, eq_iff, ◌==◌, string_eq, contains, ℕ, String, ◌≡◌, refl, ◌⊎◌, inl,
  inr, Bool, true, false, Option, none, some, List, [], ◌∷◌,
}
use ai_ops_runner.Base.Dict
use ai_ops_runner.Base.Dict.{Dict}
use ai_ops_runner.Base.Json.{Json, as_dict}
use ai_ops_runner.Base.Text.{Text}
use ai_ops_runner.Rootd.Server.{Request}
use ai_ops_runner.Hostd.Token.{Admission, admitted, not_configured, forbidden, require_admin}
use ai_ops_runner.Hostd.Token.Admitted.{IsAdmin, require_admin_sound}
use ai_ops_runner.Hostd.Secrets.{UploadEnd}
use ai_ops_runner.Hostd.Secrets.Confined.{
  IsAllowedUpload, Stored, StoredAs, sent-IsAllowedUpload, handle_secrets_upload-Stored,
}
use ai_ops_runner.Hostd.Backtest.{
  Gate, open_gate, closed_gate, broken_gate, orb_backtest_actions, is_orb_backtest_allowed,
}
use ai_ops_runner.Hostd.Client.{client_exec}
use ai_ops_runner.Hostd.Service.{
  Service, Call, Deed, stored, blocked, Body, HttpReply, answer, aborted, sent_to_rootd, incident,
  ran, Handled, Received, bad_length, no_number, body, with_admin,
}
use ai_ops_runner.Hostd.Server.{
  rootd_answer, forwarded, forward, rootd_command, rootd_json, rootd_exec, stored_deed,
  upload_answer, secrets_upload, run_now, by_gate, gated, listed_action, action_command,
  action_json, action_exec, do_post,
}

-- A secret is stored as the allowlist has it. An action that runs is allowlisted, and a backtest
-- runs only past an open gate and is blocked only by a closed one. Rootd is asked only at its path.
pub Justified : Service → String → Deed → Type 0
Justified s path (stored file content) =
    (path ≡ "/secrets/upload") × IsAllowedUpload s.vault file content
Justified s path (ran action r) =
    (path ≡ "/exec")
    × (Dict.has s.allowlist action ≡ true)
    × ((contains orb_backtest_actions action ≡ false)
        ⊎ (is_orb_backtest_allowed s.state_file ≡ open_gate))
Justified s path (blocked run_id action) =
    (path ≡ "/exec")
    × (contains orb_backtest_actions action ≡ true)
    × (is_orb_backtest_allowed s.state_file ≡ closed_gate)
Justified s path (sent_to_rootd command args) = path ≡ "/rootd/exec"
Justified s path (incident run_id command reason) = path ≡ "/rootd/exec"

Fine : Service → String → Handled → Type 0
Fine s path h = All (Justified s path) h.0

if-Fine :
    (s : Service) (path : String) (b : Bool) (x y : Handled)
    → Fine s path x
    → Fine s path y
    → Fine s path (if b then x else y)
if-Fine s path true x y h k = h
if-Fine s path false x y h k = k

aborted-Fine : (s : Service) (path : String) → Fine s path ([], aborted)
unfolding Fine
aborted-Fine s path = tt

answer-Fine : (s : Service) (path : String) (code : ℕ) (b : Body) → Fine s path (answer code b)
unfolding Fine
answer-Fine s path code b = tt

module _ (s : Service) (path : String) (at : path ≡ "/rootd/exec") where
  incident-Fine :
      (run_id command : String) (reason : Json) (r : HttpReply)
      → Fine s path (incident run_id command reason ∷ [], r)
  unfolding Fine Justified
  incident-Fine run_id command reason r = (at, tt)

  rootd_answer-Fine :
      (command : String) (o : Option (Dict Json)) → Fine s path (rootd_answer s command o)
  unfolding rootd_answer
  rootd_answer-Fine command none = aborted-Fine s path
  rootd_answer-Fine command (some d) =
      if-Fine s path _ _ _ (incident-Fine _ _ _ _) (answer-Fine s path _ _)

  forward-Fine :
      (command : String) (args : Json) (o : Option Request × Json)
      → Fine s path (forward s command args o)
  unfolding forward forwarded Fine Justified
  forward-Fine command args (none, r) = rootd_answer-Fine command (as_dict r)
  forward-Fine command args (some q, r) = (at, rootd_answer-Fine command (as_dict r))

  rootd_command-Fine : (v : Json) (o : Option String) → Fine s path (rootd_command s v o)
  unfolding rootd_command Fine
  rootd_command-Fine v none = tt
  rootd_command-Fine v (some c) = forward-Fine c _ (client_exec s.link c _ s.fresh)

  rootd_json-Fine : (o : Option Json) → Fine s path (rootd_json s o)
  unfolding rootd_json Fine
  rootd_json-Fine none = tt
  rootd_json-Fine (some v) = rootd_command-Fine v _

  rootd_exec-Fine : (r : Received) → Fine s path (rootd_exec s r)
  unfolding rootd_exec Fine
  rootd_exec-Fine bad_length = tt
  rootd_exec-Fine no_number = tt
  rootd_exec-Fine (body b) = rootd_json-Fine _

module _ (s : Service) (path : String) (sent : Text) (at : path ≡ "/secrets/upload") where
  stored_deed-Fine :
      (status : ℕ) (o : Option (Text × Text))
      → StoredAs s.vault sent status o
      → All (Justified s path) (stored_deed o)
  unfolding stored_deed StoredAs Justified
  stored_deed-Fine status none h = tt
  stored_deed-Fine status (some (file, content)) h =
      ((at, sent-IsAllowedUpload s.vault sent file content h.1), tt)

  upload_answer-Fine :
      (o : Option UploadEnd) → Stored s.vault sent o → Fine s path (upload_answer o)
  unfolding upload_answer Stored Fine
  upload_answer-Fine none h = tt
  upload_answer-Fine (some u) h = stored_deed-Fine u.status u.stored h

secrets_upload-Fine :
    (s : Service) (path : String)
    → path ≡ "/secrets/upload"
    → (r : Received) → Fine s path (secrets_upload s r)
unfolding secrets_upload Fine
secrets_upload-Fine s path at bad_length = tt
secrets_upload-Fine s path at no_number = tt
secrets_upload-Fine s path at (body b) =
    upload_answer-Fine s path b at _ (handle_secrets_upload-Stored s.vault b)

module _ (s : Service) (path : String) (at : path ≡ "/exec") (action : String)
    (listed : Dict.has s.allowlist action ≡ true) where
  run_now-Fine :
      (params : Option (Dict Json)) (console : Option Text)
      → (contains orb_backtest_actions action ≡ false)
        ⊎ (is_orb_backtest_allowed s.state_file ≡ open_gate)
      → Fine s path (run_now s action params console)
  unfolding run_now Fine Justified
  run_now-Fine params console h = ((at, listed, h), tt)

  by_gate-Fine :
      (params : Option (Dict Json)) (console : Option Text) (g : Gate)
      → contains orb_backtest_actions action ≡ true
      → is_orb_backtest_allowed s.state_file ≡ g
      → Fine s path (by_gate s action params console g)
  unfolding by_gate Fine Justified
  by_gate-Fine params console open_gate orb e = run_now-Fine params console (inr e)
  by_gate-Fine params console closed_gate orb e = ((at, orb, e), tt)
  by_gate-Fine params console broken_gate orb e = tt

  gated-Fine :
      (params : Option (Dict Json)) (console : Option Text)
      → Fine s path (gated s action params console)
  unfolding gated
  gated-Fine params console = elim (Bool-cases (contains orb_backtest_actions action)) [
    | inl e ↦ rw e (by_gate-Fine params console _ e refl)
    | inr e ↦ rw e (run_now-Fine params console (inl e))
  ]

  listed_action-Fine : (d : Dict Json) → Fine s path (listed_action s d action)
  unfolding listed_action
  listed_action-Fine d = if-Fine s path _ _ _ (answer-Fine s path _ _) (gated-Fine _ _)

module _ (s : Service) (path : String) (at : path ≡ "/exec") where
  action_command-Fine : (v : Json) (o : Option String) → Fine s path (action_command s v o)
  unfolding action_command
  action_command-Fine v none = answer-Fine s path _ _
  action_command-Fine v (some action) = elim (Bool-cases (Dict.has s.allowlist action)) [
    | inl e ↦ rw e (listed_action-Fine s path at action e _)
    | inr e ↦ rw e (answer-Fine s path _ _)
  ]

  action_json-Fine : (o : Option Json) → Fine s path (action_json s o)
  unfolding action_json Fine
  action_json-Fine none = tt
  action_json-Fine (some v) = action_command-Fine v _

  action_exec-Fine : (r : Received) → Fine s path (action_exec s r)
  unfolding action_exec Fine
  action_exec-Fine bad_length = tt
  action_exec-Fine no_number = tt
  action_exec-Fine (body b) = action_json-Fine _

-- the deed has its reason, and the request comes from the admin
abbrev pub IsAllowedDeed : Service → Call → Deed → Type 0
IsAllowedDeed s c d = IsAdmin s.sources c.token × Justified s c.path d

All-map {ℓ} :
    {A : Type 0} (P Q : A → Type ℓ) (xs : List A) → ((x : A) → P x → Q x) → All P xs → All Q xs
All-map P Q [] f h = tt
All-map P Q (x ∷ xs) f h = (f x h.0, All-map P Q xs f h.1)

with_admin-allowed :
    (s : Service) (c : Call) (a : Admission) (h : Handled)
    → require_admin s.sources c.token ≡ a
    → Fine s c.path h
    → All (IsAllowedDeed s c) (with_admin a h).0
unfolding with_admin Fine
with_admin-allowed s c admitted h e fine =
    All-map _ _ h.0 (λ d k. (require_admin_sound s.sources c.token e, k)) fine
with_admin-allowed s c not_configured h e fine = tt
with_admin-allowed s c (forbidden source) h e fine = tt

-- Every deed of a request is allowed: the request carries the admin token, and a stored secret is
-- one that the allowlist names, with a JSON object of bounded size; an action that ran is
-- allowlisted, and if it is a backtest its gate was open; rootd is asked only on its own path.
pub do_post-AllAllowed : (s : Service) (c : Call) → All (IsAllowedDeed s c) (do_post s c).0
unfolding do_post
do_post-AllAllowed s c = elim (Bool-cases (c.path == "/rootd/exec")) [
  | inl e ↦
      rw e (with_admin-allowed s c _ _ refl (rootd_exec-Fine s c.path ((eq_iff c.path _).0 e) _))
  | inr e ↦ elim (Bool-cases (c.path == "/secrets/upload")) [
    | inl e' ↦
        rw (e, e')
          (with_admin-allowed s c _ _ refl
            (secrets_upload-Fine s c.path ((eq_iff c.path _).0 e') _))
    | inr e' ↦ elim (Bool-cases (c.path == "/exec")) [
      | inl e'' ↦
          rw (e, e', e'')
            (with_admin-allowed s c _ _ refl
              (action_exec-Fine s c.path ((eq_iff c.path _).0 e'') _))
      | inr e'' ↦ rw (e, e', e'') tt
    ]
  ]
]
