-- ===== src/Brain/Loop/Alerts.antt =====
-- What the runs of the loop do to what has been sent.
use ai_ops_runner.Base.{
  if◌then◌else◌, All, ◌==◌, string_eq, String, ◌≡◌, refl, sym, ap, ◌∙◌, subst, Bool, true, false,
  Option, none, some, List, [], ◌∷◌,
}
use ai_ops_runner.Base.Dict
use ai_ops_runner.Base.Dict.{Dict, get-put}
use ai_ops_runner.Brain.Checks.{
  normalize_failed_checks, pass, Event, first_fail, pass_to_fail, fail_to_pass, fail_checks_changed,
  Seen,
}
use ai_ops_runner.Brain.Checks.Recovery.{fail_to_pass_status}
use ai_ops_runner.Brain.Router.{Hasher, Sent, dedupe_key, send_transition_notification}
use ai_ops_runner.Brain.Router.Once.{
  IsFaithful, NoRepeat, send-IsFaithful, send-known, under, send-IsApart,
}
use ai_ops_runner.Brain.Matrix.{Matrix, run_matrix}
use ai_ops_runner.Brain.Loop.{
  matrix_hash, Turn, World, Warning, Alerting, project, router_event, routed, alert_for, on_event,
  excepted, after_alert, after_matrix, execute, run_all, previous_seen,
}

-- the verdict as the loop compares it
unfoldable pub verdict : Matrix → Seen
verdict m = record {
  status = m.seen.status;
  failed_checks = normalize_failed_checks m.seen.failed_checks;
}

-- What every send of a run preserves, the run preserves. A recovery is sent only for a status PASS.
module _ (t : Turn) (P : Sent → Type 0) (G : Seen → Type 0)
    (step : (now : Seen) (e : Event) (s : Sent)
      → (e ≡ fail_to_pass → now.status ≡ pass)
      → G now
      → P s
      → P
          (send_transition_notification t.webhook t.writes_router project
            (router_event e)
            (matrix_hash t.hasher now)
            s).0) where
  if-keeps : (b : Bool) (x y : Sent × Option Alerting) → P x.0 → P y.0 → P (if b then x else y).0
  if-keeps true x y h k = h
  if-keeps false x y h k = k

  alert_for-keeps :
      (prior : String) (now : Seen) (e : Event) (s : Sent)
      → (e ≡ fail_to_pass → now.status ≡ pass)
      → G now
      → P s
      → P (alert_for t prior now e s).0
  unfolding alert_for routed
  alert_for-keeps prior now e s up g h = if-keeps _ _ _ h (step now e s up g h)

  on_event-keeps :
      (prior : String) (now : Seen) (o : Option Event) (s : Sent)
      → (o ≡ some fail_to_pass → now.status ≡ pass)
      → G now
      → P s
      → P (on_event t prior now o s).0
  unfolding on_event
  on_event-keeps prior now none s up g h = h
  on_event-keeps prior now (some e) s up g h =
      alert_for-keeps prior now e s (λ same. up (ap (λ x. some x) same)) g h

  after_alert-keeps :
      (now : Seen) (o : Option Event) (ws : List Warning) (w : World) (x : Sent × Option Alerting)
      → P x.0
      → P (after_alert t now o ws w x).0.sent
  unfolding after_alert excepted
  after_alert-keeps now o ws w (s, none) h = h
  after_alert-keeps now o ws w (s, some a) h = h

  after_matrix-keeps :
      (ws : List Warning) (w : World) (o : Option (Matrix × Bool))
      → ((m : Matrix) (failed : Bool) → o ≡ some (m, failed) → G (verdict m))
      → P w.sent
      → P (after_matrix t ws w o).0.sent
  unfolding after_matrix excepted verdict
  after_matrix-keeps ws w none g h = h
  after_matrix-keeps ws w (some (m, failed)) g h = after_alert-keeps _ _ _ w _ (
      on_event-keeps _ _ _ w.sent
        (fail_to_pass_status (previous_seen w.state_file) _ t.alert_on_first_fail) (g m failed refl)
        h)

  execute-keeps :
      (w : World)
      → ((m : Matrix) (failed : Bool)
          → run_matrix t.doctor t.mock ≡ some (m, failed)
          → G (verdict m))
      → P w.sent
      → P (execute t w).0.sent
  unfolding execute
  execute-keeps w g h = after_matrix-keeps _ w _ g h

run_all-keeps :
    (P : Sent → Type 0) (ts : List Turn) (w : World)
    → All (λ t. (v : World) → P v.sent → P (execute t v).0.sent) ts
    → P w.sent
    → P (run_all ts w).sent
unfolding run_all
run_all-keeps P [] w hs h = h
run_all-keeps P (t ∷ ts) w hs h = run_all-keeps P ts _ hs.1 (hs.0 w h)

All-map :
    {A : Type 0} (P Q : A → Type 0) (xs : List A) → ((x : A) → P x → Q x) → All P xs → All Q xs
All-map P Q [] f h = tt
All-map P Q (x ∷ xs) f h = (f x h.0, All-map P Q xs f h.1)

known-IsFaithful :
    (t : Turn) (w : World)
    → t.writes_router ≡ true
    → IsFaithful w.sent
    → IsFaithful (execute t w).0.sent
known-IsFaithful t w e f =
    execute-keeps t IsFaithful (λ now. Unit {0}) send w (λ m failed same. tt) f
  where
    send :
        (now : Seen) (x : Event) (s : Sent)
        → (x ≡ fail_to_pass → now.status ≡ pass)
        → Unit {0}
        → IsFaithful s
        → IsFaithful
            (send_transition_notification t.webhook t.writes_router project
              (router_event x)
              (matrix_hash t.hasher now)
              s).0
    send now x s up g k =
        subst
          (λ b.
            IsFaithful
              (send_transition_notification t.webhook b project (router_event x)
                (matrix_hash t.hasher now) s).0)
          (sym e)
          (send-IsFaithful t.webhook project (router_event x) (matrix_hash t.hasher now) s k)

-- While the router's state can be written, no run of the loop, one after the other, delivers under a
-- key what was delivered last under it; this holds from any state that knows its last deliveries.
pub run_all-NoRepeat :
    (ts : List Turn) (w : World)
    → All (λ t. t.writes_router ≡ true) ts
    → IsFaithful w.sent
    → NoRepeat (run_all ts w).sent.delivered
run_all-NoRepeat ts w writes f =
    (run_all-keeps IsFaithful ts w (All-map _ _ ts (λ t e v g. known-IsFaithful t v e g) writes)
      f).ordered

-- the key of the recoveries
abbrev pub recovered : String
recovered = dedupe_key project "CORE_RECOVERED"

-- the hash is known for recoveries, and these deliveries have been made
abbrev pub Remembers : String → List String → Sent → Type 0
Remembers hash log s =
    (Dict.get s.events recovered ≡ some hash) × (under recovered s.delivered ≡ log)

other_key :
    (t : Turn) (now : Seen) (e : Event) (hash : String) (log : List String) (s : Sent)
    → (dedupe_key project (router_event e) == recovered) ≡ false
    → Remembers hash log s
    → Remembers hash log
        (send_transition_notification t.webhook t.writes_router project
          (router_event e)
          (matrix_hash t.hasher now)
          s).0
other_key t now e hash log s ne h =
    let a =
      send-IsApart t.webhook t.writes_router project (router_event e) (matrix_hash t.hasher now)
        recovered s ne in
    (a.same_hash ∙ h.0, a.same_log ∙ h.1)

same_key :
    (t : Turn) (now : Seen) (hash : String) (log : List String) (s : Sent)
    → matrix_hash t.hasher now ≡ hash
    → Remembers hash log s
    → Remembers hash log
        (send_transition_notification t.webhook t.writes_router project "CORE_RECOVERED"
          (matrix_hash t.hasher now)
          s).0
same_key t now hash log s e h =
    subst (Remembers hash log)
      (sym (
        send-known t.webhook t.writes_router project "CORE_RECOVERED" (matrix_hash t.hasher now) s
          (h.0 ∙ ap (λ x. some x) (sym e))))
      h

-- a verdict of PASS has no failed checks
abbrev IsClean : Seen → Type 0
IsClean now = now.status ≡ pass → now.failed_checks ≡ []

-- the hash of a passing verdict
abbrev pub passing_hash : Hasher → String
passing_hash h = matrix_hash h record { status = pass; failed_checks = [] }

clean_hash :
    (h : Hasher) (now : Seen)
    → now.status ≡ pass
    → now.failed_checks ≡ []
    → matrix_hash h now ≡ passing_hash h
unfolding matrix_hash
clean_hash h now up clean =
    ap (λ s. matrix_hash h record { status = s; failed_checks = now.failed_checks }) up
    ∙ ap (λ c. matrix_hash h record { status = pass; failed_checks = c }) clean

send-Remembers :
    (t : Turn) (log : List String) (now : Seen) (e : Event) (s : Sent)
    → (e ≡ fail_to_pass → now.status ≡ pass)
    → IsClean now
    → Remembers (passing_hash t.hasher) log s
    → Remembers
        (passing_hash t.hasher)
        log
        (send_transition_notification t.webhook t.writes_router project
          (router_event e)
          (matrix_hash t.hasher now)
          s).0
unfolding router_event dedupe_key
send-Remembers t log now fail_to_pass s up clean h =
    same_key t now (passing_hash t.hasher) log s
      (clean_hash t.hasher now (up refl) (clean (up refl))) h
send-Remembers t log now first_fail s up clean h =
    other_key t now first_fail (passing_hash t.hasher) log s refl h
send-Remembers t log now pass_to_fail s up clean h =
    other_key t now pass_to_fail (passing_hash t.hasher) log s refl h
send-Remembers t log now fail_checks_changed s up clean h =
    other_key t now fail_checks_changed (passing_hash t.hasher) log s refl h

-- a turn whose doctors name no failed check when they pass, and which hashes as the others do
pub record PassesClean (hasher : Hasher) (t : Turn) : Type 0 where
  pub hashes : t.hasher ≡ hasher
  pub clean :
      (m : Matrix) (failed : Bool)
      → run_matrix t.doctor t.mock ≡ some (m, failed)
      → m.seen.status ≡ pass
      → m.seen.failed_checks ≡ []

verdict-IsClean :
    (hasher : Hasher) (t : Turn) (m : Matrix) (failed : Bool)
    → PassesClean hasher t
    → run_matrix t.doctor t.mock ≡ some (m, failed)
    → IsClean (verdict m)
unfolding verdict normalize_failed_checks
verdict-IsClean hasher t m failed h e up = ap normalize_failed_checks (h.clean m failed e up)

execute-Remembers :
    (hasher : Hasher) (log : List String) (t : Turn) (w : World)
    → PassesClean hasher t
    → Remembers (passing_hash hasher) log w.sent
    → Remembers (passing_hash hasher) log (execute t w).0.sent
execute-Remembers hasher log t w h k =
    let back = λ (x : Sent) (r : Remembers (passing_hash t.hasher) log x).
      subst (λ y. Remembers (passing_hash y) log x) h.hashes r in
    back (execute t w).0.sent (
      execute-keeps t (Remembers (passing_hash t.hasher) log) IsClean (send-Remembers t log) w
        (λ m failed e. verdict-IsClean hasher t m failed h e)
        (subst (λ y. Remembers (passing_hash y) log w.sent) (sym h.hashes) k))

-- Once the hash of a passing verdict without failed checks is known as sent, and as long as the
-- doctors name no failed check when they pass, no later run delivers a recovery, however often the
-- status falls to FAIL in between.
pub run_all-recovered :
    (hasher : Hasher) (ts : List Turn) (w : World)
    → Dict.get w.sent.events recovered ≡ some (passing_hash hasher)
    → All (PassesClean hasher) ts
    → under recovered (run_all ts w).sent.delivered ≡ under recovered w.sent.delivered
run_all-recovered hasher ts w known clean =
    let log = under recovered w.sent.delivered in
    (run_all-keeps (Remembers (passing_hash hasher) log) ts w
      (All-map _ _ ts (λ t h v k. execute-Remembers hasher log t v h k) clean) (known, refl)).1
