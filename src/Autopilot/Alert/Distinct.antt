-- ===== src/Autopilot/Alert/Distinct.antt =====
-- No alert is answered as sent twice.
use ai_ops_runner.Base.{
  Bool-cases, length, length-append, string_eq, contains, beq_refl, ◌+◌, ◌-◌, ◌≤◌, ◌<◌, String, ◌≡◌,
  refl, sym, subst, ◌≢◌, ◌⊎◌, inl, inr, true, false, ◌||◌, Option, none, some, List, [], ◌∷◌, ◌++◌,
  arith,
}
use ai_ops_runner.Brain.Router.{Sent, Routed, sent_ok}
use ai_ops_runner.Autopilot.Alert.{
  Notice, Outlet, AlertStatus, skipped, deduped, sent, error, Alert, Memory, event_of, remember,
  status_of, after_notify, notify, send_event, on_event, send_terminal_alert, alerts,
}

-- the keys of the alerts that were sent
by_status : AlertStatus → String → List String → List String
by_status sent key keys = key ∷ keys
by_status skipped key keys = keys
by_status deduped key keys = keys
by_status error key keys = keys

unfoldable pub sent_keys : List Alert → List String
unfolding by_status
sent_keys [] = []
sent_keys (a ∷ rest) = by_status a.alert_status a.key (sent_keys rest)

unfoldable pub Distinct : List String → Type 0
Distinct [] = Unit
Distinct (key ∷ keys) = (contains keys key ≡ false) × Distinct keys

-- either nothing was sent, or what was sent had not been seen and now is
Effect : List String → Memory × Alert → Type 0
Effect seen (m, a) =
    ((m.seen ≡ seen) × (a.alert_status ≢ sent))
    ⊎ ((m.seen ≡ remember a.key seen) × (contains seen a.key ≡ false))

status_of_unsent : (r : Routed) → (sent_ok r.notify || r.deduped) ≡ false → status_of r ≢ sent
unfolding status_of
status_of_unsent r e = ground (arith, e)

after_notify-Effect :
    (key : String) (seen : List String) (x : Sent × Option Routed)
    → contains seen key ≡ false
    → Effect seen (after_notify key seen x)
unfolding after_notify Effect
after_notify-Effect key seen (router, none) h = inl (refl, λ e. cc)
after_notify-Effect key seen (router, some r) h =
    elim (Bool-cases (sent_ok r.notify || r.deduped)) [
      | inl e ↦ inr (rw e refl, h)
      | inr e ↦ inl (rw e refl, status_of_unsent r e)
    ]

send_event-Effect :
    (o : Outlet) (n : Notice) (event key : String) (m : Memory)
    → Effect m.seen (send_event o n event key m)
unfolding send_event Effect
send_event-Effect o n event key m = elim (Bool-cases (contains m.seen key)) [
  | inl e ↦ rw e (inl (refl, λ x. cc))
  | inr e ↦ rw e (after_notify-Effect key m.seen (notify o n event m.router) e)
]

on_event-Effect :
    (o : Outlet) (n : Notice) (event : Option String) (m : Memory)
    → Effect m.seen (on_event o n event m)
unfolding on_event Effect
on_event-Effect o n none m = inl (refl, λ e. cc)
on_event-Effect o n (some event) m = send_event-Effect o n event _ m

remember_all :
    (key : String) (seen : List String) → length seen < 200 → remember key seen ≡ seen ++ key ∷ []
unfolding remember
remember_all key seen h =
    let room : length (seen ++ key ∷ []) - 200 ≡ 0 =
      omega (arith, length-append seen (key ∷ []), h) in
    rw room refl

contains_kept :
    (key : String) (xs ys : List String) → contains xs key ≡ true → contains (xs ++ ys) key ≡ true
contains_kept key [] ys h = cc
contains_kept key (x ∷ xs) ys h = ground (arith, h, contains_kept key xs ys)

contains_added : (key : String) (xs : List String) → contains (xs ++ key ∷ []) key ≡ true
contains_added key [] = ground (arith, beq_refl key)
contains_added key (x ∷ xs) = ground (arith, contains_added key xs)

-- distinct, and apart from what had been seen
record IsFresh (seen keys : List String) : Type 0 where
  distinct : Distinct keys
  unseen : (key : String) → contains seen key ≡ true → contains keys key ≡ false

sent-IsFresh :
    (key : String) (seen keys : List String)
    → contains seen key ≡ false
    → IsFresh (seen ++ key ∷ []) keys
    → IsFresh seen (key ∷ keys)
unfolding Distinct
sent-IsFresh key seen keys new fresh = record {
  distinct = (fresh.unseen key (contains_added key seen), fresh.distinct);
  unseen = λ k h.
      ground (
        arith,
        new,
        h,
        string_eq.same_iff k key,
        fresh.unseen k (contains_kept k seen (key ∷ []) h),
      );
}

unsent-IsFresh :
    (key : String) (seen keys : List String) → IsFresh (seen ++ key ∷ []) keys → IsFresh seen keys
unsent-IsFresh key seen keys fresh = record {
  distinct = fresh.distinct;
  unseen = λ k h. fresh.unseen k (contains_kept k seen (key ∷ []) h);
}

by_status-IsFresh :
    (st : AlertStatus) (key : String) (seen keys : List String)
    → contains seen key ≡ false
    → IsFresh (seen ++ key ∷ []) keys
    → IsFresh seen (by_status st key keys)
unfolding by_status
by_status-IsFresh sent key seen keys new fresh = sent-IsFresh key seen keys new fresh
by_status-IsFresh skipped key seen keys new fresh = unsent-IsFresh key seen keys fresh
by_status-IsFresh deduped key seen keys new fresh = unsent-IsFresh key seen keys fresh
by_status-IsFresh error key seen keys new fresh = unsent-IsFresh key seen keys fresh

by_status_unsent :
    (st : AlertStatus) (key : String) (keys : List String)
    → st ≢ sent
    → by_status st key keys ≡ keys
unfolding by_status
by_status_unsent sent key keys h = absurd (h refl)
by_status_unsent skipped key keys h = refl
by_status_unsent deduped key keys h = refl
by_status_unsent error key keys h = refl

-- what the later alerts do after one, and there is room for all
alert-IsFresh :
    (seen : List String) (m : Memory) (a : Alert) (keys : List String)
    → length seen < 200
    → Effect seen (m, a)
    → IsFresh m.seen keys
    → IsFresh seen (by_status a.alert_status a.key keys)
unfolding Effect
alert-IsFresh seen m a keys room (inl (same, unsent)) fresh =
    subst (IsFresh seen) (sym (by_status_unsent a.alert_status a.key keys unsent))
      (subst (λ xs. IsFresh xs keys) same fresh)
alert-IsFresh seen m a keys room (inr (grown, new)) fresh =
    by_status-IsFresh a.alert_status a.key seen keys new (
      subst (λ xs. IsFresh xs keys) (remember_all a.key seen room)
        (subst (λ xs. IsFresh xs keys) grown fresh))

Effect-length :
    (seen : List String) (m : Memory) (a : Alert)
    → length seen < 200
    → Effect seen (m, a)
    → length m.seen ≤ length seen + 1
unfolding Effect
Effect-length seen m a room (inl (same, unsent)) = rw same (omega arith)
Effect-length seen m a room (inr (grown, new)) =
    rw (grown, remember_all a.key seen room) (omega (arith, length-append seen (a.key ∷ [])))

send_terminal_alert-Effect :
    (o : Outlet) (n : Notice) (m : Memory) → Effect m.seen (send_terminal_alert o n m)
unfolding send_terminal_alert
send_terminal_alert-Effect o n m = on_event-Effect o n (event_of n.terminal) m

alerts-IsFresh :
    (calls : List (Outlet × Notice)) (m : Memory)
    → length m.seen + length calls ≤ 200
    → IsFresh m.seen (sent_keys (alerts calls m))
unfolding alerts sent_keys Distinct
alerts-IsFresh [] m room = record { distinct = tt; unseen = λ k h. refl }
alerts-IsFresh ((o, n) ∷ calls) m room =
    let (after, alert) = send_terminal_alert o n m in
    let effect = send_terminal_alert-Effect o n m in
    alert-IsFresh m.seen after alert (sent_keys (alerts calls after)) (omega (arith, room)) effect (
      alerts-IsFresh calls after
        (omega (arith, room, Effect-length m.seen after alert (omega (arith, room)) effect)))

-- As long as the autopilot's state has room for all the alerts, no two that are answered as sent have
-- the same event and hash.
pub alerts-Distinct :
    (calls : List (Outlet × Notice)) (m : Memory)
    → length m.seen + length calls ≤ 200
    → Distinct (sent_keys (alerts calls m))
alerts-Distinct calls m room = (alerts-IsFresh calls m room).distinct
