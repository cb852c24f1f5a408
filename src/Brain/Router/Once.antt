-- ===== src/Brain/Router/Once.antt =====
-- The router does not send the same thing twice in a row, and what it does to the other keys.
use ai_ops_runner.Base.{
  if◌then◌else◌, Bool-cases, ◌==◌, string_eq, beq_refl, String, ◌≡◌, refl, ◌≢◌, inl, inr, Bool,
  true, false, Option, none, some, List, [], ◌∷◌, arith,
}
use ai_ops_runner.Base.Dict
use ai_ops_runner.Base.Dict.{Dict, get-put}
use ai_ops_runner.Brain.Notifier.{Notify, Webhook, send_discord_webhook_alert}
use ai_ops_runner.Brain.Router.{
  Sent, dedupe_key, known_hash, after_send, send_transition_notification,
}

-- the hash last delivered under a key
unfoldable pub recent : String → List (String × String) → Option String
recent key [] = none
recent key ((k, h) ∷ log) = if k == key then some h else recent key log

-- no delivery repeats the one before it under the same key
unfoldable pub NoRepeat : List (String × String) → Type 0
unfolding recent
NoRepeat [] = Unit
NoRepeat ((k, h) ∷ log) = (recent k log ≢ some h) × NoRepeat log

-- the router knows the last delivery under each key
pub record IsFaithful (s : Sent) : Type 0 where
  pub ordered : NoRepeat s.delivered
  pub known :
      (key hash : String) → recent key s.delivered ≡ some hash → Dict.get s.events key ≡ some hash

not_recent :
    (s : Sent) (key hash : String)
    → IsFaithful s
    → (known_hash s.events key == hash) ≡ false
    → recent key s.delivered ≢ some hash
unfolding known_hash
not_recent s key hash f fresh e = ground (arith, fresh, f.known key hash e, beq_refl hash)

delivery-IsFaithful :
    (s : Sent) (key hash : String)
    → IsFaithful s
    → (known_hash s.events key == hash) ≡ false
    → IsFaithful
        record { events = Dict.put s.events key hash; delivered = (key, hash) ∷ s.delivered }
unfolding NoRepeat recent
delivery-IsFaithful s key hash f fresh = record {
  ordered = (not_recent s key hash f fresh, f.ordered);
  known = λ k h e. ground (arith, get-put s.events key k hash, e, f.known k h);
}

after_send-IsFaithful :
    (key hash : String) (n : Notify) (s : Sent)
    → IsFaithful s
    → (known_hash s.events key == hash) ≡ false
    → IsFaithful (after_send true key hash n s).0
unfolding after_send
after_send-IsFaithful key hash n s f fresh = elim (Bool-cases n.ok) [
  | inl e ↦ rw e (delivery-IsFaithful s key hash f fresh)
  | inr e ↦ rw e f
]

pub send-IsFaithful :
    (h : Webhook) (project event hash : String) (s : Sent)
    → IsFaithful s
    → IsFaithful (send_transition_notification h true project event hash s).0
unfolding send_transition_notification
send-IsFaithful h project event hash s f =
    let key = dedupe_key project event in
    elim (Bool-cases (known_hash s.events key == hash)) [
      | inl e ↦ rw e f
      | inr e ↦ rw e (after_send-IsFaithful key hash (send_discord_webhook_alert h) s f e)
    ]

-- a state that is known under its key is not sent again
pub send-known :
    (h : Webhook) (writable : Bool) (project event hash : String) (s : Sent)
    → Dict.get s.events (dedupe_key project event) ≡ some hash
    → (send_transition_notification h writable project event hash s).0 ≡ s
unfolding send_transition_notification known_hash
send-known h writable project event hash s e = rw (e, beq_refl hash) refl

-- the deliveries under a key
unfoldable pub under : String → List (String × String) → List String
under key [] = []
under key ((k, h) ∷ log) = let rest = under key log in if k == key then h ∷ rest else rest

-- nothing changes under the key
pub record IsApart (key : String) (s t : Sent) : Type 0 where
  pub same_hash : Dict.get t.events key ≡ Dict.get s.events key
  pub same_log : under key t.delivered ≡ under key s.delivered

after_send-IsApart :
    (writable : Bool) (key other hash : String) (n : Notify) (s : Sent)
    → (other == key) ≡ false
    → IsApart key s (after_send writable other hash n s).0
unfolding after_send under
after_send-IsApart writable key other hash n s ne = elim (Bool-cases n.ok) [
  | inl e ↦ elim (Bool-cases writable) [
    | inl e' ↦ rw (e, e') record { same_hash = rw (get-put, ne) refl; same_log = rw ne refl }
    | inr e' ↦ rw (e, e') record { same_hash = refl; same_log = rw ne refl }
  ]
  | inr e ↦ rw e record { same_hash = refl; same_log = refl }
]

pub send-IsApart :
    (h : Webhook) (writable : Bool) (project event hash key : String) (s : Sent)
    → (dedupe_key project event == key) ≡ false
    → IsApart key s (send_transition_notification h writable project event hash s).0
unfolding send_transition_notification
send-IsApart h writable project event hash key s ne =
    elim (Bool-cases (known_hash s.events (dedupe_key project event) == hash)) [
      | inl e ↦ rw e record { same_hash = refl; same_log = refl }
      | inr e ↦ rw e (
          after_send-IsApart writable key (dedupe_key project event) hash
            (send_discord_webhook_alert h) s ne)
    ]
