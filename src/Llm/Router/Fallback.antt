-- ===== src/Llm/Router/Fallback.antt =====
-- How the fallback reviewer is used, and what a successful review says of its origin.
use ai_ops_runner.Base.{
  Bool-cases, String, ◌≡◌, refl, ap, ◌∙◌, inl, inr, false, Option, none, some, List, arith,
}
use ai_ops_runner.Base.Text.{Text}
use ai_ops_runner.Llm.Types.{LlmRequest, LlmResponse, Transient}
use ai_ops_runner.Llm.Transient.{classify_transient, is_non_transient}
use ai_ops_runner.Llm.Router.{
  Call, Answer, answer, raises, Provider, Router, Session, Result, ok, err, resolve,
  resolve_review_fallback, within_budget, capped, fallback_answer, try_fallback, after_primary,
  review_with, generate_review,
}

-- How the response of a review came about: the pinned provider answered, or it failed with a
-- transient error and the fallback answered.
pub data CameFrom (r : Router) (q : LlmRequest) (s : Session) (a : LlmResponse) : Type 0 where
  first :
      (p : Provider) (model : String)
      → resolve r "review" ≡ ok (p, model)
      → p.generate_text s.calls (capped r model q.action q) ≡ answer a
      → CameFrom r q s a
  second :
      (p f : Provider) (model fb_model : String) (e : Text) (b : LlmResponse) (before : List Call)
      → resolve r "review" ≡ ok (p, model)
      → p.generate_text s.calls (capped r model q.action q) ≡ raises e
      → is_non_transient (classify_transient e) ≡ false
      → resolve_review_fallback r ≡ some (f, fb_model)
      → f.generate_text before (capped r fb_model "review_fallback" q) ≡ answer b
      → a ≡ record b { primary_transient_class = some (classify_transient e) }
      → CameFrom r q s a

ok_inj : (a b : LlmResponse) → ok a ≡ ok b → a ≡ b
ok_inj a b h = cc

fallback_answer-ok :
    (r : Router) (e : Text) (cls : Transient) (o : Answer) (s : Session) (a : LlmResponse)
    → (fallback_answer r e cls o s).1 ≡ ok a
    → (b : LlmResponse) × (o ≡ answer b) × (a ≡ record b { primary_transient_class = some cls })
unfolding fallback_answer
fallback_answer-ok r e cls (answer b) s a h = (b, refl, ground arith)
fallback_answer-ok r e cls (raises e') s a h = cc

try_fallback-ok :
    (r : Router) (q : LlmRequest) (e : Text) (cls : Transient) (o : Option (Provider × String))
    (s : Session) (a : LlmResponse)
    → (try_fallback r q e cls o s).1 ≡ ok a
    → (f : Provider) × (model : String) × (b : LlmResponse) × (o ≡ some (f, model))
      × (f.generate_text s.calls (capped r model "review_fallback" q) ≡ answer b)
      × (a ≡ record b { primary_transient_class = some cls })
unfolding try_fallback
try_fallback-ok r q e cls none s a h = cc
try_fallback-ok r q e cls (some (f, model)) s a h = elim (Bool-cases (within_budget r model q f)) [
  | inr no' ↦ absurd (ground (arith, no'))
  | inl fits ↦
      let (b, said, tag) = fallback_answer-ok r e cls _ _ a (rw fits at h) in
      (f, model, b, refl, said, tag)
]

after_first :
    (r : Router) (q : LlmRequest) (p : Provider) (model : String) (o : Answer) (s t : Session)
    (a : LlmResponse)
    → resolve r "review" ≡ ok (p, model)
    → p.generate_text s.calls (capped r model q.action q) ≡ o
    → (after_primary r q o t).1 ≡ ok a
    → CameFrom r q s a
unfolding after_primary
after_first r q p model (answer b) s t a res said h =
    first p model res (said ∙ ap answer (ok_inj b a h))
after_first r q p model (raises e) s t a res said h =
    elim (Bool-cases (is_non_transient (classify_transient e))) [
      | inl final ↦ absurd (ground (arith, final))
      | inr retry ↦
          let (f, fb_model, b, found, said', tag) =
            try_fallback-ok r q e (classify_transient e) (resolve_review_fallback r) t a
              (rw retry at h) in
          second p f model fb_model e b t.calls res said retry found said' tag
    ]

review_with-CameFrom :
    (r : Router) (q : LlmRequest) (o : Result (Provider × String)) (s : Session) (a : LlmResponse)
    → resolve r "review" ≡ o
    → (review_with r q o s).1 ≡ ok a
    → CameFrom r q s a
unfolding review_with
review_with-CameFrom r q (err e) s a res h = cc
review_with-CameFrom r q (ok (p, model)) s a res h = elim (Bool-cases (within_budget r model q p)) [
  | inr no' ↦ absurd (ground (arith, no'))
  | inl fits ↦
      after_first r q p model (p.generate_text s.calls (capped r model q.action q)) s _ a res refl
        (rw fits at h)
]

-- A review that succeeds was answered by the pinned provider, or by the fallback after the pinned
-- provider failed with a transient error; then the response is marked with the error's class.
pub generate_review-CameFrom :
    (r : Router) (q : LlmRequest) (s : Session) (a : LlmResponse)
    → (generate_review r q s).1 ≡ ok a
    → CameFrom r q s a
unfolding generate_review
generate_review-CameFrom r q s a h = review_with-CameFrom r q (resolve r "review") s a refl h
