-- ===== src/Llm/Router/Pinned.antt =====
-- Which calls a review request makes.
use ai_ops_runner.Base.{
  Bool-cases, Option-cases, length, All, ℕ, suc, ◌≤◌, String, ◌≡◌, refl, sym, ap, ◌∙◌, inl, inr,
  true, Option, none, some, List, [], ◌∷◌, ◌++◌, append-nil, append_assoc, arith,
}
use ai_ops_runner.Base.Dict
use ai_ops_runner.Base.Text.{Text}
use ai_ops_runner.Llm.Types.{LlmRequest, Transient}
use ai_ops_runner.Llm.Transient.{classify_transient, is_non_transient}
use ai_ops_runner.Llm.Router.{
  Call, Answer, answer, raises, Provider, Router, Session, Result, ok, err, resolve_review, resolve,
  resolve_review_fallback, called, booked, within_budget, capped, fallback_answer, try_fallback,
  after_primary, review_with, generate_review,
}

-- A review goes to OpenAI with the pinned model, or to the configured fallback.
pub data IsReviewer (r : Router) (p : Provider) (model : String) : Type 0 where
  primary :
      Dict.get r.providers "openai" ≡ some p → model ≡ r.codex_review_model → IsReviewer r p model
  fallback : resolve_review_fallback r ≡ some (p, model) → IsReviewer r p model

-- A call that the review gate may make for a request: to a configured reviewer, within the budget,
-- with the messages of the request and the caps of the configuration.
pub record IsReviewCall (r : Router) (q : LlmRequest) (c : Call) : Type 0 where
  pub to : Provider
  pub reviewer : IsReviewer r to c.request.model
  pub configured : to.is_configured ≡ true
  pub named : c.provider ≡ to.provider_name
  pub affordable : within_budget r c.request.model q to ≡ true
  pub messages : c.request.messages ≡ q.messages
  pub tokens : c.request.max_tokens ≡ some r.config.review_caps.max_output_tokens
  pub temperature : c.request.temperature ≡ r.config.review_caps.temperature
  pub purpose : c.request.purpose ≡ "review"

-- the session grew by at most `n` calls, review calls all
pub record Grows (r : Router) (q : LlmRequest) (n : ℕ) (s t : Session) : Type 0 where
  pub made : List Call
  pub grown : t.calls ≡ s.calls ++ made
  pub few : length made ≤ n
  pub review : All (IsReviewCall r q) made

unchanged :
    (r : Router) (q : LlmRequest) (n : ℕ) (s t : Session) → t.calls ≡ s.calls → Grows r q n s t
unchanged r q n s t e = record {
  made = [];
  grown = e ∙ sym (append-nil s.calls);
  few = omega arith;
  review = tt;
}

one_more :
    (r : Router) (q : LlmRequest) (n : ℕ) (s t : Session) (c : Call)
    → IsReviewCall r q c
    → Grows r q n (record s { calls = s.calls ++ c ∷ [] }) t
    → Grows r q (suc n) s t
one_more r q n s t c h g = record {
  made = c ∷ g.made;
  grown = g.grown ∙ append_assoc s.calls (c ∷ []) g.made;
  few = omega (arith, g.few);
  review = (h, g.review);
}

capped_call :
    (r : Router) (q : LlmRequest) (p : Provider) (model action : String)
    → IsReviewer r p model
    → p.is_configured ≡ true
    → within_budget r model q p ≡ true
    → IsReviewCall r q (record { provider = p.provider_name; request = capped r model action q })
unfolding capped
capped_call r q p model action h c b = record {
  to = p;
  reviewer = h;
  configured = c;
  named = refl;
  affordable = b;
  messages = refl;
  tokens = refl;
  temperature = refl;
  purpose = refl;
}

resolve_review-ok :
    (r : Router) (p : Provider) (model : String)
    → resolve r "review" ≡ ok (p, model)
    → IsReviewer r p model × (p.is_configured ≡ true)
unfolding resolve resolve_review
resolve_review-ok r p model h = elim (Option-cases (Dict.get r.providers "openai")) [
  | inl e ↦ absurd (ground (arith, e))
  | inr (o, e) ↦
      let same : o ≡ p = ground (arith, e) in
      (primary (e ∙ ap some same) (ground (arith, e)), ground (arith, e))
]

fallback-configured :
    (r : Router) (p : Provider) (model : String)
    → resolve_review_fallback r ≡ some (p, model)
    → p.is_configured ≡ true
unfolding resolve_review_fallback
fallback-configured r p model h = ground arith

fallback_answer-Grows :
    (r : Router) (q : LlmRequest) (e : Text) (cls : Transient) (a : Answer) (s : Session)
    → Grows r q 0 s (fallback_answer r e cls a s).0
unfolding fallback_answer booked
fallback_answer-Grows r q e cls (answer response) s = unchanged r q 0 s _ refl
fallback_answer-Grows r q e cls (raises e') s = unchanged r q 0 s _ refl

try_fallback-Grows :
    (r : Router) (q : LlmRequest) (e : Text) (cls : Transient) (o : Option (Provider × String))
    (s : Session)
    → resolve_review_fallback r ≡ o
    → Grows r q 1 s (try_fallback r q e cls o s).0
unfolding try_fallback called
try_fallback-Grows r q e cls none s h = unchanged r q 1 s _ refl
try_fallback-Grows r q e cls (some (p, model)) s h = elim (Bool-cases (within_budget r model q p)) [
  | inr no' ↦ rw no' (unchanged r q 1 s _ refl)
  | inl fits ↦
      let c =
        capped_call r q p model "review_fallback" (fallback h) (fallback-configured r p model h)
          fits in
      rw fits (one_more r q 0 s _ _ c (fallback_answer-Grows r q e cls _ _))
]

after_primary-Grows :
    (r : Router) (q : LlmRequest) (a : Answer) (s : Session)
    → Grows r q 1 s (after_primary r q a s).0
unfolding after_primary booked
after_primary-Grows r q (answer response) s = unchanged r q 1 s _ refl
after_primary-Grows r q (raises e) s = elim (Bool-cases (is_non_transient (classify_transient e))) [
  | inl final ↦ rw final (unchanged r q 1 s _ refl)
  | inr retry ↦ rw retry (try_fallback-Grows r q e (classify_transient e) _ s refl)
]

review_with-Grows :
    (r : Router) (q : LlmRequest) (o : Result (Provider × String)) (s : Session)
    → resolve r "review" ≡ o
    → Grows r q 2 s (review_with r q o s).0
unfolding review_with called
review_with-Grows r q (err e) s h = unchanged r q 2 s _ refl
review_with-Grows r q (ok (p, model)) s h = elim (Bool-cases (within_budget r model q p)) [
  | inr no' ↦ rw no' (unchanged r q 2 s _ refl)
  | inl fits ↦
      let (who, ready) = resolve_review-ok r p model h in
      let c = capped_call r q p model q.action who ready fits in
      rw fits (one_more r q 1 s _ _ c (after_primary-Grows r q _ _))
]

-- A review makes at most two calls. Each goes to the pinned OpenAI model or to the configured
-- fallback, to a provider that is configured, within the budget, and under the caps.
pub generate_review-Grows :
    (r : Router) (q : LlmRequest) (s : Session) → Grows r q 2 s (generate_review r q s).0
unfolding generate_review
generate_review-Grows r q s = review_with-Grows r q (resolve r "review") s refl
