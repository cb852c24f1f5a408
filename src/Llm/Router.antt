-- ===== src/Llm/Router.antt =====
-- `ModelRouter` of src/llm/router.py. A call of a provider is recorded in the session, with the
-- usage log and the guard's artifacts; an error is a value.
pub mod Pinned
pub mod Guarded
pub mod Fallback
pub mod Routes
use ai_ops_runner.Base.{
  if◌then◌else◌, get_or, ◌==◌, string_eq, contains, ℕ, String, Bool, false, not, ◌&&◌, Option, none,
  some, List, [], ◌∷◌, ◌++◌,
}
use ai_ops_runner.Base.Dict
use ai_ops_runner.Base.Dict.{Dict}
use ai_ops_runner.Base.Text.{Text}
use ai_ops_runner.Llm.Types.{
  PurposeRoute, ReviewFallbackConfig, LlmConfig, LlmRequest, LlmResponse, Transient,
}
use ai_ops_runner.Llm.Transient.{classify_transient, is_non_transient}
use ai_ops_runner.Llm.Budget.{BudgetConfig, estimate_cost, check_budget, actual_cost}
use ai_ops_runner.Llm.Guard.{Ledger, log_usage, Limits, GuardArtifact, check_guard}

-- one call of `generate_text`
pub record Call : Type 0 where
  pub provider : String
  pub request : LlmRequest

-- a provider's answer, or the RuntimeError that it raises
pub data Answer : Type 0 where
  answer : LlmResponse → Answer
  raises : Text → Answer

-- A provider, seen from the router. Its answer may depend on the calls that were made before.
pub record Provider : Type 0 where
  pub provider_name : String
  pub is_configured : Bool
  pub generate_text : List Call → LlmRequest → Answer

-- `_config`, `_providers`, `_budget`, with the environment that `resolve` and the guard read
pub record Router : Type 0 where
  pub config : LlmConfig
  pub providers : Dict Provider
  pub budget : BudgetConfig
  pub codex_review_model : String
  pub allow_expensive : Bool
  pub limits : Limits
  pub hour : ℕ

pub record Session : Type 0 where
  pub calls : List Call
  pub ledger : Ledger
  pub artifacts : List GuardArtifact

pub data Error : Type 0 where
  openai_missing openai_key_missing expensive_review : Error
  no_provider : String → Error
  cost_guard_tripped : GuardArtifact → Error
  budget_exceeded fallback_budget_exceeded : Error
  no_fallback : Text → Error
  provider_error : Text → Error
  review_fail_closed : Text → Text → Transient → Error

pub data Result {ℓ} (A : Type ℓ) : Type ℓ where
  ok : A → Result A
  err : Error → Result A

infixl 5 ◌>>=◌
abbrev pub ◌>>=◌ {ℓ κ} : {A : Type ℓ} {B : Type κ} → Result A → (A → Result B) → Result B
ok a >>= f = f a
err e >>= f = err e

-- `resolve("review")`
resolve_review : Router → Result (Provider × String)
resolve_review r = elim (Dict.get r.providers "openai") [
  | none ↦ err openai_missing
  | some p ↦
      if not p.is_configured
      then err openai_key_missing
      else if r.codex_review_model == "gpt-4o" && not r.allow_expensive
      then err expensive_review
      else ok (p, r.codex_review_model)
]

-- the default model of the last resort: of the route, of "general", or the constant
fallback_model : Router → Option PurposeRoute → String
fallback_model r (some route) = route.model
fallback_model r none = elim (Dict.get r.config.defaults "general") [
  | none ↦ "gpt-4o-mini"
  | some g ↦ g.model
]

resolve_openai : Router → String → Option PurposeRoute → Result (Provider × String)
unfolding fallback_model
resolve_openai r purpose route = elim (Dict.get r.providers "openai") [
  | none ↦ err (no_provider purpose)
  | some p ↦ ok (p, fallback_model r route)
]

resolve_route : Router → String → Option PurposeRoute → Result (Provider × String)
unfolding resolve_openai
resolve_route r purpose none = resolve_openai r purpose none
resolve_route r purpose (some route) = elim (Dict.get r.providers route.provider) [
  | none ↦ resolve_openai r purpose (some route)
  | some p ↦
      if contains r.config.enabled_providers route.provider
      then ok (p, route.model)
      else resolve_openai r purpose (some route)
]

-- `ModelRouter.resolve`
unfoldable pub resolve : Router → String → Result (Provider × String)
unfolding resolve_review resolve_route
resolve r purpose =
    if purpose == "review"
    then resolve_review r
    else resolve_route r purpose (Dict.get r.config.defaults purpose)

fallback_of : Router → ReviewFallbackConfig → Option (Provider × String)
fallback_of r fb =
    if fb.provider == ""
    then none
    else if fb.model == ""
    then none
    else elim (Dict.get r.providers fb.provider) [
      | none ↦ none
      | some p ↦ if p.is_configured then some (p, fb.model) else none
    ]

-- `ModelRouter.resolve_review_fallback`
unfoldable pub resolve_review_fallback : Router → Option (Provider × String)
unfolding fallback_of
resolve_review_fallback r = elim r.config.review_fallback [
  | none ↦ none
  | some fb ↦ fallback_of r fb
]

-- `_log_usage_from_response`: always booked for the project "openclaw"
unfoldable pub log_response : Router → String → LlmResponse → Ledger → Ledger
log_response r action response l = elim response.usage [
  | none ↦ l
  | some u ↦
      log_usage r.hour "openclaw" action response.model response.provider (get_or u.prompt_tokens 0)
        (get_or u.completion_tokens 0) (get_or u.total_tokens 0)
        (actual_cost response.model u r.budget.pricing) l
]

-- a call is recorded before its answer is known
called : String → LlmRequest → Session → Session
called p request s = record s { calls = s.calls ++ record { provider = p; request = request } ∷ [] }

booked : Router → String → LlmResponse → Session → Session
unfolding log_response
booked r action response s = record s { ledger = log_response r action response s.ledger }

abbrev pub Run : Type 0
Run = Session × Result LlmResponse

finish : Router → String → Answer → Session → Run
unfolding booked
finish r action (answer response) s = (booked r action response s, ok response)
finish r action (raises e) s = (s, err (provider_error e))

-- a provider call outside the review path, and the booking of its usage
ask : Router → String → Provider → LlmRequest → Session → Run
unfolding called finish
ask r action p request s =
    finish r action (p.generate_text s.calls request) (called p.provider_name request s)

routed : Router → LlmRequest → Result (Provider × String) → Session → Run
unfolding ask
routed r request (err e) s = (s, err e)
routed r request (ok (p, model)) s = ask r request.purpose p (record request { model = model }) s

-- the text that the estimate counts
prompt_text : List (Dict Text) → Text
prompt_text [] = []
prompt_text (m ∷ ms) = get_or (Dict.get m "content") [] ++ prompt_text ms

pub within_budget : Router → String → LlmRequest → Provider → Bool
unfolding prompt_text
within_budget r model request p =
    check_budget
      (estimate_cost model (prompt_text request.messages) r.config.review_caps.max_output_tokens
        r.budget.pricing p.provider_name)
      r.budget.max_usd_per_review

-- the request with the caps of the review gate; `essential` is left at its default
pub capped : Router → String → String → LlmRequest → LlmRequest
capped r model action request = record {
  model = model;
  messages = request.messages;
  temperature = r.config.review_caps.temperature;
  max_tokens = some r.config.review_caps.max_output_tokens;
  purpose = "review";
  trace_id = request.trace_id;
  response_format = request.response_format;
  essential = false;
  project_id = request.project_id;
  action = action;
}

fallback_answer : Router → Text → Transient → Answer → Session → Run
unfolding booked
fallback_answer r primary cls (answer response) s =
    let tagged = record response { primary_transient_class = some cls } in
    (booked r "review_fallback" tagged s, ok tagged)
fallback_answer r primary cls (raises e) s = (s, err (review_fail_closed primary e cls))

try_fallback : Router → LlmRequest → Text → Transient → Option (Provider × String) → Session → Run
unfolding fallback_answer called within_budget capped
try_fallback r request primary cls none s = (s, err (no_fallback primary))
try_fallback r request primary cls (some (p, model)) s =
    if not (within_budget r model request p)
    then (s, err fallback_budget_exceeded)
    else (let fb_request = capped r model "review_fallback" request in
        fallback_answer r primary cls (p.generate_text s.calls fb_request)
          (called p.provider_name fb_request s))

after_primary : Router → LlmRequest → Answer → Session → Run
unfolding try_fallback booked
after_primary r request (answer response) s = (booked r "review" response s, ok response)
after_primary r request (raises e) s =
    if is_non_transient (classify_transient e)
    then (s, err (provider_error e))
    else try_fallback r request e (classify_transient e) (resolve_review_fallback r) s

review_with : Router → LlmRequest → Result (Provider × String) → Session → Run
unfolding after_primary called within_budget capped
review_with r request (err e) s = (s, err e)
review_with r request (ok (p, model)) s =
    if not (within_budget r model request p)
    then (s, err budget_exceeded)
    else (let routed_request = capped r model request.action request in
        after_primary r request (p.generate_text s.calls routed_request)
          (called p.provider_name routed_request s))

-- `ModelRouter._generate_review`
unfoldable pub generate_review : Router → LlmRequest → Session → Run
unfolding review_with
generate_review r request s = review_with r request (resolve r "review") s

dispatch : Router → LlmRequest → Session → Run
unfolding generate_review routed
dispatch r request s =
    if request.purpose == "review"
    then generate_review r request s
    else routed r request (resolve r request.purpose) s

guarded : Router → LlmRequest → Option GuardArtifact → Session → Run
unfolding dispatch
guarded r request none s = dispatch r request s
guarded r request (some a) s =
    (record s { artifacts = s.artifacts ++ a ∷ [] }, err (cost_guard_tripped a))

-- `ModelRouter.generate`
unfoldable pub generate : Router → LlmRequest → Session → Run
unfolding guarded dispatch
generate r request s =
    if request.essential
    then dispatch r request s
    else guarded r request (check_guard r.limits r.hour request.trace_id s.ledger) s
