-- ===== src/Llm/Samples.antt =====
-- A router with OpenAI and Mistral in small, and the theorems about src/llm at its requests.
use ai_ops_runner.Base.{
  leb, ◌≤◌, ◌<◌, String, ◌≡◌, refl, ◌↔◌, true, false, ◌||◌, none, some, [], ◌∷◌, arith,
}
use ai_ops_runner.Base.Dict
use ai_ops_runner.Base.Text.{codes, lower, lower_code}
use ai_ops_runner.Llm.Types.{LlmConfig, LlmRequest, LlmResponse, Usage, default_config}
use ai_ops_runner.Llm.Transient.{
  classify_transient, is_transient_error, mentions, is_transient_error_iff, server_needles,
  network_needles,
}
use ai_ops_runner.Llm.Budget.{
  default_budget, default_pricing, dollars, estimate_cost, check_budget, actual_cost,
}
use ai_ops_runner.Llm.Budget.Laws.{actual_cost-le_cap}
use ai_ops_runner.Llm.Guard.{
  Ledger, Limits, round6, log_usage, spend, spend_today, spend_last_n_hours, check_guard,
}
use ai_ops_runner.Llm.Guard.Laws.{check_guard_iff}
use ai_ops_runner.Llm.Guard.Rollups.{AllTotal, rollups_by_day, rollups_by_day-AllTotal}
use ai_ops_runner.Llm.Router.{
  answer, raises, Provider, Router, Session, ok, err, cost_guard_tripped, resolve,
  resolve_review_fallback, generate_review, generate,
}
use ai_ops_runner.Llm.Router.Pinned.{Grows, generate_review-Grows}
use ai_ops_runner.Llm.Router.Guarded.{IsTripped, generate-IsTripped}
use ai_ops_runner.Llm.Router.Fallback.{CameFrom, generate_review-CameFrom}

abbrev few_tokens : Usage
few_tokens = record { prompt_tokens = some 2; completion_tokens = some 10; total_tokens = some 12 }

is_transient_error_iff_example : is_transient_error (codes "HTTP 429") ≡ (
    mentions (lower (codes "HTTP 429")) ("http 429" ∷ [])
    || mentions (lower (codes "HTTP 429")) server_needles
    || mentions (lower (codes "HTTP 429")) network_needles)
is_transient_error_iff_example = is_transient_error_iff (codes "HTTP 429")

actual_cost-le_cap_example : actual_cost "gpt-4o-mini" few_tokens default_pricing ≤ dollars 1
unfolding Dict.get check_budget estimate_cost
actual_cost-le_cap_example =
    actual_cost-le_cap "gpt-4o-mini" "openai" (codes "a short text") 600 (dollars 1) default_pricing
      (record { input_per_1m = 15; output_per_1m = 60 }) few_tokens refl refl (omega arith)
      (omega arith)

abbrev limits : Limits
limits = record { hourly_usd_limit = 500; daily_usd_limit = 1000 }

-- one call of 600 units, at hour 48
abbrev spent : Ledger
spent = log_usage 48 "openclaw" "general" "gpt-4o" "openai" 1 1 2 600 []

check_guard_iff_example :
    (check_guard limits 48 "r" spent ≡ none)
    ↔ ((spend_last_n_hours 1 48 spent < 500) × (spend_today 48 spent < 1000))
check_guard_iff_example = check_guard_iff limits 48 "r" spent

spent_trips : (a : _) × (check_guard limits 48 "r" spent ≡ some a)
unfolding check_guard log_usage spend spend_last_n_hours spend_today round6
spent_trips = (_, refl)

rollups_by_day-AllTotal_example :
    AllTotal (rollups_by_day 2 7 spent) (spend (λ r. leb 0 r.date) spent)
rollups_by_day-AllTotal_example = rollups_by_day-AllTotal 2 7 spent

abbrev reply_of : String → String → LlmResponse
reply_of provider model = record {
  content = codes "{}";
  model = model;
  provider = provider;
  usage = some few_tokens;
  primary_transient_class = none;
}

abbrev overloaded : Provider
overloaded = record {
  provider_name = "openai";
  is_configured = true;
  generate_text = λ before request. raises (codes "HTTP 503");
}

abbrev mistral : Provider
mistral = record {
  provider_name = "mistral";
  is_configured = true;
  generate_text = λ before request. answer (reply_of "mistral" request.model);
}

abbrev config : LlmConfig
config = record default_config {
  defaults = ("general", record { provider = "mistral"; model = "labs-devstral-small-2512" }) ∷ [];
  review_fallback = some (record { provider = "mistral"; model = "codestral-2501" });
}

abbrev router : Router
router = record {
  config = config;
  providers = ("openai", overloaded) ∷ ("mistral", mistral) ∷ [];
  budget = default_budget;
  codex_review_model = "gpt-4o-mini";
  allow_expensive = false;
  limits = limits;
  hour = 48;
}

abbrev review : LlmRequest
review = record {
  model = "";
  messages = (("content", codes "diff") ∷ []) ∷ [];
  temperature = 0;
  max_tokens = none;
  purpose = "review";
  trace_id = "t";
  response_format = none;
  essential = false;
  project_id = "openclaw";
  action = "review";
}

abbrev fresh : Session
fresh = record { calls = []; ledger = []; artifacts = [] }

generate_review-Grows_example : Grows router review 2 fresh (generate_review router review fresh).0
generate_review-Grows_example = generate_review-Grows router review fresh

spent_trips_t : (a : _) × (check_guard limits 48 "t" spent ≡ some a)
unfolding check_guard log_usage spend spend_last_n_hours spend_today round6
spent_trips_t = (_, refl)

review-IsTripped :
    (((generate router review (record fresh { ledger = spent })).1
        ≡ err (cost_guard_tripped spent_trips_t.0))
      ↔ IsTripped router review (record fresh { ledger = spent }) spent_trips_t.0)
    × (IsTripped router review (record fresh { ledger = spent }) spent_trips_t.0
        → (generate router review (record fresh { ledger = spent })).0
          ≡ record fresh { ledger = spent; artifacts = spent_trips_t.0 ∷ [] })
review-IsTripped =
    generate-IsTripped router review (record fresh { ledger = spent }) spent_trips_t.0

fallback_answers : (a : LlmResponse) × ((generate_review router review fresh).1 ≡ ok a)
unfolding generate_review resolve resolve_review_fallback Dict.get check_budget estimate_cost
    classify_transient mentions lower_code
fallback_answers = (_, refl)

generate_review-CameFrom_example : CameFrom router review fresh fallback_answers.0
generate_review-CameFrom_example =
    generate_review-CameFrom router review fresh fallback_answers.0 fallback_answers.1

general_goes : (p : Provider) × (m : String) × (resolve router "general" ≡ ok (p, m))
unfolding resolve Dict.get
general_goes = (_, _, refl)
