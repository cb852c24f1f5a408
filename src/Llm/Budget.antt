-- ===== src/Llm/Budget.antt =====
-- src/llm/budget.py: estimates, caps and actual costs.
pub mod Laws
use ai_ops_runner.Base.{
  leb, if◌then◌else◌, get_or, length, ℕ, ◌+◌, ◌*◌, ◌/◌, max, String, Bool, true, false, not, Option,
  none, some, List, [], ◌∷◌,
}
use ai_ops_runner.Base.Dict
use ai_ops_runner.Base.Dict.{Dict}
use ai_ops_runner.Base.Text.{Text}
use ai_ops_runner.Llm.Types.{Usage}

-- cents for a million tokens
pub record Price : Type 0 where
  pub input_per_1m : ℕ
  pub output_per_1m : ℕ

abbrev price : ℕ → ℕ → Price
price i o = record { input_per_1m = i; output_per_1m = o }

abbrev pub default_pricing : Dict Price
default_pricing =
    ("gpt-4o-mini", price 15 60)
    ∷ ("gpt-4o", price 250 1000)
    ∷ ("labs-devstral-small-2512", price 10 30)
    ∷ ("codestral-2501", price 30 90)
    ∷ []

-- caps in units of 10^-8 dollars
pub record BudgetConfig : Type 0 where
  pub max_usd_per_review : ℕ
  pub max_usd_per_run : ℕ
  pub pricing : Dict Price

abbrev pub dollars : ℕ → ℕ
dollars n = n * 100_000_000

abbrev pub default_budget : BudgetConfig
default_budget = record {
  max_usd_per_review = dollars 1 / 2;
  max_usd_per_run = dollars 5;
  pricing = default_pricing;
}

-- the `budget` object of the configuration, each member optional
pub record BudgetData : Type 0 where
  pub max_usd_per_review : Option ℕ
  pub max_usd_per_run : Option ℕ
  pub pricing : List (String × Option ℕ × Option ℕ)

add_prices : Dict Price → List (String × Option ℕ × Option ℕ) → Dict Price
add_prices d [] = d
add_prices d ((m, i, o) ∷ rest) = add_prices (Dict.put d m (price (get_or i 0) (get_or o 0))) rest

-- `BudgetConfig.from_dict`
unfoldable pub budget_from_dict : BudgetData → BudgetConfig
unfolding add_prices
budget_from_dict b = record {
  max_usd_per_review = get_or b.max_usd_per_review (dollars 1 / 2);
  max_usd_per_run = get_or b.max_usd_per_run (dollars 5);
  pricing = add_prices default_pricing b.pricing;
}

pub record CostEstimate : Type 0 where
  pub model : String
  pub provider : String
  pub estimated_input_tokens : ℕ
  pub max_output_tokens : ℕ
  pub estimated_cost_usd : ℕ
  pub input_cost_usd : ℕ
  pub output_cost_usd : ℕ
  pub pricing_found : Bool

unfoldable pub estimate_cost : String → Text → ℕ → Dict Price → String → CostEstimate
estimate_cost model prompt_text max_output_tokens pricing provider =
    let tokens = max (length prompt_text / 4) 1 in
    elim (Dict.get pricing model) [
      | none ↦ record {
        model = model;
        provider = provider;
        estimated_input_tokens = tokens;
        max_output_tokens = max_output_tokens;
        estimated_cost_usd = 0;
        input_cost_usd = 0;
        output_cost_usd = 0;
        pricing_found = false;
      }
      | some p ↦ record {
        model = model;
        provider = provider;
        estimated_input_tokens = tokens;
        max_output_tokens = max_output_tokens;
        estimated_cost_usd = tokens * p.input_per_1m + max_output_tokens * p.output_per_1m;
        input_cost_usd = tokens * p.input_per_1m;
        output_cost_usd = max_output_tokens * p.output_per_1m;
        pricing_found = true;
      }
    ]

-- `check_budget`, without the reason
unfoldable pub check_budget : CostEstimate → ℕ → Bool
check_budget e cap_usd = if not e.pricing_found then true else leb e.estimated_cost_usd cap_usd

unfoldable pub actual_cost : String → Usage → Dict Price → ℕ
actual_cost model usage pricing = elim (Dict.get pricing model) [
  | none ↦ 0
  | some p ↦
      get_or usage.prompt_tokens 0 * p.input_per_1m
      + get_or usage.completion_tokens 0 * p.output_per_1m
]
