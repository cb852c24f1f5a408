-- ===== src/Llm/Budget/Laws.antt =====
-- What the budget check promises of the cost of a call.
use ai_ops_runner.Base.{get_or, length, ℕ, ◌*◌, ◌/◌, ◌≤◌, max, String, ◌≡◌, true, none, some, arith}
use native.Mathlib.Nat.{mul-le-mul_right}
use ai_ops_runner.Base.Dict
use ai_ops_runner.Base.Dict.{Dict}
use ai_ops_runner.Base.Text.{Text}
use ai_ops_runner.Llm.Types.{Usage}
use ai_ops_runner.Llm.Budget.{Price, estimate_cost, check_budget, actual_cost}

module _ (model provider : String) (prompt : Text) (out cap : ℕ) (pricing : Dict Price) where
  -- A call of a priced model that the budget admits costs at most the cap, if it reads no more
  -- tokens than were estimated and writes no more than its maximum.
  pub actual_cost-le_cap :
      (p : Price) (usage : Usage)
      → Dict.get pricing model ≡ some p
      → check_budget (estimate_cost model prompt out pricing provider) cap ≡ true
      → get_or usage.prompt_tokens 0 ≤ max (length prompt / 4) 1
      → get_or usage.completion_tokens 0 ≤ out
      → actual_cost model usage pricing ≤ cap
  unfolding actual_cost check_budget estimate_cost
  actual_cost-le_cap p usage found ok fewer shorter =
      let tokens = max (length prompt / 4) 1 in
      let input : get_or usage.prompt_tokens 0 * p.input_per_1m ≤ tokens * p.input_per_1m =
        mul-le-mul_right p.input_per_1m fewer in
      let output : get_or usage.completion_tokens 0 * p.output_per_1m ≤ out * p.output_per_1m =
        mul-le-mul_right p.output_per_1m shorter in
      ground (arith, found, input, output)

  -- A model with no price passes under every cap, and its calls are booked at no cost.
  unpriced_passes :
      (usage : Usage)
      → Dict.get pricing model ≡ none
      → (check_budget (estimate_cost model prompt out pricing provider) cap ≡ true)
        × (actual_cost model usage pricing ≡ 0)
  unfolding actual_cost check_budget estimate_cost
  unpriced_passes usage e = ground arith
