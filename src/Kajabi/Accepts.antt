-- ===== src/Kajabi/Accepts.antt =====
-- What is allowed, `parse_llm_actions` lets through.
use ai_ops_runner.Base.{
  length, string_eq, contains, ℕ, zero, suc, ◌≤◌, ◌<◌, String, ◌≡◌, refl, ap, ◌∙◌, ◌⊎◌, inl, inr,
  true, Option, some, List, [], ◌∷◌, arith, listed_all,
}
use ai_ops_runner.Base.Dict
use ai_ops_runner.Base.Dict.{Dict}
use ai_ops_runner.Base.Json.{Json, str}
use ai_ops_runner.Base.Text.{Text}
use ai_ops_runner.Kajabi.Allowed.{CarriesValue, IsAllowed}
use ai_ops_runner.Kajabi.Bounded.{AllAllowed, IsBounded}
use ai_ops_runner.Kajabi.{
  Target, UiAction, extra_keys, check_typed, with_value, without_value, check_value, on_target,
  check_target, check_type, on_keys, check_action, add_action, check_actions, on_actions, on_parsed,
  parse_llm_actions,
}

abbrev made : String → String → Option String → UiAction
made a t v = record { action = a; target = t; value = v }

check_typed_complete :
    (idx : ℕ) (a t w : String) (typed : List String)
    → (typed ≡ []) ⊎ (contains typed w ≡ true)
    → check_typed idx a t typed w ≡ inr (made a t (some w))
unfolding check_typed
check_typed_complete idx a t w [] h = refl
check_typed_complete idx a t w (v ∷ vs) (inl e) = cc
check_typed_complete idx a t w (v ∷ vs) (inr e) = ground (arith, e)

check_value_complete :
    (idx : ℕ) (a t : String) (spec : Target) (o : Option Json) (value : Option String)
    → CarriesValue a spec o value
    → check_value idx a t spec o ≡ inr (made a t value)
unfolding check_value with_value without_value
check_value_complete idx a t spec o value (inl (valued, (w, e, full, same, typed))) =
    ap (check_value idx a t spec) e
    ∙ ground (arith, valued, full, same, check_typed_complete idx a t w spec.typed_values typed)
check_value_complete idx a t spec o value (inr (valued, inl e, same)) =
    ap (check_value idx a t spec) e ∙ ground (arith, valued, same)
check_value_complete idx a t spec o value (inr (valued, inr e, same)) =
    ap (check_value idx a t spec) e ∙ ground (arith, valued, same)

check_action_complete :
    (idx : ℕ) (allow : Dict Target) (d : Dict Json) (x : UiAction)
    → IsAllowed allow d x
    → check_action idx allow d ≡ inr x
unfolding check_action on_keys extra_keys check_type check_target on_target
check_action_complete idx allow d x (keys, action, known, target, (spec, listed, fits, carries)) =
    ap (on_keys idx allow d) (listed_all ("action" ∷ "target" ∷ "value" ∷ []) (Dict.keys d) keys)
    ∙ ap (λ o. check_type idx allow o (Dict.get d "target") (Dict.get d "value")) action
    ∙ ap (λ o. check_type idx allow (some (str x.action)) o (Dict.get d "value")) target
    ∙ ground (arith, known)
    ∙ ap (λ o. on_target idx x.action x.target o (Dict.get d "value")) listed
    ∙ ground (arith, fits)
    ∙ check_value_complete idx x.action x.target spec (Dict.get d "value") x.value carries

check_actions_complete :
    (idx : ℕ) (allow : Dict Target) (ds : List (Dict Json)) (xs : List UiAction)
    → AllAllowed allow ds xs
    → (check_actions idx allow ds ≡ inr xs) × (length ds ≡ length xs)
unfolding check_actions add_action
check_actions_complete idx allow [] [] h = (refl, refl)
check_actions_complete idx allow [] (x ∷ xs) h = absurd h
check_actions_complete idx allow (d ∷ ds) [] h = absurd h
check_actions_complete idx allow (d ∷ ds) (x ∷ xs) h =
    let rest = check_actions_complete (suc idx) allow ds xs h.1 in
    (
      ap (λ c. add_action c (check_actions (suc idx) allow ds))
            (check_action_complete idx allow d x h.0)
          ∙ ap (add_action (inr x)) rest.0,
      ap suc rest.1,
    )

on_actions_complete :
    (allow : Dict Target) (max_steps : ℕ) (ds : List (Dict Json)) (xs : List UiAction)
    → AllAllowed allow ds xs
    → 0 < length xs
    → length xs ≤ max_steps
    → on_actions allow max_steps (inr ds) ≡ inr xs
unfolding on_actions
on_actions_complete allow max_steps [] [] h p q = absurd (omega (arith, p))
on_actions_complete allow max_steps [] (x ∷ xs) h p q = absurd h
on_actions_complete allow max_steps (d ∷ ds) xs h p q =
    let c = check_actions_complete 0 allow (d ∷ ds) xs h in ground (arith, c.0, c.1, q)

-- An answer in which every action is allowed, with at least one and at most `max_steps` of them, is
-- accepted with these actions.
pub parse_llm_actions_complete :
    (loads : Text → Option Json) (raw : Text) (allow : Dict Target) (max_steps : ℕ)
    (xs : List UiAction)
    → IsBounded loads raw allow max_steps xs
    → parse_llm_actions loads raw allow max_steps ≡ inr xs
unfolding parse_llm_actions on_parsed
parse_llm_actions_complete loads raw allow zero xs (v, found, (ds, objects, each, p, q)) =
    absurd (omega (arith, p, q))
parse_llm_actions_complete loads raw allow (suc n) xs (v, found, (ds, objects, each, p, q)) =
    ap (on_parsed allow (suc n)) found
    ∙ ap (on_actions allow (suc n)) objects
    ∙ on_actions_complete allow (suc n) ds xs each p q
