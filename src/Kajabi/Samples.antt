-- ===== src/Kajabi/Samples.antt =====
-- A model's answer with one click and one fill, between other words.
use ai_ops_runner.Base.{if◌then◌else◌, ◌≡◌, refl, inr, Option, none, some, List, [], ◌∷◌}
use ai_ops_runner.Base.Dict
use ai_ops_runner.Base.Json
use ai_ops_runner.Base.Dict.{Dict}
use ai_ops_runner.Base.Json.{Json, str, arr, nil, cons, obj, field, end}
use ai_ops_runner.Base.Text.{Text, codes, strip, text_eq}
use ai_ops_runner.Kajabi.Payload.{extract_json}
use ai_ops_runner.Kajabi.{
  Target, UiAction, extra_keys, as_action_list, check_action, parse_llm_actions,
}
use ai_ops_runner.Kajabi.Bounded.{IsBounded, parse_llm_actions-IsBounded}
use ai_ops_runner.Kajabi.Accepts.{parse_llm_actions_complete}

abbrev answer : Json
answer = obj (
    field "actions"
      (arr (
        cons (obj (field "action" (str "click") (field "target" (str "save") end))) (
          cons
            (obj (
              field "action" (str "fill")
                (field "target" (str "title") (field "value" (str "Hi") end))))
            nil)))
      end)

abbrev loads : Text → Option Json
loads t = if text_eq t (codes "{a}") then some answer else none

abbrev raw : Text
raw = codes "Sure: {a} done"

abbrev targets : Dict Target
targets =
    ("save", record { actions = "click" ∷ []; typed_values = [] })
    ∷ ("title", record { actions = "fill" ∷ []; typed_values = "Hi" ∷ [] })
    ∷ []

abbrev asked : List UiAction
asked =
    record { action = "click"; target = "save"; value = none }
    ∷ record { action = "fill"; target = "title"; value = some "Hi" }
    ∷ []

accepted : parse_llm_actions loads raw targets 3 ≡ inr asked
unfolding parse_llm_actions extract_json strip as_action_list Json.items Json.members Json.as_dict
    extra_keys check_action Dict.get
accepted = refl

asked_within : IsBounded loads raw targets 3 asked
asked_within = parse_llm_actions-IsBounded loads raw targets 3 asked accepted

asked_again : parse_llm_actions loads raw targets 3 ≡ inr asked
asked_again = parse_llm_actions_complete loads raw targets 3 asked asked_within

extracted : extract_json loads raw ≡ inr answer
unfolding extract_json strip
extracted = refl
