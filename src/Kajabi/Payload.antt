-- ===== src/Kajabi/Payload.antt =====
-- `_extract_json` of ui_action_schema.py: the JSON value in a model's answer, which may stand between
-- other words.
pub mod Pieces
use ai_ops_runner.Base.{
  ltb, nat_beq, if◌then◌else◌, take, drop, ℕ, suc, ◌+◌, ◌-◌, String, ◌⊎◌, inl, inr, Option, none,
  some, List, [], ◌∷◌, map,
}
use mathlib.Core.Option
use ai_ops_runner.Base.Json.{Json}
use ai_ops_runner.Base.Text.{Text, strip}

pub data ActionSchemaError : Type 0 where
  max_steps_must_be_positive empty_llm_payload invalid_json_object invalid_json_array :
      ActionSchemaError
  no_json_found root_must_be_object_or_array actions_must_be_list empty_actions : ActionSchemaError
  unexpected_root_keys : List String → ActionSchemaError
  must_be_object : ℕ → ActionSchemaError
  too_many_actions : ℕ → ℕ → ActionSchemaError
  unexpected_keys : ℕ → List String → ActionSchemaError
  action_must_be_string target_must_be_string : ℕ → ActionSchemaError
  action_not_allowed target_not_allowlisted value_required_for value_not_allowed_for :
      ℕ → String → ActionSchemaError
  action_not_allowed_for_target : ℕ → String → String → ActionSchemaError
  value_not_allowlisted : ℕ → String → List String → ActionSchemaError

abbrev pub OrError : Type 0 → Type 0
OrError A = ActionSchemaError ⊎ A

-- text.find and text.rfind of one character
find_char : ℕ → Text → Option ℕ
find_char c [] = none
find_char c (d ∷ s) =
    let rest = find_char c s in if nat_beq d c then some 0 else Option.map suc rest

rfind_char : ℕ → Text → Option ℕ
rfind_char c [] = none
rfind_char c (d ∷ s) = later (rfind_char c s)
  where
    later : Option ℕ → Option ℕ
    later (some n) = some (suc n)
    later none = if nat_beq d c then some 0 else none

-- text[start : end + 1], from the first of one character to the last of another after it
span : Text → Option ℕ → Option ℕ → Option Text
span s (some start) (some end) =
    if ltb start end then some (take (end + 1 - start) (drop start s)) else none
span s _ _ = none

loaded_or : ActionSchemaError → Option Json → OrError Json
loaded_or e none = inl e
loaded_or e (some v) = inr v

brackets_in : (Text → Option Json) → Option Text → OrError Json
unfolding loaded_or
brackets_in loads none = inl no_json_found
brackets_in loads (some t) = loaded_or invalid_json_array (loads t)

braces_in : (Text → Option Json) → Text → Option Text → OrError Json
unfolding loaded_or brackets_in span find_char rfind_char
braces_in loads s none = brackets_in loads (span s (find_char b'[' s) (rfind_char b']' s))
braces_in loads s (some t) = loaded_or invalid_json_object (loads t)

whole_or : (Text → Option Json) → Text → Option Json → OrError Json
unfolding braces_in
whole_or loads s (some v) = inr v
whole_or loads s none = braces_in loads s (span s (find_char b'{' s) (rfind_char b'}' s))

on_text : (Text → Option Json) → Text → OrError Json
unfolding whole_or
on_text loads [] = inl empty_llm_payload
on_text loads (c ∷ s) = whole_or loads (c ∷ s) (loads (c ∷ s))

-- `_extract_json`
unfoldable pub extract_json : (Text → Option Json) → Text → OrError Json
unfolding on_text
extract_json loads raw = on_text loads (strip raw)
