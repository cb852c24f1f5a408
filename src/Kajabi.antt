-- ===== src/Kajabi.antt =====
-- services/soma_kajabi/ui_action_schema.py: the actions that a language model may ask the browser
-- for. `json.loads` is a parameter; an error is a constructor with the values of its message.
pub mod Payload
pub mod Allowed
pub mod Bounded
pub mod Accepts
mod Samples
use ai_ops_runner.Base.{
  ltb, if◌then◌else◌, length, keep, ◌==◌, string_eq, contains, ℕ, zero, suc, String, inl, inr, not,
  Option, none, some, List, [], ◌∷◌,
}
use ai_ops_runner.Base.Dict
use ai_ops_runner.Base.Dict.{Dict}
use ai_ops_runner.Base.Json.{Json, null, str, arr, obj, items, members, as_dict}
use ai_ops_runner.Base.Text.{Text}
use ai_ops_runner.Kajabi.Payload.{
  OrError, max_steps_must_be_positive, root_must_be_object_or_array, actions_must_be_list,
  empty_actions, unexpected_root_keys, must_be_object, too_many_actions, unexpected_keys,
  action_must_be_string, target_must_be_string, action_not_allowed, target_not_allowlisted,
  value_required_for, value_not_allowed_for, action_not_allowed_for_target, value_not_allowlisted,
  extract_json,
}

pub record Target : Type 0 where
  pub actions : List String
  pub typed_values : List String

-- a normalized action
pub record UiAction : Type 0 where
  pub action : String
  pub target : String
  pub value : Option String

abbrev pub allowed_action_types : List String
allowed_action_types = "goto" ∷ "click" ∷ "fill" ∷ "wait_for_text" ∷ []

-- the actions that carry a value
abbrev pub valued_types : List String
valued_types = "fill" ∷ "wait_for_text" ∷ []

-- `set(d.keys()) - names`
unfoldable pub extra_keys : List String → Dict Json → List String
extra_keys names d = keep (λ k. not (contains names k)) (Dict.keys d)

add_object : ℕ → Option (Dict Json) → OrError (List (Dict Json)) → OrError (List (Dict Json))
add_object idx none rest = inl (must_be_object idx)
add_object idx (some d) (inl e) = inl e
add_object idx (some d) (inr ds) = inr (d ∷ ds)

all_objects : ℕ → List Json → OrError (List (Dict Json))
unfolding add_object
all_objects idx [] = inr []
all_objects idx (v ∷ vs) = add_object idx (as_dict v) (all_objects (suc idx) vs)

raw_actions : Option Json → OrError (List (Dict Json))
unfolding all_objects
raw_actions (some (arr vs)) = all_objects 0 (items vs)
raw_actions _ = inl actions_must_be_list

on_root_keys : List String → Dict Json → OrError (List (Dict Json))
unfolding raw_actions
on_root_keys [] d = raw_actions (Dict.get d "actions")
on_root_keys (k ∷ ks) d = inl (unexpected_root_keys (k ∷ ks))

-- `_as_action_list`
unfoldable pub as_action_list : Json → OrError (List (Dict Json))
unfolding all_objects on_root_keys extra_keys
as_action_list (arr vs) = all_objects 0 (items vs)
as_action_list (obj fs) = on_root_keys (extra_keys ("actions" ∷ []) (members fs)) (members fs)
as_action_list _ = inl root_must_be_object_or_array

check_typed : ℕ → String → String → List String → String → OrError UiAction
check_typed idx a t [] v = inr record { action = a; target = t; value = some v }
check_typed idx a t (w ∷ ws) v =
    if contains (w ∷ ws) v
    then inr record { action = a; target = t; value = some v }
    else inl (value_not_allowlisted idx v (w ∷ ws))

with_value : ℕ → String → String → List String → Option Json → OrError UiAction
unfolding check_typed
with_value idx a t typed (some (str v)) =
    if v == "" then inl (value_required_for idx a) else check_typed idx a t typed v
with_value idx a t typed _ = inl (value_required_for idx a)

without_value : ℕ → String → String → Option Json → OrError UiAction
without_value idx a t none = inr record { action = a; target = t; value = none }
without_value idx a t (some null) = inr record { action = a; target = t; value = none }
without_value idx a t (some _) = inl (value_not_allowed_for idx a)

check_value : ℕ → String → String → Target → Option Json → OrError UiAction
unfolding with_value without_value
check_value idx a t spec v =
    if contains valued_types a
    then with_value idx a t spec.typed_values v
    else without_value idx a t v

on_target : ℕ → String → String → Option Target → Option Json → OrError UiAction
unfolding check_value
on_target idx a t none v = inl (target_not_allowlisted idx t)
on_target idx a t (some spec) v =
    if contains spec.actions a
    then check_value idx a t spec v
    else inl (action_not_allowed_for_target idx a t)

check_target : ℕ → Dict Target → String → Option Json → Option Json → OrError UiAction
unfolding on_target
check_target idx allow a (some (str t)) v = on_target idx a t (Dict.get allow t) v
check_target idx allow a _ v = inl (target_must_be_string idx)

check_type : ℕ → Dict Target → Option Json → Option Json → Option Json → OrError UiAction
unfolding check_target
check_type idx allow (some (str a)) t v =
    if contains allowed_action_types a
    then check_target idx allow a t v
    else inl (action_not_allowed idx a)
check_type idx allow _ t v = inl (action_must_be_string idx)

on_keys : ℕ → Dict Target → Dict Json → List String → OrError UiAction
unfolding check_type
on_keys idx allow d [] =
    check_type idx allow (Dict.get d "action") (Dict.get d "target") (Dict.get d "value")
on_keys idx allow d (k ∷ ks) = inl (unexpected_keys idx (k ∷ ks))

-- the body of the loop
unfoldable pub check_action : ℕ → Dict Target → Dict Json → OrError UiAction
unfolding on_keys extra_keys
check_action idx allow d = on_keys idx allow d (extra_keys ("action" ∷ "target" ∷ "value" ∷ []) d)

add_action : OrError UiAction → OrError (List UiAction) → OrError (List UiAction)
add_action (inl e) rest = inl e
add_action (inr a) (inl e) = inl e
add_action (inr a) (inr rest) = inr (a ∷ rest)

check_actions : ℕ → Dict Target → List (Dict Json) → OrError (List UiAction)
unfolding check_action add_action
check_actions idx allow [] = inr []
check_actions idx allow (d ∷ ds) =
    add_action (check_action idx allow d) (check_actions (suc idx) allow ds)

on_actions : Dict Target → ℕ → OrError (List (Dict Json)) → OrError (List UiAction)
unfolding check_actions
on_actions allow max_steps (inl e) = inl e
on_actions allow max_steps (inr []) = inl empty_actions
on_actions allow max_steps (inr (d ∷ ds)) =
    if ltb max_steps (length (d ∷ ds))
    then inl (too_many_actions (length (d ∷ ds)) max_steps)
    else check_actions 0 allow (d ∷ ds)

on_parsed : Dict Target → ℕ → OrError Json → OrError (List UiAction)
unfolding on_actions as_action_list
on_parsed allow max_steps (inl e) = inl e
on_parsed allow max_steps (inr v) = on_actions allow max_steps (as_action_list v)

-- `parse_llm_actions`; a `max_steps` that is not positive is 0
unfoldable pub parse_llm_actions :
    (Text → Option Json) → Text → Dict Target → ℕ → OrError (List UiAction)
unfolding on_parsed extract_json
parse_llm_actions loads raw allow zero = inl max_steps_must_be_positive
parse_llm_actions loads raw allow (suc n) = on_parsed allow (suc n) (extract_json loads raw)
