-- ===== src/Kajabi/Bounded.antt =====
-- What `parse_llm_actions` lets through.
use ai_ops_runner.Base.{
  ltb, Bool-cases, length, ℕ, zero, suc, ◌≤◌, ◌<◌, ◌≡◌, refl, sym, ap, subst, inl, inr, Option,
  List, [], ◌∷◌, arith,
}
use ai_ops_runner.Base.Dict.{Dict}
use ai_ops_runner.Base.Json.{Json}
use ai_ops_runner.Base.Text.{Text}
use ai_ops_runner.Kajabi.Payload.{OrError, extract_json}
use ai_ops_runner.Kajabi.Allowed.{IsAllowed, check_action-IsAllowed, inr_injective}
use ai_ops_runner.Kajabi.{
  Target, UiAction, as_action_list, check_action, add_action, check_actions, on_actions, on_parsed,
  parse_llm_actions,
}

abbrev pub AllAllowed : Dict Target → List (Dict Json) → List UiAction → Type 0
AllAllowed allow [] [] = Unit {0}
AllAllowed allow [] (x ∷ xs) = ⊥
AllAllowed allow (d ∷ ds) [] = ⊥
AllAllowed allow (d ∷ ds) (x ∷ xs) = IsAllowed allow d x × AllAllowed allow ds xs

-- what an accepted answer of the model is
abbrev pub IsBounded : (Text → Option Json) → Text → Dict Target → ℕ → List UiAction → Type 0
IsBounded loads raw allow max_steps xs =
    (v : Json) × (extract_json loads raw ≡ inr v)
    × ((ds : List (Dict Json)) × (as_action_list v ≡ inr ds)
        × AllAllowed allow ds xs
        × (0 < length xs)
        × (length xs ≤ max_steps))

add_action_sound :
    (c : OrError UiAction) (rest : OrError (List UiAction)) (xs : List UiAction)
    → add_action c rest ≡ inr xs
    → (y : UiAction) × ((ys : List UiAction) × (c ≡ inr y) × (rest ≡ inr ys) × (xs ≡ y ∷ ys))
unfolding add_action
add_action_sound (inl e) rest xs h = cc
add_action_sound (inr a) (inl e) xs h = cc
add_action_sound (inr a) (inr ys) xs h = (a, (ys, refl, refl, sym (inr_injective (a ∷ ys) xs h)))

check_actions_sound :
    (idx : ℕ) (allow : Dict Target) (ds : List (Dict Json)) (xs : List UiAction)
    → check_actions idx allow ds ≡ inr xs
    → AllAllowed allow ds xs × (length xs ≡ length ds)
unfolding check_actions
check_actions_sound idx allow [] xs h =
    subst (λ ys. AllAllowed allow [] ys × (length ys ≡ 0)) (inr_injective [] xs h) (tt, refl)
check_actions_sound idx allow (d ∷ ds) xs h =
    let c = add_action_sound (check_action idx allow d) (check_actions (suc idx) allow ds) xs h in
    let y = c.0 in
    let ys = c.1.0 in
    let rest = check_actions_sound (suc idx) allow ds ys c.1.2 in
    subst (λ zs. AllAllowed allow (d ∷ ds) zs × (length zs ≡ suc (length ds))) (sym c.1.3)
      ((check_action-IsAllowed idx allow d y c.1.1, rest.0), ap suc rest.1)

on_actions_sound :
    (allow : Dict Target) (max_steps : ℕ) (o : OrError (List (Dict Json))) (xs : List UiAction)
    → on_actions allow max_steps o ≡ inr xs
    → (ds : List (Dict Json)) × (o ≡ inr ds)
      × AllAllowed allow ds xs
      × (0 < length xs)
      × (length xs ≤ max_steps)
unfolding on_actions
on_actions_sound allow max_steps (inl e) xs h = cc
on_actions_sound allow max_steps (inr []) xs h = cc
on_actions_sound allow max_steps (inr (d ∷ ds)) xs h =
    elim (Bool-cases (ltb max_steps (length (d ∷ ds)))) [
      | inl e ↦ absurd (ground (arith, e, h))
      | inr e ↦
          let c = check_actions_sound 0 allow (d ∷ ds) xs (ground (arith, e, h)) in
          (d ∷ ds, refl, c.0, ground (arith, c.1), ground (arith, e, c.1))
    ]

on_parsed_sound :
    (allow : Dict Target) (max_steps : ℕ) (o : OrError Json) (xs : List UiAction)
    → on_parsed allow max_steps o ≡ inr xs
    → (v : Json) × (o ≡ inr v)
      × ((ds : List (Dict Json)) × (as_action_list v ≡ inr ds)
          × AllAllowed allow ds xs
          × (0 < length xs)
          × (length xs ≤ max_steps))
unfolding on_parsed
on_parsed_sound allow max_steps (inl e) xs h = cc
on_parsed_sound allow max_steps (inr v) xs h =
    (v, refl, on_actions_sound allow max_steps (as_action_list v) xs h)

-- When `parse_llm_actions` accepts an answer, it returns at least one and at most `max_steps` actions,
-- one for each object of the answer and in the same order. Each has a known type, a target that the
-- allowlist names for that type, no unknown key, a text from the target's list, if the list is not
-- empty, where the type carries one, and no value where it does not.
pub parse_llm_actions-IsBounded :
    (loads : Text → Option Json) (raw : Text) (allow : Dict Target) (max_steps : ℕ)
    (xs : List UiAction)
    → parse_llm_actions loads raw allow max_steps ≡ inr xs
    → IsBounded loads raw allow max_steps xs
unfolding parse_llm_actions
parse_llm_actions-IsBounded loads raw allow zero xs h = cc
parse_llm_actions-IsBounded loads raw allow (suc n) xs h =
    on_parsed_sound allow (suc n) (extract_json loads raw) xs h
