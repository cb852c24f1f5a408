-- ===== src/Kajabi/Allowed.antt =====
-- What the loop of `parse_llm_actions` lets through of one action.
use ai_ops_runner.Base.{
  Bool-cases, All, ◌==◌, string_eq, contains, ℕ, String, ◌≡◌, refl, sym, ap, ◌∙◌, subst, ◌⊎◌, inl,
  inr, true, false, Option, none, some, List, [], ◌∷◌, arith, unlisted_none,
}
use ai_ops_runner.Base.Dict
use ai_ops_runner.Base.Dict.{Dict}
use ai_ops_runner.Base.Json.{Json, null, bool, int, float, str, arr, obj}
use ai_ops_runner.Kajabi.Payload.{ActionSchemaError}
use ai_ops_runner.Kajabi.{
  Target, UiAction, allowed_action_types, valued_types, extra_keys, check_typed, with_value,
  without_value, check_value, on_target, check_target, check_type, on_keys, check_action,
}

-- an action that types or waits has a text that the target allows; another has no value
abbrev pub CarriesValue : String → Target → Option Json → Option String → Type 0
CarriesValue a spec v value =
    ((contains valued_types a ≡ true)
      × ((w : String) × (v ≡ some (str w))
          × ((w == "") ≡ false)
          × (value ≡ some w)
          × ((spec.typed_values ≡ []) ⊎ (contains spec.typed_values w ≡ true))))
    ⊎ ((contains valued_types a ≡ false) × ((v ≡ none) ⊎ (v ≡ some null)) × (value ≡ none))

-- the action has no other keys, its type is known, and its target is listed for that type
abbrev pub IsAllowed : Dict Target → Dict Json → UiAction → Type 0
IsAllowed allow d x =
    All (λ k. contains ("action" ∷ "target" ∷ "value" ∷ []) k ≡ true) (Dict.keys d)
    × (Dict.get d "action" ≡ some (str x.action))
    × (contains allowed_action_types x.action ≡ true)
    × (Dict.get d "target" ≡ some (str x.target))
    × ((spec : Target) × (Dict.get allow x.target ≡ some spec)
        × (contains spec.actions x.action ≡ true)
        × CarriesValue x.action spec (Dict.get d "value") x.value)

pub right_of {ℓ} : {A : Type ℓ} → A → ActionSchemaError ⊎ A → A
right_of d (inl e) = d
right_of d (inr a) = a

pub inr_injective {ℓ} :
    {A : Type ℓ} (a b : A) → Path (ActionSchemaError ⊎ A) (inr a) (inr b) → a ≡ b
unfolding right_of
inr_injective a b h = ap (right_of a) h

-- the action that the checks make of a type, a target and a value
abbrev made : String → String → Option String → UiAction
made a t v = record { action = a; target = t; value = v }

check_typed_sound :
    (idx : ℕ) (a t v : String) (typed : List String) (x : UiAction)
    → check_typed idx a t typed v ≡ inr x
    → (made a t (some v) ≡ x) × ((typed ≡ []) ⊎ (contains typed v ≡ true))
unfolding check_typed
check_typed_sound idx a t v [] x h = (inr_injective (made a t (some v)) x h, inl refl)
check_typed_sound idx a t v (w ∷ ws) x h = elim (Bool-cases (contains (w ∷ ws) v)) [
  | inl e ↦ (inr_injective (made a t (some v)) x (ground (arith, e, h)), inr e)
  | inr e ↦ absurd (ground (arith, e, h))
]

with_value_sound :
    (idx : ℕ) (a t : String) (spec : Target) (o : Option Json) (x : UiAction)
    → contains valued_types a ≡ true
    → with_value idx a t spec.typed_values o ≡ inr x
    → (made a t x.value ≡ x) × CarriesValue a spec o x.value
unfolding with_value
with_value_sound idx a t spec (some (str v)) x valued h = elim (Bool-cases (v == "")) [
  | inl e ↦ absurd (ground (arith, e, h))
  | inr e ↦
      let c = check_typed_sound idx a t v spec.typed_values x (ground (arith, e, h)) in
      let value : x.value ≡ some v = ap (λ (y : UiAction). y.value) (sym c.0) in
      (ap (made a t) value ∙ c.0, inl (valued, (v, refl, e, value, c.1)))
]
with_value_sound idx a t spec none x valued h = cc
with_value_sound idx a t spec (some null) x valued h = cc
with_value_sound idx a t spec (some (bool b)) x valued h = cc
with_value_sound idx a t spec (some (int n)) x valued h = cc
with_value_sound idx a t spec (some (float s)) x valued h = cc
with_value_sound idx a t spec (some (arr vs)) x valued h = cc
with_value_sound idx a t spec (some (obj fs)) x valued h = cc

without_value_sound :
    (idx : ℕ) (a t : String) (spec : Target) (o : Option Json) (x : UiAction)
    → contains valued_types a ≡ false
    → without_value idx a t o ≡ inr x
    → (made a t x.value ≡ x) × CarriesValue a spec o x.value
unfolding without_value
without_value_sound idx a t spec none x valued h =
    let same = inr_injective (made a t none) x h in
    let value : x.value ≡ none = ap (λ (y : UiAction). y.value) (sym same) in
    (ap (made a t) value ∙ same, inr (valued, inl refl, value))
without_value_sound idx a t spec (some null) x valued h =
    let same = inr_injective (made a t none) x h in
    let value : x.value ≡ none = ap (λ (y : UiAction). y.value) (sym same) in
    (ap (made a t) value ∙ same, inr (valued, inr refl, value))
without_value_sound idx a t spec (some (str s)) x valued h = cc
without_value_sound idx a t spec (some (bool b)) x valued h = cc
without_value_sound idx a t spec (some (int n)) x valued h = cc
without_value_sound idx a t spec (some (float s)) x valued h = cc
without_value_sound idx a t spec (some (arr vs)) x valued h = cc
without_value_sound idx a t spec (some (obj fs)) x valued h = cc

check_value_sound :
    (idx : ℕ) (a t : String) (spec : Target) (o : Option Json) (x : UiAction)
    → check_value idx a t spec o ≡ inr x
    → (made a t x.value ≡ x) × CarriesValue a spec o x.value
unfolding check_value
check_value_sound idx a t spec o x h = elim (Bool-cases (contains valued_types a)) [
  | inl e ↦ with_value_sound idx a t spec o x e (ground (arith, e, h))
  | inr e ↦ without_value_sound idx a t spec o x e (ground (arith, e, h))
]

-- the last part of `IsAllowed`, on the parts of an action
IsListed : Dict Target → String → String → Option Json → UiAction → Type 0
IsListed allow a t v x =
    (made a t x.value ≡ x)
    × ((spec : Target) × (Dict.get allow t ≡ some spec)
        × (contains spec.actions a ≡ true)
        × CarriesValue a spec v x.value)

on_target_sound :
    (idx : ℕ) (allow : Dict Target) (a t : String) (o : Option Target) (v : Option Json)
    (x : UiAction)
    → Dict.get allow t ≡ o
    → on_target idx a t o v ≡ inr x
    → IsListed allow a t v x
unfolding on_target IsListed
on_target_sound idx allow a t none v x e h = cc
on_target_sound idx allow a t (some spec) v x e h = elim (Bool-cases (contains spec.actions a)) [
  | inl y ↦
      let c = check_value_sound idx a t spec v x (ground (arith, y, h)) in (c.0, (spec, e, y, c.1))
  | inr y ↦ absurd (ground (arith, y, h))
]

check_target_sound :
    (idx : ℕ) (allow : Dict Target) (a : String) (o v : Option Json) (x : UiAction)
    → check_target idx allow a o v ≡ inr x
    → (t : String) × (o ≡ some (str t)) × IsListed allow a t v x
unfolding check_target
check_target_sound idx allow a (some (str t)) v x h =
    (t, refl, on_target_sound idx allow a t (Dict.get allow t) v x refl h)
check_target_sound idx allow a none v x h = cc
check_target_sound idx allow a (some null) v x h = cc
check_target_sound idx allow a (some (bool b)) v x h = cc
check_target_sound idx allow a (some (int n)) v x h = cc
check_target_sound idx allow a (some (float s)) v x h = cc
check_target_sound idx allow a (some (arr vs)) v x h = cc
check_target_sound idx allow a (some (obj fs)) v x h = cc

check_type_sound :
    (idx : ℕ) (allow : Dict Target) (o p v : Option Json) (x : UiAction)
    → check_type idx allow o p v ≡ inr x
    → (a : String) × (o ≡ some (str a))
      × (contains allowed_action_types a ≡ true)
      × ((t : String) × (p ≡ some (str t)) × IsListed allow a t v x)
unfolding check_type
check_type_sound idx allow (some (str a)) p v x h =
    elim (Bool-cases (contains allowed_action_types a)) [
      | inl e ↦ (a, refl, e, check_target_sound idx allow a p v x (ground (arith, e, h)))
      | inr e ↦ absurd (ground (arith, e, h))
    ]
check_type_sound idx allow none p v x h = cc
check_type_sound idx allow (some null) p v x h = cc
check_type_sound idx allow (some (bool b)) p v x h = cc
check_type_sound idx allow (some (int n)) p v x h = cc
check_type_sound idx allow (some (float s)) p v x h = cc
check_type_sound idx allow (some (arr vs)) p v x h = cc
check_type_sound idx allow (some (obj fs)) p v x h = cc

on_keys_sound :
    (idx : ℕ) (allow : Dict Target) (d : Dict Json) (extra : List String) (x : UiAction)
    → extra_keys ("action" ∷ "target" ∷ "value" ∷ []) d ≡ extra
    → on_keys idx allow d extra ≡ inr x
    → IsAllowed allow d x
unfolding on_keys extra_keys IsListed
on_keys_sound idx allow d (k ∷ ks) x e h = cc
on_keys_sound idx allow d [] x e h =
    let c =
      check_type_sound idx allow (Dict.get d "action") (Dict.get d "target") (Dict.get d "value") x
        h in
    let P : String → String → Type 0 = λ a t.
      (Dict.get d "action" ≡ some (str a))
      × (contains allowed_action_types a ≡ true)
      × (Dict.get d "target" ≡ some (str t))
      × ((spec : Target) × (Dict.get allow t ≡ some spec)
          × (contains spec.actions a ≡ true)
          × CarriesValue a spec (Dict.get d "value") x.value) in
    let l = c.3 in
    let parts : P x.action x.target =
      subst (λ (y : UiAction). P y.action y.target) l.2.0 (c.1, c.2, l.1, l.2.1) in
    (
      unlisted_none ("action" ∷ "target" ∷ "value" ∷ []) (Dict.keys d) e,
      parts.0,
      parts.1,
      parts.2,
      parts.3,
    )

-- an action that passes is allowed
pub check_action-IsAllowed :
    (idx : ℕ) (allow : Dict Target) (d : Dict Json) (x : UiAction)
    → check_action idx allow d ≡ inr x
    → IsAllowed allow d x
unfolding check_action
check_action-IsAllowed idx allow d x h = on_keys_sound idx allow d _ x refl h
