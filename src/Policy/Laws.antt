-- ===== src/Policy/Laws.antt =====
-- What `PolicyEvaluator.evaluate` and the tier queries promise.
use ai_ops_runner.Base.{
  Bool-cases, Option-cases, get_or, eq_iff, String, ◌≡◌, ◌≢◌, ◌↔◌, inl, inr, Bool, true, false,
  some, arith,
}
use ai_ops_runner.Base.Dict
use ai_ops_runner.Policy.{
  Policy, Tier, Action, find_tier, evaluate, get_tier, requires_rootd, requires_human_approval,
}

-- An action is permitted when it is registered, its tier is defined, and the approval that the
-- tier asks for is there.
pub record IsPermitted (p : Policy) (a : String) (approved : Bool) : Type 0 where
  pub def : Action
  pub tier : Tier
  pub registered : Dict.get p.actions a ≡ some def
  pub defined : find_tier p def.tier ≡ some tier
  pub consent : get_or tier.requires_human_approval false ≡ true → approved ≡ true

allowed→IsPermitted :
    (p : Policy) (a : String) (approved : Bool)
    → (evaluate p a approved).allowed ≡ true
    → IsPermitted p a approved
unfolding evaluate
allowed→IsPermitted p a approved h = elim (Option-cases (Dict.get p.actions a)) [
  | inl e ↦ absurd (ground (arith, e))
  | inr (d, e) ↦ elim (Option-cases (find_tier p d.tier)) [
    | inl e' ↦ absurd (ground (arith, e, e'))
    | inr (t, e') ↦ record {
      def = d;
      tier = t;
      registered = e;
      defined = e';
      consent = λ c. ground (arith, e, e');
    }
  ]
]

-- `evaluate` allows an action exactly when it is permitted: registered, of a defined tier, and
-- approved where the tier requires it.
pub evaluate_iff :
    (p : Policy) (a : String) (approved : Bool)
    → ((evaluate p a approved).allowed ≡ true) ↔ IsPermitted p a approved
unfolding evaluate
evaluate_iff p a approved = (
  allowed→IsPermitted p a approved,
  λ h. ground (arith, h.registered, h.defined, Bool-cases approved),
)

-- What `evaluate` allows with no approval, of a tier whose name is not empty, is an action for
-- which `requires_human_approval` is false; and the result has the flag of `requires_rootd`.
evaluate_agrees :
    (p : Policy) (a : String)
    → get_tier p a ≢ some ""
    → (evaluate p a false).allowed ≡ true
    → (requires_human_approval p a ≡ false)
      × ((evaluate p a false).requires_rootd ≡ requires_rootd p a)
unfolding evaluate requires_human_approval requires_rootd find_tier get_tier
evaluate_agrees p a n h = elim (Option-cases (Dict.get p.actions a)) [
  | inl e ↦ absurd (ground (arith, e))
  | inr (d, e) ↦ elim (Option-cases d.tier) [
    | inl e' ↦ absurd (ground (arith, e, e'))
    | inr (n', e') ↦ ground (arith, e, e', eq_iff n' "", Option-cases (Dict.get p.tiers n'))
  ]
]

-- An approval never takes a permission away.
pub evaluate_monotone :
    (p : Policy) (a : String)
    → (evaluate p a false).allowed ≡ true
    → (evaluate p a true).allowed ≡ true
unfolding evaluate
evaluate_monotone p a h = ground arith
