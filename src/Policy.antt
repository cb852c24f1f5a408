-- ===== src/Policy.antt =====
-- ops/policy/policy_evaluator.py: the policy engine for privilege tiers, with its rootd allowlist.
-- The text of a reason is a constructor that carries the interpolated values.
pub mod Laws
pub mod Allowlist
mod Samples
use ai_ops_runner.Base.{
  if◌then◌else◌, get_or, length, keep, ◌==◌, string_eq, contains, ℕ, String, Bool, true, false, not,
  ◌&&◌, Option, none, some, List, [], map,
}
use ai_ops_runner.Base.Dict
use ai_ops_runner.Base.Dict.{Dict}
use ai_ops_runner.Base.Json.{Json}

pub record Tier : Type 0 where
  pub level : Option ℕ
  pub requires_rootd : Option Bool
  pub requires_human_approval : Option Bool

pub record Action : Type 0 where
  pub tier : Option String

pub record AllowEntry : Type 0 where
  pub allowed_units : Option (List String)
  pub allowed_targets : Option (List String)
  pub allowed_paths : Option (List String)

-- permissions.json, as `PolicyEvaluator.__init__` reads it
pub record Policy : Type 0 where
  pub version : Option String
  pub tiers : Dict Tier
  pub actions : Dict Action
  pub rootd_allowlist : Dict AllowEntry

pub data Reason : Type 0 where
  unknown_action : String → Reason
  undefined_tier : Option String → Reason
  needs_approval : String → String → Reason
  allowed_at : String → Reason
  unknown_command : String → Reason
  unit_not_allowed : Json → String → Reason
  target_not_allowed : Json → Reason
  path_not_allowed : Json → Reason
  command_allowed : String → Reason

pub data Subject : Type 0 where
  registry : String → Subject
  rootd : String → Subject

pub record PolicyResult : Type 0 where
  pub allowed : Bool
  pub action : Subject
  pub tier : Option String
  pub reason : Reason
  pub requires_rootd : Bool
  pub requires_human_approval : Bool

-- `tier_name not in self._tiers`, where the name may be missing
unfoldable pub find_tier : Policy → Option String → Option Tier
find_tier p none = none
find_tier p (some n) = Dict.get p.tiers n

deny : Subject → Option String → Reason → PolicyResult
deny a t r = record {
  allowed = false;
  action = a;
  tier = t;
  reason = r;
  requires_rootd = false;
  requires_human_approval = false;
}

evaluate_tier : String → Bool → Option String → String → Tier → PolicyResult
evaluate_tier a approved tier_name shown t =
    let needs_rootd = get_or t.requires_rootd false in
    let needs_human = get_or t.requires_human_approval false in
    if needs_human && not approved
    then record {
      allowed = false;
      action = registry a;
      tier = tier_name;
      reason = needs_approval a shown;
      requires_rootd = needs_rootd;
      requires_human_approval = true;
    }
    else record {
      allowed = true;
      action = registry a;
      tier = tier_name;
      reason = allowed_at shown;
      requires_rootd = needs_rootd;
      requires_human_approval = needs_human;
    }

evaluate_def : Policy → String → Bool → Action → PolicyResult
unfolding deny evaluate_tier find_tier
evaluate_def p a approved d = elim (find_tier p d.tier) [
  | none ↦ deny (registry a) d.tier (undefined_tier d.tier)
  | some t ↦ evaluate_tier a approved d.tier (get_or d.tier "") t
]

-- `PolicyEvaluator.evaluate`
unfoldable pub evaluate : Policy → String → Bool → PolicyResult
unfolding deny evaluate_def
evaluate p a approved = elim (Dict.get p.actions a) [
  | none ↦ deny (registry a) none (unknown_action a)
  | some d ↦ evaluate_def p a approved d
]

-- `PolicyEvaluator.get_tier`
unfoldable pub get_tier : Policy → String → Option String
get_tier p a = elim (Dict.get p.actions a) [ none ↦ none | some d ↦ d.tier ]

-- `not tier_name or tier_name not in self._tiers`: the empty name counts as missing
tier_of : Policy → String → Option Tier
unfolding get_tier
tier_of p a = elim (get_tier p a) [
  | none ↦ none
  | some n ↦ if n == "" then none else Dict.get p.tiers n
]

-- `PolicyEvaluator.requires_rootd`
unfoldable pub requires_rootd : Policy → String → Bool
unfolding tier_of
requires_rootd p a = elim (tier_of p a) [ none ↦ false | some t ↦ get_or t.requires_rootd false ]

-- `PolicyEvaluator.requires_human_approval`: an unknown action needs approval
unfoldable pub requires_human_approval : Policy → String → Bool
unfolding tier_of
requires_human_approval p a = elim (tier_of p a) [
  | none ↦ true
  | some t ↦ get_or t.requires_human_approval false
]

-- the test of `list_actions_by_tier`
unfoldable pub at_tier : String → String × Action → Bool
at_tier n (a, d) = elim d.tier [ none ↦ false | some m ↦ m == n ]

-- `PolicyEvaluator.list_actions_by_tier`
unfoldable pub list_actions_by_tier : Policy → String → List String
unfolding at_tier
list_actions_by_tier p n = map (λ e. e.0) (keep (at_tier n) p.actions)

pub record TierSummary : Type 0 where
  pub level : Option ℕ
  pub requires_rootd : Bool
  pub requires_human_approval : Bool
  pub action_count : ℕ

-- `PolicyEvaluator.to_summary`
unfoldable pub to_summary : Policy → String × Dict TierSummary
unfolding list_actions_by_tier
to_summary p = (
  get_or p.version "unknown",
  map
      (λ (e : String × Tier). (
        e.0,
        record {
          level = e.1.level;
          requires_rootd = get_or e.1.requires_rootd false;
          requires_human_approval = get_or e.1.requires_human_approval false;
          action_count = length (list_actions_by_tier p e.0);
        },
      ))
      p.tiers,
)

-- `value not in allowed`, for a value of the request: only a text can be a member
unfoldable pub member : List String → Json → Bool
member xs (Json.str s) = contains xs s
member xs _ = false

-- `args.get(key, "")`
unfoldable pub arg : Dict Json → String → Json
arg args k = get_or (Dict.get args k) (Json.str "")

allow_rootd : String → PolicyResult
allow_rootd c = record {
  allowed = true;
  action = rootd c;
  tier = some "privileged_ops";
  reason = command_allowed c;
  requires_rootd = true;
  requires_human_approval = false;
}

deny_rootd : String → Reason → PolicyResult
deny_rootd c r = record {
  allowed = false;
  action = rootd c;
  tier = some "privileged_ops";
  reason = r;
  requires_rootd = true;
  requires_human_approval = false;
}

check_entry : String → Dict Json → AllowEntry → PolicyResult
unfolding allow_rootd deny_rootd
check_entry c args e =
    if c == "systemctl_restart"
    then (if member (get_or e.allowed_units []) (arg args "unit")
        then allow_rootd c
        else deny_rootd c (unit_not_allowed (arg args "unit") c))
    else if c == "systemctl_enable"
    then (if member (get_or e.allowed_units []) (arg args "unit")
        then allow_rootd c
        else deny_rootd c (unit_not_allowed (arg args "unit") c))
    else if c == "tailscale_serve"
    then (if member (get_or e.allowed_targets []) (arg args "target")
        then allow_rootd c
        else deny_rootd c (target_not_allowed (arg args "target")))
    else if c == "write_etc_config"
    then (if member (get_or e.allowed_paths []) (arg args "path")
        then allow_rootd c
        else deny_rootd c (path_not_allowed (arg args "path")))
    else allow_rootd c

-- `PolicyEvaluator.validate_rootd_command`
unfoldable pub validate_rootd_command : Policy → String → Dict Json → PolicyResult
unfolding check_entry deny_rootd
validate_rootd_command p c args = elim (Dict.get p.rootd_allowlist c) [
  | none ↦ deny_rootd c (unknown_command c)
  | some e ↦ check_entry c args e
]
