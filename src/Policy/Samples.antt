-- ===== src/Policy/Samples.antt =====
-- The policy of ops/policy/permissions.json in small, and the theorems at it.
use ai_ops_runner.Base.{ℕ, ◌≡◌, refl, ◌↔◌, Bool, true, false, none, some, [], ◌∷◌}
use ai_ops_runner.Base.Dict
use ai_ops_runner.Base.Dict.{Dict}
use ai_ops_runner.Base.Json.{Json}
use ai_ops_runner.Policy.{Policy, Tier, evaluate, member, arg, validate_rootd_command}
use ai_ops_runner.Policy.Laws.{evaluate_iff, evaluate_monotone, IsPermitted}
use ai_ops_runner.Policy.Allowlist.{Meets, restriction, validate_rootd_command_iff}

abbrev tier_at : ℕ → Bool → Bool → Tier
tier_at n human root = record {
  level = some n;
  requires_rootd = some root;
  requires_human_approval = some human;
}

abbrev permissions : Policy
permissions = record {
  version = some "1.0.0";
  tiers = ("readonly", tier_at 0 false false) ∷ ("destructive_ops", tier_at 3 true true) ∷ [];
  actions =
      ("doctor", record { tier = some "readonly" })
      ∷ ("rollback", record { tier = some "destructive_ops" })
      ∷ [];
  rootd_allowlist =
      (
        "systemctl_restart",
        record {
          allowed_units = some ("openclaw-hostd.service" ∷ []);
          allowed_targets = none;
          allowed_paths = none;
        },
      )
      ∷ [];
}

evaluate_iff_example :
    ((evaluate permissions "rollback" true).allowed ≡ true)
    ↔ IsPermitted permissions "rollback" true
evaluate_iff_example = evaluate_iff permissions "rollback" true

evaluate_monotone_example : (evaluate permissions "doctor" true).allowed ≡ true
unfolding evaluate Dict.get
evaluate_monotone_example = evaluate_monotone permissions "doctor" refl

rollback_denied : (evaluate permissions "rollback" false).allowed ≡ false
unfolding evaluate Dict.get
rollback_denied = refl

abbrev restart_hostd : Dict Json
restart_hostd = ("unit", Json.str "openclaw-hostd.service") ∷ []

validate_rootd_command_iff_example :
    ((validate_rootd_command permissions "systemctl_restart" restart_hostd).allowed ≡ true) ↔ (
      (e : _) × (Dict.get permissions.rootd_allowlist "systemctl_restart" ≡ some e)
      × Meets restart_hostd (restriction "systemctl_restart" e))
validate_rootd_command_iff_example =
    validate_rootd_command_iff permissions "systemctl_restart" restart_hostd

-- A reset of Tailscale Serve names no target, so the target's allowlist refuses it.
reset_refused :
    (validate_rootd_command
      (record permissions {
        rootd_allowlist =
            (
              "tailscale_serve",
              record {
                allowed_units = none;
                allowed_targets = some ("tcp://127.0.0.1:8443" ∷ []);
                allowed_paths = none;
              },
            )
            ∷ [];
      })
      "tailscale_serve"
      (("subcmd", Json.str "reset") ∷ [])).allowed
    ≡ false
unfolding validate_rootd_command member arg Dict.get
reset_refused = refl
