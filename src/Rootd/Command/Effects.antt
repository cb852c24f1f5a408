-- ===== src/Rootd/Command/Effects.antt =====
-- What an allowed command does to the host.
use ai_ops_runner.Base.{
  get_or, string_eq, contains, String, ◌≡◌, ap, ◌∙◌, true, none, some, List, [], ◌∷◌, ◌++◌, arith,
}
use ai_ops_runner.Base.Dict
use ai_ops_runner.Base.Dict.{Dict}
use ai_ops_runner.Base.Json.{Json}
use ai_ops_runner.Policy.{Policy, PolicyResult, arg, validate_rootd_command}
use ai_ops_runner.Policy.Allowlist.{Meets, restriction, validate_rootd_command_iff}
use ai_ops_runner.Rootd.Exec.{Host, Executed, process, word, value, exec_systemctl}
use ai_ops_runner.Rootd.Command.{
  World, Reply, choose_run_id, command_args, route, write_audit, audited, finish, handle_command,
}

abbrev pub allowed_units : Policy → String → List String
allowed_units p c = elim (Dict.get p.rootd_allowlist c) [
  | none ↦ []
  | some e ↦ get_or e.allowed_units []
]

handle_command-allowed :
    (h : Host) (p : Policy) (fresh c : String) (request : Dict Json) (w : World)
    → (validate_rootd_command p c (command_args request)).allowed ≡ true
    → handle_command h p fresh c request w
      ≡ finish c
          (choose_run_id request fresh)
          request
          (validate_rootd_command p c (command_args request))
          (route h c (command_args request))
          w
unfolding handle_command
handle_command-allowed h p fresh c request w ok = ground arith

effects-finish :
    (c : String) (v : Json) (request : Dict Json) (r : PolicyResult) (x : Executed) (w : World)
    → (finish c v request r (some x) w).0.effects ≡ w.effects ++ x.0
unfolding finish audited write_audit
effects-finish c v request r x w = ground arith

-- An allowed restart command has one effect: the restart of a unit of the policy's list.
restart_within :
    (h : Host) (p : Policy) (fresh : String) (request : Dict Json) (w : World)
    → (validate_rootd_command p "systemctl_restart" (command_args request)).allowed ≡ true
    → (u : String) × (contains (allowed_units p "systemctl_restart") u ≡ true)
      × ((handle_command h p fresh "systemctl_restart" request w).0.effects
          ≡ w.effects ++ process (word "systemctl" ∷ word "restart" ∷ value (Json.str u) ∷ []) ∷ [])
unfolding handle_command exec_systemctl route restriction arg
restart_within h p fresh request w ok =
    let (e, entry, met) =
      (validate_rootd_command_iff p "systemctl_restart" (command_args request)).0 ok in
    let (u, is_unit, listed) : Meets (command_args request)
        (some ("unit", get_or e.allowed_units [])) =
      met in
    (
      u,
      ground (arith, entry, listed),
      ap (λ (r : Reply). r.0.effects)
            (handle_command-allowed h p fresh "systemctl_restart" request w ok)
          ∙ effects-finish "systemctl_restart" (choose_run_id request fresh) request
              (validate_rootd_command p "systemctl_restart" (command_args request)) _ w
          ∙ ap (λ v. w.effects ++ process (word "systemctl" ∷ word "restart" ∷ value v ∷ []) ∷ [])
              is_unit,
    )
