-- ===== src/Policy/Allowlist.antt =====
-- What `validate_rootd_command` lets through.
use ai_ops_runner.Base.{
  if◌then◌else◌, Option-cases, get_or, ◌==◌, string_eq, contains, String, ◌≡◌, refl, sym, subst,
  ◌↔◌, inl, inr, Bool, true, ◌||◌, Option, none, some, List, [], arith,
}
use ai_ops_runner.Base.Dict
use ai_ops_runner.Base.Dict.{Dict}
use ai_ops_runner.Base.Json.{Json}
use ai_ops_runner.Policy.{Policy, AllowEntry, member, arg, validate_rootd_command, check_entry}

-- The argument that the allowlist entry of a command restricts, with the list of its values.
unfoldable pub restriction : String → AllowEntry → Option (String × List String)
restriction c e =
    if c == "systemctl_restart" || c == "systemctl_enable"
    then some ("unit", get_or e.allowed_units [])
    else if c == "tailscale_serve"
    then some ("target", get_or e.allowed_targets [])
    else if c == "write_etc_config"
    then some ("path", get_or e.allowed_paths [])
    else none

-- The value of the restricted argument is a text of the list.
abbrev pub Meets : Dict Json → Option (String × List String) → Type 0
Meets args none = Unit {0}
Meets args (some (k, values)) =
    (s : String) × (arg args k ≡ Json.str s) × (contains values s ≡ true)

member_iff :
    (xs : List String) (v : Json)
    → (member xs v ≡ true) ↔ ((s : String) × (v ≡ Json.str s) × (contains xs s ≡ true))
unfolding member
member_iff xs (Json.str s) =
    (λ h. (s, refl, h), λ (t, e, h). subst (λ u. member xs u ≡ true) (sym e) h)
member_iff xs v = (λ h. cc, λ (t, e, h). cc)

abbrev meets : Dict Json → Option (String × List String) → Bool
meets args none = true
meets args (some (k, values)) = member values (arg args k)

meets_iff :
    (args : Dict Json) (r : Option (String × List String)) → (meets args r ≡ true) ↔ Meets args r
meets_iff args none = (λ h. tt, λ h. refl)
meets_iff args (some (k, values)) = member_iff values (arg args k)

check_entry-allowed :
    (c : String) (args : Dict Json) (e : AllowEntry)
    → (check_entry c args e).allowed ≡ meets args (restriction c e)
unfolding check_entry restriction
check_entry-allowed c args e = ground arith

-- A rootd command passes exactly when it has an allowlist entry and the argument that the entry
-- restricts, if any, is one of the listed texts.
pub validate_rootd_command_iff :
    (p : Policy) (c : String) (args : Dict Json)
    → ((validate_rootd_command p c args).allowed ≡ true)
      ↔ ((e : AllowEntry) × (Dict.get p.rootd_allowlist c ≡ some e) × Meets args (restriction c e))
unfolding validate_rootd_command
validate_rootd_command_iff p c args = elim (Option-cases (Dict.get p.rootd_allowlist c)) [
  | inl e ↦ (λ h. absurd (ground (arith, e)), λ h. absurd (cc (e, h.1)))
  | inr (d, e) ↦ (
    λ h. (
      d,
      e,
      (meets_iff args (restriction c d)).0 (ground (arith, e, check_entry-allowed c args d)),
    ),
    λ (d', e', m).
        ground (arith, e', check_entry-allowed c args d', (meets_iff args (restriction c d')).1 m),
  )
]
