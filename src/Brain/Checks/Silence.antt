-- ===== src/Brain/Checks/Silence.antt =====
-- When the brain loop has nothing to say.
use ai_ops_runner.Base.{◌≡◌, refl, ◌↔◌, Bool, true, none, some, List, [], ◌∷◌, arith}
use ai_ops_runner.Base.Text.{Text, text_eq_iff}
use ai_ops_runner.Brain.Checks.{
  checks_eq, MatrixStatus, pass, fail, Seen, alert, quiet, on_change, normalize_failed_checks,
  decide_event,
}
use ai_ops_runner.Brain.Checks.Sets.{SameChecks, normalize_failed_checks_iff}

-- all is well as before, or the same checks fail
unfoldable pub Stays : MatrixStatus → MatrixStatus → List Text → List Text → Type 0
Stays pass pass was now = Unit
Stays pass fail was now = ⊥
Stays fail pass was now = ⊥
Stays fail fail was now = SameChecks was now

checks_eq_iff : (ts us : List Text) → (checks_eq ts us ≡ true) ↔ (ts ≡ us)
checks_eq_iff [] [] = (λ h. refl, λ e. refl)
checks_eq_iff [] (u ∷ us) = (λ h. cc, λ e. cc)
checks_eq_iff (t ∷ ts) [] = (λ h. cc, λ e. cc)
checks_eq_iff (t ∷ ts) (u ∷ us) = ground (arith, text_eq_iff t u, checks_eq_iff ts us)

fail-fail_iff : (xs ys : List Text) → ((on_change fail fail xs ys).0 ≡ none) ↔ (xs ≡ ys)
unfolding on_change alert quiet
fail-fail_iff xs ys = ground (arith, checks_eq_iff xs ys)

on_change_iff :
    (was now : MatrixStatus) (a b : List Text)
    → ((on_change was now (normalize_failed_checks a) (normalize_failed_checks b)).0 ≡ none)
      ↔ Stays was now a b
unfolding on_change alert quiet Stays
on_change_iff pass pass a b = (λ h. tt, λ e. refl)
on_change_iff pass fail a b = (λ h. cc, λ e. absurd e)
on_change_iff fail pass a b = (λ h. cc, λ e. absurd e)
on_change_iff fail fail a b =
    let raw = fail-fail_iff (normalize_failed_checks a) (normalize_failed_checks b) in
    let sets = normalize_failed_checks_iff a b in
    (λ h. sets.0 (raw.0 h), λ same. raw.1 (sets.1 same))

-- After a first run there is no event exactly when all is well as before, or the run failed before and
-- fails again with the same set of checks: the texts that are left of its items once they are
-- stripped, without the empty ones.
pub decide_event_iff :
    (prev now : Seen) (alert_on_first_fail : Bool)
    → ((decide_event (some prev) now alert_on_first_fail).0 ≡ none)
      ↔ Stays prev.status now.status prev.failed_checks now.failed_checks
unfolding decide_event
decide_event_iff prev now first =
    on_change_iff prev.status now.status prev.failed_checks now.failed_checks
