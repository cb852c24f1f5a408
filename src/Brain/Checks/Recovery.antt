-- ===== src/Brain/Checks/Recovery.antt =====
-- When the brain loop reports a recovery.
use ai_ops_runner.Base.{
  Bool-cases, ◌≡◌, refl, ap, inl, inr, Bool, true, false, Option, none, some, List, arith,
}
use ai_ops_runner.Base.Text.{Text}
use ai_ops_runner.Brain.Checks.{
  checks_eq, MatrixStatus, pass, fail, Event, fail_to_pass, Seen, alert, quiet, on_first, on_change,
  decide_event,
}

is_recovery : Option Event → Bool
is_recovery (some fail_to_pass) = true
is_recovery _ = false

on_first-recovery :
    (now : MatrixStatus) (b : Bool) → is_recovery (on_first now b).0 ≡ true → now ≡ pass
unfolding on_first alert quiet is_recovery
on_first-recovery pass b h = refl
on_first-recovery fail true h = cc
on_first-recovery fail false h = cc

on_change-recovery :
    (was now : MatrixStatus) (a b : List Text)
    → is_recovery (on_change was now a b).0 ≡ true
    → now ≡ pass
unfolding on_change alert quiet is_recovery
on_change-recovery was pass a b h = refl
on_change-recovery pass fail a b h = cc
on_change-recovery fail fail a b h = elim (Bool-cases (checks_eq a b)) [
  | inl e ↦ absurd (ground (arith, h, e))
  | inr e ↦ absurd (ground (arith, h, e))
]

decide_event-recovery :
    (prev : Option Seen) (now : Seen) (b : Bool)
    → is_recovery (decide_event prev now b).0 ≡ true
    → now.status ≡ pass
unfolding decide_event
decide_event-recovery none now b h = on_first-recovery now.status b h
decide_event-recovery (some prev) now b h = on_change-recovery prev.status now.status _ _ h

-- a recovery is an event of a passing verdict
pub fail_to_pass_status :
    (prev : Option Seen) (now : Seen) (b : Bool)
    → (decide_event prev now b).0 ≡ some fail_to_pass
    → now.status ≡ pass
unfolding is_recovery
fail_to_pass_status prev now b h = decide_event-recovery prev now b (ap is_recovery h)
