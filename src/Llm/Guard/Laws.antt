-- ===== src/Llm/Guard/Laws.antt =====
-- When the spending guard trips, and that it stays tripped.
use ai_ops_runner.Base.{
  leb, nat_beq, ℕ, ◌+◌, ◌-◌, ◌≤◌, ◌<◌, String, ◌≡◌, ap, ◌∙◌, ◌≢◌, ◌↔◌, Bool, true, none, some, [],
  ◌∷◌, ◌++◌, arith,
}
use ai_ops_runner.Llm.Guard.{
  UsageRecord, Ledger, day_of, round6, log_usage, spend, spend_today, spend_last_n_hours, Limits,
  GuardArtifact, check_guard,
}

-- The guard lets a call pass exactly when the last hour and the day are both below their limits.
pub check_guard_iff :
    (c : Limits) (hour : ℕ) (run_id : String) (l : Ledger)
    → (check_guard c hour run_id l ≡ none) ↔ (
        (spend_last_n_hours 1 hour l < c.hourly_usd_limit)
        × (spend_today hour l < c.daily_usd_limit))
unfolding check_guard
check_guard_iff c hour run_id l = (λ h. ground arith, λ h. ground arith)

spend-append :
    (test : UsageRecord → Bool) (l m : Ledger) → spend test (l ++ m) ≡ spend test l + spend test m
unfolding spend
spend-append test [] m = omega arith
spend-append test (r ∷ l) m = omega (arith, spend-append test l m)

spend-one :
    (test : UsageRecord → Bool) (r : UsageRecord) → test r ≡ true → spend test (r ∷ []) ≡ r.cost_usd
unfolding spend
spend-one test r h = ground (arith, h)

-- A tripped guard stays tripped for the rest of the hour, whatever usage is logged after it.
tripped_stays :
    (c : Limits) (hour : ℕ) (run_id : String) (l m : Ledger) (a : GuardArtifact)
    → check_guard c hour run_id l ≡ some a
    → check_guard c hour run_id (l ++ m) ≢ none
unfolding check_guard spend_today spend_last_n_hours
tripped_stays c hour run_id l m a h e = ground (
  arith,
  spend-append (λ (r : UsageRecord). leb (hour - 1) r.hour) l m,
  spend-append (λ (r : UsageRecord). nat_beq r.date (day_of hour)) l m,
)

-- rounding moves a cost by at most 50 units
round6_near : (n : ℕ) → (round6 n ≤ n + 50) × (n ≤ round6 n + 50)
unfolding round6
round6_near n = ground arith

-- A logged call is counted at once: today and the last hour both grow by the rounded cost.
spend-log_usage :
    (hour : ℕ) (project action model provider : String) (i o t cost : ℕ) (l : Ledger)
    → let l' = log_usage hour project action model provider i o t cost l in
      (spend_today hour l' ≡ spend_today hour l + round6 cost)
      × (spend_last_n_hours 1 hour l' ≡ spend_last_n_hours 1 hour l + round6 cost)
unfolding log_usage spend_today spend_last_n_hours
spend-log_usage hour project action model provider i o t cost l = (
  spend-append (λ (r : UsageRecord). nat_beq r.date (day_of hour)) l _
      ∙ ap (λ (n : ℕ). spend_today hour l + n) (spend-one _ _ (ground arith)),
  spend-append (λ (r : UsageRecord). leb (hour - 1) r.hour) l _
      ∙ ap (λ (n : ℕ). spend_last_n_hours 1 hour l + n) (spend-one _ _ (ground arith)),
)
