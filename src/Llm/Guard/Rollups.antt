-- ===== src/Llm/Guard/Rollups.antt =====
-- `rollups_by_day` of src/llm/cost_tracker.py, and that every view adds up to the same cost.
use ai_ops_runner.Base.{
  ltb, leb, if◌then◌else◌, Comparable, ◌==◌, nat_eq, string_eq, ℕ, ◌+◌, ◌-◌, String, ◌≡◌, refl, ap,
  ◌∙◌, subst, Bool, true, false, List, [], ◌∷◌, arith,
}
use ai_ops_runner.Llm.Guard.{UsageRecord, Ledger, spend}

-- the sum of the entries
unfoldable pub total {ℓ} : {K : Type ℓ} → List (K × ℕ) → ℕ
total [] = 0
total ((j, m) ∷ d) = m + total d

-- `defaultdict(float)`: d[k] += cost
module _ {ℓ} {K : Type ℓ} ⦃c : Comparable K⦄ where
  unfoldable pub bump : List (K × ℕ) → K → ℕ → List (K × ℕ)
  bump [] k n = (k, n) ∷ []
  bump ((j, m) ∷ d) k n = if j == k then (j, m + n) ∷ d else (j, m) ∷ bump d k n

  pub total-bump : (d : List (K × ℕ)) (k : K) (n : ℕ) → total (bump d k n) ≡ total d + n
  unfolding bump total
  total-bump [] k n = omega arith
  total-bump ((j, m) ∷ d) k n = ground (arith, total-bump d k n)

pub record Rollups : Type 0 where
  pub by_day : List (ℕ × ℕ)
  pub by_project : List (String × ℕ)
  pub by_action : List (String × ℕ)
  pub by_model : List (String × ℕ)

-- `r.get(key) or default`
or_default : String → String → String
or_default d s = if s == "" then d else s

add_record : UsageRecord → Rollups → Rollups
unfolding or_default
add_record r o = record {
  by_day = bump ⦃c = nat_eq⦄ o.by_day r.date r.cost_usd;
  by_project = bump o.by_project (or_default "default" r.project_id) r.cost_usd;
  by_action = bump o.by_action (or_default "unknown" r.action) r.cost_usd;
  by_model = bump o.by_model (or_default "unknown" r.model) r.cost_usd;
}

roll : ℕ → Rollups → Ledger → Rollups
unfolding add_record
roll cutoff o [] = o
roll cutoff o (r ∷ l) = roll cutoff (if ltb r.date cutoff then o else add_record r o) l

abbrev empty : Rollups
empty = record { by_day = []; by_project = []; by_action = []; by_model = [] }

-- `rollups_by_day(days)` on a day
unfoldable pub rollups_by_day : ℕ → ℕ → Ledger → Rollups
unfolding roll
rollups_by_day today days l = roll (today - days) empty l

abbrev pub AllTotal : Rollups → ℕ → Type 0
AllTotal o n =
    (total o.by_day ≡ n)
    × (total o.by_project ≡ n)
    × (total o.by_action ≡ n)
    × (total o.by_model ≡ n)

add_record-AllTotal :
    (r : UsageRecord) (o : Rollups) (n : ℕ)
    → AllTotal o n
    → AllTotal (add_record r o) (n + r.cost_usd)
unfolding add_record
add_record-AllTotal r o n h = (
  total-bump ⦃c = nat_eq⦄ o.by_day _ _ ∙ ap (λ (t : ℕ). t + r.cost_usd) h.0,
  total-bump o.by_project _ _ ∙ ap (λ (t : ℕ). t + r.cost_usd) h.1,
  total-bump o.by_action _ _ ∙ ap (λ (t : ℕ). t + r.cost_usd) h.2,
  total-bump o.by_model _ _ ∙ ap (λ (t : ℕ). t + r.cost_usd) h.3,
)

keep-AllTotal :
    (old : Bool) (r : UsageRecord) (o : Rollups) (n : ℕ)
    → AllTotal o n
    → AllTotal (if old then o else add_record r o) (n + (if old then 0 else r.cost_usd))
keep-AllTotal true r o n h = omega arith
keep-AllTotal false r o n h = add_record-AllTotal r o n h

roll-AllTotal :
    (cutoff : ℕ) (o : Rollups) (l : Ledger) (n : ℕ)
    → AllTotal o n
    → AllTotal (roll cutoff o l) (n + spend (λ r. leb cutoff r.date) l)
unfolding roll spend
roll-AllTotal cutoff o [] n h = omega arith
roll-AllTotal cutoff o (r ∷ l) n h =
    let old = ltb r.date cutoff in
    let kept = if old then o else add_record r o in
    subst (λ (k : ℕ). AllTotal (roll cutoff kept l) k) (ground arith)
      (roll-AllTotal cutoff kept l (n + (if old then 0 else r.cost_usd))
        (keep-AllTotal old r o n h))

-- The four views of a roll-up have one total: the cost of the records of the window.
pub rollups_by_day-AllTotal :
    (today days : ℕ) (l : Ledger)
    → AllTotal (rollups_by_day today days l) (spend (λ r. leb (today - days) r.date) l)
unfolding rollups_by_day total
rollups_by_day-AllTotal today days l =
    subst (λ (k : ℕ). AllTotal (roll (today - days) empty l) k) (omega arith)
      (roll-AllTotal (today - days) empty l 0 (refl, refl, refl, refl))
