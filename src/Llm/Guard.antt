-- ===== src/Llm/Guard.antt =====
-- src/llm/cost_tracker.py: the usage log, the sums over it and the spending guard.
-- A time is a count of hours; the fixed-width texts that the code compares order as these counts.
pub mod Rollups
pub mod Laws
use ai_ops_runner.Base.{
  ltb, leb, nat_beq, if◌then◌else◌, get_or, ℕ, ◌+◌, ◌-◌, ◌*◌, ◌/◌, ◌%◌, String, Bool, Option, none,
  some, List, [], ◌∷◌, ◌++◌,
}

-- one line of usage.jsonl, its cost in units of 10^-8 dollars
pub record UsageRecord : Type 0 where
  pub date : ℕ
  pub hour : ℕ
  pub project_id : String
  pub action : String
  pub model : String
  pub provider : String
  pub prompt_tokens : ℕ
  pub completion_tokens : ℕ
  pub total_tokens : ℕ
  pub cost_usd : ℕ

abbrev pub Ledger : Type 0
Ledger = List UsageRecord

abbrev pub day_of : ℕ → ℕ
day_of hour = hour / 24

-- `round(cost, 6)`: to a multiple of 100 units, a tie to the even side
unfoldable pub round6 : ℕ → ℕ
round6 n =
    let q = n / 100 in
    let r = n % 100 in
    if ltb r 50 then q * 100 else if ltb 50 r then (q + 1) * 100 else (q + q % 2) * 100

-- `log_usage` at an hour
unfoldable pub log_usage : ℕ → String → String → String → String → ℕ → ℕ → ℕ → ℕ → Ledger → Ledger
unfolding round6
log_usage hour project_id action model provider prompt completion total cost l =
    l
    ++ record {
      date = day_of hour;
      hour = hour;
      project_id = project_id;
      action = action;
      model = model;
      provider = provider;
      prompt_tokens = prompt;
      completion_tokens = completion;
      total_tokens = total;
      cost_usd = round6 cost;
    }
      ∷ []

-- the cost of the records that pass a test
unfoldable pub spend : (UsageRecord → Bool) → Ledger → ℕ
spend test [] = 0
spend test (r ∷ l) = (if test r then r.cost_usd else 0) + spend test l

unfoldable pub spend_today : ℕ → Ledger → ℕ
spend_today hour l = spend (λ r. nat_beq r.date (day_of hour)) l

unfoldable pub spend_last_n_hours : ℕ → ℕ → Ledger → ℕ
spend_last_n_hours n hour l = spend (λ r. leb (hour - n) r.hour) l

pub record Limits : Type 0 where
  pub hourly_usd_limit : ℕ
  pub daily_usd_limit : ℕ

-- the configuration files of `load_guard_config`: each may be missing or unreadable, and each
-- limit may be missing in it
pub record LimitsData : Type 0 where
  pub hourly : Option ℕ
  pub daily : Option ℕ

abbrev usd : ℕ → ℕ
usd n = n * 100_000_000

limits_of : LimitsData → Limits
limits_of d = record {
  hourly_usd_limit = get_or d.hourly (usd 20);
  daily_usd_limit = get_or d.daily (usd 100);
}

-- `load_guard_config` over cost_guard.json and llm.json
unfoldable pub load_guard_config : Option LimitsData → Option LimitsData → Limits
unfolding limits_of
load_guard_config (some d) llm = limits_of d
load_guard_config none (some d) = limits_of d
load_guard_config none none = limits_of (record { hourly = none; daily = none })

pub data Tripped : Type 0 where
  hourly daily : Tripped

-- what `_write_guard_artifact` writes
pub record GuardArtifact : Type 0 where
  pub run_id : String
  pub tripped : Tripped
  pub hourly_spend : ℕ
  pub hourly_limit : ℕ
  pub daily_spend : ℕ
  pub daily_limit : ℕ

trip : String → Tripped → ℕ → ℕ → Limits → GuardArtifact
trip run_id which hour_spend day_spend c = record {
  run_id = run_id;
  tripped = which;
  hourly_spend = hour_spend;
  hourly_limit = c.hourly_usd_limit;
  daily_spend = day_spend;
  daily_limit = c.daily_usd_limit;
}

-- `check_guard`: `none` lets the call pass, and a trip is written down
unfoldable pub check_guard : Limits → ℕ → String → Ledger → Option GuardArtifact
unfolding trip
check_guard c hour run_id l =
    let hour_spend = spend_last_n_hours 1 hour l in
    let day_spend = spend_today hour l in
    if leb c.hourly_usd_limit hour_spend
    then some (trip run_id hourly hour_spend day_spend c)
    else if leb c.daily_usd_limit day_spend
    then some (trip run_id daily hour_spend day_spend c)
    else none
