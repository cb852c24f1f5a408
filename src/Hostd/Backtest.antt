-- ===== src/Hostd/Backtest.antt =====
-- The gate of the ORB backtests in ops/openclaw_hostd.py: they wait for the Soma project.
use ai_ops_runner.Base.{if◌then◌else◌, String, Bool, true, false, Option, none, some, List, [], ◌∷◌}
use ai_ops_runner.Base.Dict
use ai_ops_runner.Base.Dict.{Dict}
use ai_ops_runner.Base.Json.{Json, bool, is_text, truthy, as_dict}

abbrev pub orb_backtest_actions : List String
orb_backtest_actions = "orb.backtest.bulk" ∷ "orb.backtest.confirm_nt8" ∷ []

-- the gate lets an action through, holds it, or raises on a state file of another shape
pub data Gate : Type 0 where
  open_gate closed_gate broken_gate : Gate

-- `value or {}`, on which `get` is called
table_or_empty : Option Json → Option (Dict Json)
table_or_empty none = some []
table_or_empty (some v) = if truthy v then as_dict v else some []

is_true : Option Json → Bool
is_true (some (bool true)) = true
is_true _ = false

is_pass : Option Json → Bool
is_pass none = false
is_pass (some v) = is_text v "PASS"

on_soma : Option (Dict Json) → Gate
unfolding is_pass
on_soma none = broken_gate
on_soma (some sk) =
    if is_pass (Dict.get sk "phase0_baseline_status") then open_gate else closed_gate

on_projects : Option (Dict Json) → Gate
unfolding on_soma table_or_empty
on_projects none = broken_gate
on_projects (some projects) = on_soma (table_or_empty (Dict.get projects "soma_kajabi"))

on_gates : Dict Json → Option (Dict Json) → Gate
unfolding on_projects table_or_empty is_true
on_gates state none = broken_gate
on_gates state (some gates) =
    if is_true (Dict.get gates "allow_orb_backtests")
    then on_projects (table_or_empty (Dict.get state "projects"))
    else closed_gate

on_state : Option (Dict Json) → Gate
unfolding on_gates table_or_empty
on_state none = broken_gate
on_state (some state) = on_gates state (table_or_empty (Dict.get state "gates"))

-- `load_project_state`, on the file's JSON value if it is there and readable
unfoldable pub load_project_state : Option Json → Option (Dict Json)
load_project_state none = some []
load_project_state (some v) = as_dict v

-- `is_orb_backtest_allowed`
unfoldable pub is_orb_backtest_allowed : Option Json → Gate
unfolding on_state load_project_state
is_orb_backtest_allowed file = on_state (load_project_state file)
