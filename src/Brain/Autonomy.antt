-- ===== src/Brain/Autonomy.antt =====
-- ops/lib/autonomy_mode.py: the switch that keeps automation from changing anything outside.
use ai_ops_runner.Base.{
  leb, if◌then◌else◌, eq_iff, ◌==◌, string_eq, ℕ, ◌-◌, String, ◌≡◌, refl, ◌↔◌, Bool, true, false,
  ◌&&◌, Option, none, some, [], ◌∷◌, map, arith,
}
use ai_ops_runner.Base.Dict
use ai_ops_runner.Base.Dict.{Dict, get-put_self, get-put}
use ai_ops_runner.Base.Json.{Json, str}
use ai_ops_runner.Base.Text.{Text, codes, text_eq}

pub data Mode : Type 0 where
  on off : Mode

-- The files that can be read as JSON objects, by path, and the path that the environment and the
-- repository's place give.
pub record Files : Type 0 where
  pub path : String
  pub store : Dict (Dict Json)

abbrev pub default_system_path : String
default_system_path = "/opt/ai-ops-runner/artifacts/system/autonomy_mode.json"

-- str.upper() on one character
upper_code : ℕ → ℕ
upper_code c = if leb b'a' c && leb c b'z' then c - 32 else c

-- `"OFF" if str(mode).upper() == "OFF" else "ON"`
unfoldable pub normalized : Text → Mode
unfolding upper_code
normalized t = if text_eq (map upper_code t) (codes "OFF") then off else on

mode_in : Option Json → Mode
unfolding normalized
mode_in (some (str s)) = normalized (codes s)
mode_in _ = on

mode_name : Mode → String
mode_name on = "ON"
mode_name off = "OFF"

-- the mode of a file that is there and not empty, or of what comes after it
or_later : Option (Dict Json) → Mode → Mode
unfolding mode_in
or_later none later = later
or_later (some []) later = later
or_later (some (e ∷ d)) later = mode_in (Dict.get (e ∷ d) "mode")

-- the mode of `read_autonomy_mode`: reading a path twice gives nothing new
unfoldable pub read_autonomy_mode : Files → Mode
unfolding or_later
read_autonomy_mode f =
    or_later (Dict.get f.store f.path) (or_later (Dict.get f.store default_system_path) on)

-- `write_autonomy_mode`, whose payload names the time `at` and the writer
unfoldable pub write_autonomy_mode : Text → Json → Json → Files → Files
unfolding mode_name
write_autonomy_mode mode at by f = record f {
  store =
      Dict.put f.store f.path (
        ("mode", str (mode_name (normalized mode))) ∷ ("updated_at", at) ∷ ("updated_by", by) ∷ []);
}

pub data Decision : Type 0 where
  auto skip_autonomy_off : Decision

is_off : Mode → Bool
is_off on = false
is_off off = true

-- `decide_action_policy`
unfoldable pub decide_action_policy : Mode → String → Bool → Decision
unfolding is_off
decide_action_policy mode source mutates_external =
    if source == "autopilot" && is_off mode && mutates_external then skip_autonomy_off else auto

stable : (m : Mode) → normalized (codes (mode_name m)) ≡ m
unfolding normalized mode_name upper_code
stable on = refl
stable off = refl

-- The mode that is written, in any case of its letters, is the mode that is read, whatever the other
-- candidate file says.
pub read-write_autonomy_mode :
    (mode : Text) (at by : Json) (f : Files)
    → read_autonomy_mode (write_autonomy_mode mode at by f) ≡ normalized mode
unfolding read_autonomy_mode write_autonomy_mode or_later mode_in Dict.get
read-write_autonomy_mode mode at by f = rw (get-put_self f.store f.path) (stable (normalized mode))

-- After OFF has been written no mutating action of the autopilot is let through, and every other
-- action still is.
decide_action_policy_off :
    (mode : Text) (at by : Json) (f : Files) (source : String) (mutates : Bool)
    → normalized mode ≡ off
    → (decide_action_policy (read_autonomy_mode (write_autonomy_mode mode at by f)) source mutates
        ≡ skip_autonomy_off)
      ↔ ((source ≡ "autopilot") × (mutates ≡ true))
unfolding decide_action_policy is_off
decide_action_policy_off mode at by f source mutates e =
    rw (read-write_autonomy_mode mode at by f, e) (ground (arith, eq_iff source "autopilot"))
