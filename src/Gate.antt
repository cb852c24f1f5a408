-- ===== src/Gate.antt =====
-- ops/lib/human_gate.py: a file for each project says until when a person is logging in. A time is a
-- count of microseconds.
pub mod Window
pub mod Apart
mod Samples
use ai_ops_runner.Base.{
  leb, if◌then◌else◌, ◌==◌, string_eq, ℕ, suc, ◌+◌, ◌-◌, ◌*◌, String, Bool, true, false, Option,
  none, some, [], ◌∷◌,
}
use ai_ops_runner.Base.Dict
use ai_ops_runner.Base.Dict.{Dict}
use ai_ops_runner.Base.Int.{ℤ, pos, negsuc}
use ai_ops_runner.Base.Json.{Json, bool, int, str, obj, Fields, end, field, truthy, as_dict}

-- what `datetime.fromisoformat` makes of a value: a time, a time without a zone, or an exception
pub data Stamp : Type 0 where
  aware : ℕ → Stamp
  naive unparsed : Stamp

-- `isoformat` and `fromisoformat`
pub record Clock : Type 0 where
  pub print : ℕ → String
  pub parse : Json → Stamp

-- the time of a call, the time at its second look, and whether the file can be removed
pub record Moment : Type 0 where
  pub now : ℕ
  pub later : ℕ
  pub removable : Bool
  -- OPENCLAW_HUMAN_GATE_TTL_MINUTES: absent, no integer, or an integer
  pub env_ttl : Option (Option ℤ)

-- a state file that exists: unreadable, or its JSON value
pub data Content : Type 0 where
  unreadable : Content
  holds : Json → Content

-- the state files by project id
abbrev pub Files : Type 0
Files = Dict Content

minute : ℕ
minute = 60000000

-- `now + timedelta(minutes=ttl)`, where the sum stays in the range of datetime
unfoldable pub after_minutes : ℕ → ℤ → ℕ
unfolding minute
after_minutes now (pos n) = now + n * minute
after_minutes now (negsuc n) = now - suc n * minute

-- `_resolve_ttl_minutes`
unfoldable pub resolve_ttl_minutes : Option ℤ → Option (Option ℤ) → ℤ
resolve_ttl_minutes (some ttl) env = ttl
resolve_ttl_minutes none (some (some ttl)) = ttl
resolve_ttl_minutes none _ = pos 35

unfoldable pub fields_of : Dict Json → Fields
fields_of [] = end
fields_of ((k, v) ∷ d) = field k v (fields_of d)

unfoldable pub remove : Files → String → Files
remove [] p = []
remove ((q, c) ∷ fs) p = let rest = remove fs p in if q == p then rest else (q, c) ∷ rest

-- `clear_gate`
unfoldable pub clear_gate : Moment → String → Files → Files
unfolding remove
clear_gate w p fs = if w.removable then remove fs p else fs

pub data GateRead : Type 0 where
  active : Dict Json → GateRead
  inactive crashed : GateRead

-- the expiry of a gate, as both readers find it: none, a crash, or a gate with its time
pub data Expiry : Type 0 where
  no_gate raises : Expiry
  until : Dict Json → ℕ → Expiry

on_stamp : Dict Json → Stamp → Expiry
on_stamp gate (aware t) = until gate t
on_stamp gate naive = raises
on_stamp gate unparsed = no_gate

on_expires_at : Clock → Dict Json → Option Json → Expiry
unfolding on_stamp
on_expires_at k gate none = no_gate
on_expires_at k gate (some v) = if truthy v then on_stamp gate (k.parse v) else no_gate

on_json : Clock → Option (Dict Json) → Expiry
unfolding on_expires_at
on_json k none = raises
on_json k (some gate) = on_expires_at k gate (Dict.get gate "expires_at")

on_file : Clock → Option Content → Expiry
unfolding on_json
on_file k none = no_gate
on_file k (some unreadable) = no_gate
on_file k (some (holds v)) = on_json k (as_dict v)

unfoldable pub expiry : Clock → String → Files → Expiry
unfolding on_file
expiry k p fs = on_file k (Dict.get fs p)

read_until : Moment → String → Files → Expiry → GateRead × Files
unfolding clear_gate
read_until w p fs no_gate = (inactive, fs)
read_until w p fs raises = (crashed, fs)
read_until w p fs (until gate t) =
    if leb t w.now then (inactive, clear_gate w p fs) else (active gate, fs)

-- `read_gate`
unfoldable pub read_gate : Clock → Moment → String → Files → GateRead × Files
unfolding read_until expiry
read_gate k w p fs = read_until w p fs (expiry k p fs)

unfoldable pub new_gate : Clock → Moment → String → String → String → String → ℤ → Dict Json
unfolding after_minutes
new_gate k w p run_id url reason ttl =
    ("active", bool true)
    ∷ ("project_id", str p)
    ∷ ("run_id", str run_id)
    ∷ ("novnc_url", str url)
    ∷ ("reason", str reason)
    ∷ ("created_at", str (k.print w.now))
    ∷ ("expires_at", str (k.print (after_minutes w.now ttl)))
    ∷ ("ttl_minutes", int ttl)
    ∷ []

-- `write_gate`
unfoldable pub write_gate :
    Clock → Moment → String → String → String → String → Option ℤ → Files → Dict Json × Files
unfolding new_gate resolve_ttl_minutes fields_of
write_gate k w p run_id url reason ttl fs =
    let gate = new_gate k w p run_id url reason (resolve_ttl_minutes ttl w.env_ttl) in
    (gate, Dict.put fs p (holds (obj (fields_of gate))))

pub data Touch : Type 0 where
  touched untouched touch_crashed : Touch

touch_until : Clock → Moment → String → Option ℤ → Files → Expiry → Touch × Files
unfolding after_minutes resolve_ttl_minutes fields_of
touch_until k w p ttl fs no_gate = (untouched, fs)
touch_until k w p ttl fs raises = (touch_crashed, fs)
touch_until k w p ttl fs (until gate t) =
    let until_then = k.print (after_minutes w.later (resolve_ttl_minutes ttl w.env_ttl)) in
    let longer = Dict.put gate "expires_at" (str until_then) in
    if leb t w.now
    then (untouched, fs)
    else (touched, Dict.put fs p (holds (obj (fields_of longer))))

-- `touch_gate`
unfoldable pub touch_gate : Clock → Moment → String → Option ℤ → Files → Touch × Files
unfolding touch_until expiry
touch_gate k w p ttl fs = touch_until k w p ttl fs (expiry k p fs)

is_active : GateRead → Option Bool
is_active (active gate) = some true
is_active inactive = some false
is_active crashed = none

-- `is_gate_active`; `none` is the exception that `read_gate` lets through
unfoldable pub is_gate_active : Clock → Moment → String → Files → Option Bool × Files
unfolding is_active read_gate
is_gate_active k w p fs = (is_active (read_gate k w p fs).0, (read_gate k w p fs).1)
