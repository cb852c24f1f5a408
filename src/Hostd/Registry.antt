-- ===== src/Hostd/Registry.antt =====
-- The allowlist of ops/openclaw_hostd.py, which config/action_registry.json gives.
pub mod Lookup
use ai_ops_runner.Base.{
  if◌then◌else◌, get_or, ◌==◌, string_eq, ℕ, String, true, false, Option, none, some, List, [], ◌∷◌,
  ◌++◌,
}
use mathlib.Core.Option
use ai_ops_runner.Base.Dict
use ai_ops_runner.Base.Dict.{Dict}
use ai_ops_runner.Base.Int.{ℤ, pos}
use ai_ops_runner.Base.Json.{Json, int, bool, float, str, as_dict, or_empty}
use ai_ops_runner.Base.Text.{Text, codes}
use ai_ops_runner.Base.Pieces.{replace}

-- what an action runs
pub record Spec : Type 0 where
  pub cmd : List Text
  pub timeout_sec : ℤ

-- a usable entry of the registry
pub record Entry : Type 0 where
  pub id : String
  pub aliases : List String
  pub spec : Spec

-- an entry is passed over, used, or raises what the loader does not catch
pub data Reading : Type 0 where
  skip : Reading
  use_entry : Entry → Reading
  broken : Reading

-- The repository's root, and what `int` makes of a text or of a float.
pub record Loading : Type 0 where
  pub root : Text
  pub int_of : String → Option ℤ

-- `int(value)`
unfoldable pub to_int : Loading → Json → Option ℤ
to_int l (int n) = some n
to_int l (bool true) = some (pos 1)
to_int l (bool false) = some (pos 0)
to_int l (float x) = l.int_of x
to_int l (str s) = l.int_of s
to_int l _ = none

abbrev bash : Text → List Text
bash script = codes "bash" ∷ codes "-c" ∷ script ∷ []

-- `value if value and isinstance(value, str)`
unfoldable pub nonempty_text : Option Json → Option String
nonempty_text (some (str s)) = if s == "" then none else some s
nonempty_text _ = none

add_text : Option String → List String → List String
add_text none names = names
add_text (some s) names = s ∷ names

-- the aliases that are texts and not empty
texts : List Json → List String
unfolding add_text
texts [] = []
texts (v ∷ vs) = add_text (nonempty_text (some v)) (texts vs)

with_aliases : String → Text → Option ℤ → Option (List Json) → Reading
unfolding texts
with_aliases id script (some t) (some names) =
    use_entry record {
      id = id;
      aliases = texts names;
      spec = record { cmd = bash script; timeout_sec = t };
    }
with_aliases id script _ _ = broken

with_template : Loading → Dict Json → String → Option String → Reading
unfolding with_aliases
with_template l a id none = skip
with_template l a id (some template) =
    with_aliases id (replace (codes template) (codes "${ROOT_DIR}") l.root)
      (to_int l (get_or (Dict.get a "timeout_sec") (int (pos 60))))
      (or_empty (Dict.get a "aliases"))

with_id : Loading → Dict Json → Option String → Reading
unfolding with_template
with_id l a none = skip
with_id l a (some id) = with_template l a id (nonempty_text (Dict.get a "cmd_template"))

-- the body of the loop, up to the entry that it makes
unfoldable pub read_entry : Loading → Option (Dict Json) → Reading
unfolding with_id
read_entry l none = broken
read_entry l (some a) = with_id l a (nonempty_text (Dict.get a "id"))

-- `for alias in …: out[alias] = out[aid]`
add_aliases : Spec → List String → Dict Spec → Dict Spec
add_aliases s [] out = out
add_aliases s (n ∷ ns) out = add_aliases s ns (Dict.put out n s)

unfoldable pub add_entry : Entry → Dict Spec → Dict Spec
unfolding add_aliases
add_entry e out = add_aliases e.spec e.aliases (Dict.put out e.id e.spec)

-- `none` is an exception
on_reading : Reading → Option (List Entry) → Option (List Entry)
on_reading skip rest = rest
on_reading (use_entry e) none = none
on_reading (use_entry e) (some es) = some (e ∷ es)
on_reading broken rest = none

-- the entries that the loop uses, in order
unfoldable pub read_entries : Loading → List Json → Option (List Entry)
unfolding on_reading
read_entries l [] = some []
read_entries l (v ∷ vs) = on_reading (read_entry l (as_dict v)) (read_entries l vs)

unfoldable pub build : List Entry → Dict Spec → Dict Spec
build [] out = out
build (e ∷ es) out = build es (add_entry e out)

-- what loading gives: no allowlist, one that is not empty, or an exception that stops the service
pub data Loaded : Type 0 where
  unavailable : Loaded
  table : Dict Spec → Loaded
  crashed : Loaded

or_unavailable : Dict Spec → Loaded
or_unavailable [] = unavailable
or_unavailable (e ∷ d) = table (e ∷ d)

on_entries : Option (List Entry) → Loaded
unfolding or_unavailable
on_entries none = crashed
on_entries (some es) = or_unavailable (build es [])

on_actions : Loading → Option (List Json) → Option (List Entry)
on_actions l none = none
on_actions l (some vs) = read_entries l vs

on_data : Loading → Option (Dict Json) → Option (List Entry)
unfolding on_actions
on_data l none = none
on_data l (some d) = on_actions l (or_empty (Dict.get d "actions"))

-- the entries of the file's JSON value
unfoldable pub entries_of : Loading → Json → Option (List Entry)
unfolding on_data
entries_of l v = on_data l (as_dict v)

-- `_load_allowlist_from_registry`, on the file's JSON value if it is there and readable
unfoldable pub load_allowlist_from_registry : Loading → Option Json → Loaded
unfolding entries_of on_entries
load_allowlist_from_registry l none = unavailable
load_allowlist_from_registry l (some v) = on_entries (entries_of l v)

in_root : Text → String → List Text
in_root root command = bash (codes "cd " ++ root ++ codes " && " ++ codes command)

fallback_spec : List Text → ℕ → Spec
fallback_spec cmd t = record { cmd = cmd; timeout_sec = pos t }

-- `_fallback_allowlist`
unfoldable pub fallback_allowlist : Text → Dict Spec
unfolding in_root fallback_spec
fallback_allowlist root =
    ("doctor", fallback_spec (in_root root "./ops/openclaw_doctor.sh") 180)
    ∷ ("apply", fallback_spec (in_root root "./ops/openclaw_apply_remote.sh") 120)
    ∷ ("guard", fallback_spec (in_root root "sudo ./ops/openclaw_install_guard.sh") 30)
    ∷ ("port_audit", fallback_spec (in_root root "./ops/show_port_audit.sh") 60)
    ∷ (
      "tail_guard_log",
      fallback_spec (bash (codes "journalctl -u openclaw-guard.service -n 200 --no-pager")) 30,
    )
    ∷ (
      "timer",
      fallback_spec
          (codes "systemctl"
            ∷ codes "status"
            ∷ codes "openclaw-guard.timer"
            ∷ codes "--no-pager"
            ∷ [])
          10,
    )
    ∷ []

-- ALLOWLIST; `none` when loading raises
unfoldable pub allowlist_of : Loading → Loaded → Option (Dict Spec)
unfolding fallback_allowlist
allowlist_of l unavailable = some (fallback_allowlist l.root)
allowlist_of l (table t) = some t
allowlist_of l crashed = none
