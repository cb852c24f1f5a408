-- ===== src/Base/Json.antt =====
-- A value that `json.loads` returns. An object keeps its members in order.
use Prim.Native.Nat.{zero, suc}
use Prim.Native.String.{String}
use mathlib.Core.Bool.{Bool, true, false}
use mathlib.Core.Option.{Option, none, some}
use mathlib.Core.List.{List, [], ◌∷◌}
use ai_ops_runner.Base.Tests.{if◌then◌else◌}
use ai_ops_runner.Base.Equality.{◌==◌, string_eq}
use ai_ops_runner.Base.Dict.{Dict}
use ai_ops_runner.Base.Int.{ℤ, pos, negsuc}

mutual
  pub data Json : Type 0 where
    null : Json
    bool : Bool → Json
    int : ℤ → Json
    float : String → Json
    str : String → Json
    arr : Items → Json
    obj : Fields → Json

  pub data Items : Type 0 where
    nil : Items
    cons : Json → Items → Items

  pub data Fields : Type 0 where
    end : Fields
    field : String → Json → Fields → Fields

unfoldable pub members : Fields → Dict Json
members end = []
members (field k v fs) = (k, v) ∷ members fs

unfoldable pub items : Items → List Json
items nil = []
items (cons v vs) = v ∷ items vs

-- Python's truth value
unfoldable pub truthy : Json → Bool
truthy null = false
truthy (bool b) = b
truthy (int (pos zero)) = false
truthy (int (pos (suc n))) = true
truthy (int (negsuc n)) = true
truthy (float s) = if s == "0.0" then false else if s == "-0.0" then false else true
truthy (str s) = if s == "" then false else true
truthy (arr nil) = false
truthy (arr (cons v vs)) = true
truthy (obj end) = false
truthy (obj (field k v fs)) = true

-- the value is this text
unfoldable pub is_text : Json → String → Bool
is_text (str s) t = s == t
is_text _ t = false

-- isinstance(value, str)
unfoldable pub as_text : Json → Option String
as_text (str s) = some s
as_text _ = none

-- isinstance(value, dict)
unfoldable pub as_dict : Json → Option (Dict Json)
unfolding members
as_dict (obj fs) = some (members fs)
as_dict _ = none

letters : String → List Json
letters String.[] = []
letters (String.◌∷◌ c s) = str (String.◌∷◌ c String.[]) ∷ letters s

keys_of : Dict Json → List Json
keys_of [] = []
keys_of ((k, v) ∷ d) = str k ∷ keys_of d

-- what `for x in value` goes through
unfoldable pub elements : Json → Option (List Json)
unfolding letters keys_of members items
elements (arr vs) = some (items vs)
elements (obj fs) = some (keys_of (members fs))
elements (str s) = some (letters s)
elements _ = none

-- `value or []`, as the loop goes through it
unfoldable pub or_empty : Option Json → Option (List Json)
unfolding elements truthy
or_empty none = some []
or_empty (some v) = if truthy v then elements v else some []
