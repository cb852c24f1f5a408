-- ===== src/Brain/Matrix.antt =====
-- `run_matrix` of ops/system/brain_loop.py: the doctors' verdict, in process or from a subprocess.
pub mod Said
use mathlib.Core.Option
use mathlib.Core.List.{reverse}
use ai_ops_runner.Base.{
  nat_beq, if◌then◌else◌, ℕ, Bool, true, false, Option, none, some, List, [], ◌∷◌, map,
}
use ai_ops_runner.Base.Dict
use ai_ops_runner.Base.Dict.{Dict}
use ai_ops_runner.Base.Json.{Json, str, truthy, as_dict, or_empty}
use ai_ops_runner.Base.Text.{Text, codes, strip, text_eq}
use ai_ops_runner.Brain.Checks.{MatrixStatus, pass, fail, Seen, normalize_failed_checks}

-- What the doctors give: the payload of the call in process, unless it raises or is no object; the
-- output of the subprocess, unless that raises; `json.loads`; what `str` makes of a value that is no
-- text; and the RESULT.json of a bundle, if it is there and an object.
pub record Doctor : Type 0 where
  pub in_process : Option (Dict Json)
  pub subprocess : Option Text
  pub loads : Text → Option Json
  pub shows : Json → Text
  pub result_file : Text → Option (Dict Json)

pub record Matrix : Type 0 where
  pub seen : Seen
  pub bundle_dir : Text

-- `str(value)`
unfoldable pub str_of : Doctor → Json → Text
str_of d (str s) = codes s
str_of d v = d.shows v

as_object : Option Json → Option (Dict Json)
as_object none = none
as_object (some v) = as_dict v

-- the rest from the first such character on
from_first : ℕ → Text → Text
from_first k [] = []
from_first k (c ∷ s) = let rest = from_first k s in if nat_beq c k then c ∷ s else rest

-- `text[text.find("{") : text.rfind("}") + 1]`, empty when there is no such piece
braces : Text → Text
unfolding from_first
braces s = reverse (from_first b'}' (reverse (from_first b'{' s)))

decode_piece : Doctor → Text → Option (Dict Json)
unfolding as_object
decode_piece d [] = none
decode_piece d (c ∷ s) = as_object (d.loads (c ∷ s))

or_piece : Doctor → Text → Option (Dict Json) → Option (Dict Json)
unfolding decode_piece braces
or_piece d text (some p) = some p
or_piece d text none = decode_piece d (braces text)

-- `_parse_doctor_stdout`; `none` is an exception
unfoldable pub parse_doctor_stdout : Doctor → Text → Option (Dict Json)
unfolding or_piece as_object
parse_doctor_stdout d raw =
    if text_eq (strip raw) []
    then none
    else or_piece d (strip raw) (as_object (d.loads (strip raw)))

parse_output : Doctor → Option Text → Option (Dict Json)
unfolding parse_doctor_stdout
parse_output d none = none
parse_output d (some out) = parse_doctor_stdout d out

warned : Option (Dict Json) → Option (Dict Json × Bool)
warned none = none
warned (some p) = some (p, true)

or_subprocess : Doctor → Option (Dict Json) → Option (Dict Json × Bool)
unfolding warned parse_output
or_subprocess d (some p) = some (p, false)
or_subprocess d none = warned (parse_output d d.subprocess)

-- `_run_doctor_live`: the payload, and whether the call in process has failed
unfoldable pub run_doctor_live : Doctor → Option (Dict Json × Bool)
unfolding or_subprocess
run_doctor_live d = or_subprocess d d.in_process

status_of_text : Text → MatrixStatus
status_of_text s = if text_eq s (codes "PASS") then pass else fail

-- `"PASS" if str(payload.get("status")) == "PASS" else "FAIL"`
status_in : Doctor → Option Json → MatrixStatus
unfolding status_of_text
status_in d none = fail
status_in d (some v) = status_of_text (str_of d v)

strings : Doctor → List Json → List Text
strings d [] = []
strings d (v ∷ vs) = str_of d v ∷ strings d vs

seen_with : MatrixStatus → Doctor → Option (List Json) → Option Seen
unfolding strings
seen_with s d none = none
seen_with s d (some vs) =
    some record { status = s; failed_checks = normalize_failed_checks (strings d vs) }

-- status and failed checks of a payload; `none` when the checks cannot be iterated
unfoldable pub seen_in : Doctor → Dict Json → Option Seen
unfolding seen_with status_in
seen_in d p =
    seen_with (status_in d (Dict.get p "status")) d (or_empty (Dict.get p "failed_checks"))

bundle_in : Doctor → Option Json → Text
bundle_in d none = []
bundle_in d (some v) = if truthy v then str_of d v else []

in_bundle : Text → Option Seen → Option Matrix
in_bundle dir none = none
in_bundle dir (some s) = some record { seen = s; bundle_dir = dir }

-- RESULT.json has the last word
overridden : Doctor → Text → Seen → Option (Dict Json) → Option Matrix
unfolding in_bundle
overridden d dir s none = in_bundle dir (some s)
overridden d dir s (some p) = in_bundle dir (seen_in d p)

with_bundle : Doctor → Option Seen → Text → Option Matrix
unfolding overridden
with_bundle d none dir = none
with_bundle d (some s) [] = none
with_bundle d (some s) (c ∷ dir) = overridden d (c ∷ dir) s (d.result_file (c ∷ dir))

live : Doctor → Option (Dict Json × Bool) → Option (Matrix × Bool)
unfolding with_bundle bundle_in
live d none = none
live d (some (p, failed)) =
    Option.map (λ m. (m, failed))
      (with_bundle d (seen_in d p) (bundle_in d (Dict.get p "bundle_dir")))

-- the mocked verdict of the command line: checks only with FAIL
mocked : Text → MatrixStatus → List Text → Matrix
mocked dir pass checks = record {
  seen = record { status = pass; failed_checks = [] };
  bundle_dir = dir;
}
mocked dir fail checks = record {
  seen = record { status = fail; failed_checks = normalize_failed_checks checks };
  bundle_dir = dir;
}

-- `run_matrix`: the verdict, and whether the doctors had to run in a subprocess. A mock is a status
-- with its checks and the directory of its bundle.
unfoldable pub run_matrix : Doctor → Option (Text × Seen) → Option (Matrix × Bool)
unfolding live mocked
run_matrix d (some (dir, s)) = some (mocked dir s.status s.failed_checks, false)
run_matrix d none = live d (run_doctor_live d)
