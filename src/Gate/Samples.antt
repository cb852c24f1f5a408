-- ===== src/Gate/Samples.antt =====
-- The gate of one project over an hour, with a clock that prints a time in decimal digits.
use ai_ops_runner.Base.{
  leb, if◌then◌else◌, Bool-cases, eq_iff, ◌==◌, string_eq, ℕ, zero, suc, String, ◌≡◌, refl, ap, inl,
  inr, Bool, true, false, none, some, [], ◌∷◌,
}
use ai_ops_runner.Base.Dict
use ai_ops_runner.Base.Dict.{Dict}
use ai_ops_runner.Base.Int.{pos}
use ai_ops_runner.Base.Json.{Json, str, obj, field, end, members, as_dict, truthy}
use ai_ops_runner.Gate.{
  Stamp, aware, unparsed, Clock, Moment, Files, holds, after_minutes, resolve_ttl_minutes,
  clear_gate, active, inactive, read_gate, write_gate, expiry,
}
use ai_ops_runner.Gate.Window.{read_gate-write_gate}

-- a time in tally marks, after an `x`
marks : ℕ → String
marks zero = "x"
marks (suc n) = String.◌∷◌ "i" (marks n)

count : String → ℕ
count String.[] = zero
count (String.◌∷◌ c String.[]) = zero
count (String.◌∷◌ c (String.◌∷◌ d s)) = suc (count (String.◌∷◌ d s))

read_marks : Json → Stamp
unfolding count
read_marks (str s) = aware (count s)
read_marks _ = unparsed

abbrev tally : Clock
tally = record { print = marks; parse = read_marks }

count-marks : (n : ℕ) → count (marks n) ≡ n
unfolding count marks
count-marks zero = refl
count-marks (suc zero) = refl
count-marks (suc (suc n)) = ap suc (count-marks (suc n))

is_blank : String → Bool
is_blank String.[] = true
is_blank (String.◌∷◌ c s) = false

marks_not_blank : (n : ℕ) → is_blank (marks n) ≡ false
unfolding is_blank marks
marks_not_blank zero = refl
marks_not_blank (suc n) = refl

marks-truthy : (n : ℕ) → truthy (str (marks n)) ≡ true
unfolding truthy is_blank
marks-truthy n = elim (Bool-cases (marks n == "")) [
  | inl e ↦ cc (marks_not_blank n, ap is_blank ((eq_iff (marks n) "").0 e))
  | inr e ↦ rw e refl
]

tally_law :
    (t : ℕ) → (tally.parse (str (tally.print t)) ≡ aware t) × (truthy (str (tally.print t)) ≡ true)
unfolding read_marks
tally_law t = (ap aware (count-marks t), marks-truthy t)

abbrev early : Moment
early = record { now = 1; later = 1; removable = true; env_ttl = none }

abbrev late : Moment
late = record { now = 9; later = 9; removable = true; env_ttl = none }

abbrev login : Dict Json
login = ("expires_at", str "iiix") ∷ []

abbrev files : Files
files = ("soma", holds (obj (field "expires_at" (str "iiix") end))) ∷ []

found : (read_gate tally early "soma" files).0 ≡ active login
unfolding read_gate expiry Dict.get as_dict members truthy read_marks count
found = refl

open_after_write :
    let written = write_gate tally early "soma" "r1" "url" "login" (some (pos 5)) [] in
    read_gate tally late "soma" written.1 ≡ (
      if leb (after_minutes early.now (resolve_ttl_minutes (some (pos 5)) early.env_ttl)) late.now
      then (inactive, clear_gate late "soma" written.1)
      else (active written.0, written.1))
open_after_write =
    read_gate-write_gate tally early late "soma" "r1" "url" "login" (some (pos 5)) [] tally_law
