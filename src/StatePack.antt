-- ===== src/StatePack.antt =====
-- ops/lib/state_pack_contract.py: whether the latest state pack is complete and fresh.
pub mod Current
mod Samples
use mathlib.Core.Option
use ai_ops_runner.Base.{
  leb, nat_beq, if◌then◌else◌, length, take, keep, ◌==◌, string_eq, ℕ, ◌-◌, ◌/◌, String, Bool, true,
  false, not, ◌&&◌, Option, none, some, List, [], ◌∷◌, ◌++◌, map,
}
use ai_ops_runner.Base.Dict
use ai_ops_runner.Base.Dict.{Dict}
use ai_ops_runner.Base.Int.{pos}
use ai_ops_runner.Base.Json.{Json, bool, int, float, str, obj, members, truthy, is_text}
use ai_ops_runner.Base.Pieces.{split_by}
use ai_ops_runner.Base.Text.{
  Text, codes, strip, text_eq, text_starts_with, text_ends_with, drop_last,
}

-- a path by its parts: an absolute one, or one within the artifacts
pub data Place : Type 0 where
  absolute : List Text → Place
  within : List Text → Place

-- what `_read_json_with_error` ends with
pub data Read : Type 0 where
  missing json_invalid os_error : Read
  value : Json → Read

-- The files at the time of the evaluation, and `datetime.fromisoformat` as microseconds, where a time
-- without a zone is one of UTC.
pub record Store : Type 0 where
  pub exists : Place → Bool
  pub read : Place → Read
  pub from_iso : Text → Option ℕ

pub data Reason : Type 0 where
  latest_missing latest_json_invalid latest_schema_mismatch latest_path_missing : Reason
  result_json_missing result_not_pass latest_timestamp_invalid latest_too_old : Reason
  pack_incomplete : List String → ℕ → Reason

-- an evaluation passes, fails for a reason, or raises
pub data Verdict : Type 0 where
  pass raised : Verdict
  fail : Reason → Verdict

abbrev pub required_pack_files : List String
required_pack_files =
    "health_public.json" ∷ "autopilot_status.json" ∷ "llm_status.json" ∷ "tailscale_serve.txt"
    ∷ "ports.txt" ∷ "systemd_openclaw-novnc.txt" ∷ "systemd_openclaw-frontdoor.txt"
    ∷ "systemd_openclaw-hostd.txt" ∷ "systemd_openclaw-guard.txt" ∷ "systemd_hq.txt"
    ∷ "latest_runs_index.json" ∷ "build_sha.txt" ∷ "novnc_http_check.json" ∷ "ws_probe.json"
    ∷ "SUMMARY.md" ∷ "RESULT.json" ∷ []

-- the required files and the marker `COMPLETION_MARKER_NAME`
abbrev pub pack_files : List String
pack_files = required_pack_files ++ "LATEST.ok" ∷ []

-- `path / name`
unfoldable pub child : Place → String → Place
child (absolute ps) name = absolute (ps ++ codes name ∷ [])
child (within ps) name = within (ps ++ codes name ∷ [])

-- `latest_contract_path`
abbrev pub latest_contract_path : Place
latest_contract_path = within (codes "system" ∷ codes "state_pack" ∷ codes "LATEST.json" ∷ [])

-- the time of a text, with `Z` for UTC
iso_text : Text → Text
iso_text t = if text_ends_with t (codes "Z") then drop_last 1 t ++ codes "+00:00" else t

-- `_parse_timestamp`
unfoldable pub parse_timestamp : Store → Option Json → Option ℕ
unfolding iso_text
parse_timestamp s (some (str t)) =
    if text_eq (strip (codes t)) [] then none else s.from_iso (iso_text (strip (codes t)))
parse_timestamp s _ = none

-- the parts that a `Path` keeps
is_part : Text → Bool
is_part p = not (text_eq p []) && not (text_eq p (codes "."))

-- within the artifacts a leading `artifacts` is left out
below : List Text → Place
below [] = within []
below (p ∷ ps) = if text_eq p (codes "artifacts") then within ps else within (p ∷ ps)

place_of : Text → Place
unfolding is_part below
place_of t =
    let parts = keep is_part (split_by (λ c. nat_beq c b'/') t) in
    if text_starts_with t (codes "/") then absolute parts else below parts

-- `_normalize_artifact_path`
unfoldable pub normalize_artifact_path : Option Json → Option Place
unfolding place_of
normalize_artifact_path (some (str t)) =
    if text_eq (strip (codes t)) [] then none else some (place_of (strip (codes t)))
normalize_artifact_path _ = none

-- `a or b`
or_else : Option Json → Option Json → Option Json
or_else none b = b
or_else (some v) b = if truthy v then some v else b

-- what `load_latest` returns of the pointer to the latest pack
pub record Latest : Type 0 where
  pub exists : Bool
  pub read_error : Bool
  pub latest_path : Option Place
  pub result_path : Option Place
  pub finished_at : Option ℕ
  pub schema_version : Option Json

-- `payload or {}`, on which `get` is called: a value that is no object and not empty raises
unfoldable pub payload_or_empty : Json → Option (Dict Json)
payload_or_empty (obj fs) = some (members fs)
payload_or_empty v = if truthy v then none else some []

default_result : Option Place → Option Place → Option Place
default_result none none = none
default_result none (some d) = some (child d "RESULT.json")
default_result (some r) d = some r

latest_of : Store → Bool → Dict Json → Latest
unfolding or_else default_result
latest_of s failed payload =
    let latest_path = normalize_artifact_path (
      or_else (Dict.get payload "latest_path")
        (or_else (Dict.get payload "pack_dir") (Dict.get payload "artifact_dir"))) in
    record {
      exists = s.exists latest_contract_path;
      read_error = failed;
      latest_path = latest_path;
      result_path =
          default_result (normalize_artifact_path (Dict.get payload "result_path")) latest_path;
      finished_at = parse_timestamp s (
          or_else (Dict.get payload "finished_at")
            (or_else (Dict.get payload "generated_at") (Dict.get payload "updated_at")));
      schema_version = Dict.get payload "schema_version";
    }

on_pointer : Store → Read → Option Latest
unfolding latest_of
on_pointer s (value v) = Option.map (latest_of s false) (payload_or_empty v)
on_pointer s _ = some (latest_of s true [])

-- `load_latest` on the contract's path; `none` is an exception
unfoldable pub load_latest : Store → Option Latest
unfolding on_pointer
load_latest s = on_pointer s (s.read latest_contract_path)

-- a guard: the reason of the failure unless the test holds
unfoldable pub unless_ok : Bool → Reason → Verdict → Verdict
unless_ok ok why later = if ok then later else fail why

-- `value == SCHEMA_VERSION`, which `True` and `1.0` are too
unfoldable pub is_schema_version : Option Json → Bool
is_schema_version (some (int (pos n))) = nat_beq n 1
is_schema_version (some (bool b)) = b
is_schema_version (some (float f)) = f == "1.0"
is_schema_version _ = false

unfoldable pub status_passed : Dict Json → Bool
status_passed d = elim (Dict.get d "status") [ none ↦ false | some v ↦ is_text v "PASS" ]

unfoldable pub missing_files : Store → Place → List String
missing_files s dir = keep (λ name. not (s.exists (child dir name))) pack_files

on_files : List String → Verdict
on_files [] = pass
on_files (name ∷ names) = fail (pack_incomplete (take 10 (name ∷ names)) (length (name ∷ names)))

on_result : Store → Place → Option (Dict Json) → Verdict
unfolding on_files
on_result s dir none = raised
on_result s dir (some d) =
    unless_ok (status_passed d) result_not_pass (on_files (missing_files s dir))

on_read : Store → Place → Read → Verdict
unfolding on_result
on_read s dir (value v) = on_result s dir (payload_or_empty v)
on_read s dir _ = fail result_not_pass

-- the result's own path, or the one in the pack
result_place : Place → Option Place → Place
result_place dir none = child dir "RESULT.json"
result_place dir (some r) = r

on_dir : Store → Option Place → Option Place → Verdict
unfolding on_read result_place
on_dir s none r = fail latest_path_missing
on_dir s (some dir) r = unless_ok (s.exists dir) latest_path_missing (
    unless_ok (s.exists (result_place dir r)) result_json_missing
      (on_read s dir (s.read (result_place dir r))))

-- `validate_latest`
unfoldable pub validate_latest : Store → Latest → Verdict
unfolding on_dir
validate_latest s l = unless_ok l.exists latest_missing (
    unless_ok (not l.read_error) latest_json_invalid (
      unless_ok (is_schema_version l.schema_version) latest_schema_mismatch
        (on_dir s l.latest_path l.result_path)))

-- `age_sec`: a time to come counts as now
unfoldable pub age_sec : ℕ → ℕ → ℕ
age_sec now t = (now - t) / 1000000

on_time : ℕ → ℕ → Option ℕ → Verdict
on_time now threshold none = fail latest_timestamp_invalid
on_time now threshold (some t) = unless_ok (leb (age_sec now t) threshold) latest_too_old pass

after_integrity : ℕ → ℕ → Latest → Verdict → Verdict
unfolding on_time
after_integrity now threshold l pass = on_time now threshold l.finished_at
after_integrity now threshold l raised = raised
after_integrity now threshold l (fail why) = fail why

on_latest : Store → ℕ → ℕ → Option Latest → Verdict
unfolding after_integrity
on_latest s now threshold none = raised
on_latest s now threshold (some l) = after_integrity now threshold l (validate_latest s l)

-- `evaluate_state_pack_freshness` with `resolve_latest_state_pack`, on files that stay as they are
unfoldable pub evaluate_state_pack_freshness : Store → ℕ → ℕ → Verdict
unfolding on_latest
evaluate_state_pack_freshness s now threshold = on_latest s now threshold (load_latest s)
