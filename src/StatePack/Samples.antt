-- ===== src/StatePack/Samples.antt =====
-- A pack with all its files, one without its marker, and one of the day before.
use ai_ops_runner.Base.{◌≡◌, refl, ◌↔◌, Bool, true, false, not, ◌||◌, some, [], ◌∷◌}
use ai_ops_runner.Base.Dict
use ai_ops_runner.Base.Pieces.{split_by}
use ai_ops_runner.Base.Int.{pos}
use ai_ops_runner.Base.Json.{members, truthy, is_text, Json, int, str, obj, field, end}
use ai_ops_runner.Base.Text.{strip, codes, text_eq}
use ai_ops_runner.StatePack.{
  load_latest, payload_or_empty, validate_latest, unless_ok, is_schema_version,
  normalize_artifact_path, child, status_passed, missing_files, parse_timestamp, age_sec, Place,
  absolute, within, value, Store, latest_too_old, pack_incomplete, pass, fail,
  evaluate_state_pack_freshness,
}
use ai_ops_runner.StatePack.Current.{IsCurrent, evaluate_state_pack_freshness_iff}

-- what both the pointer and the result say
abbrev content : Json
content = obj (
    field "schema_version" (int (pos 1)) (
      field "latest_path" (str "artifacts/system/state_pack/p1")
        (field "finished_at" (str "2026-03-05T12:00:00Z") (field "status" (str "PASS") end))))

abbrev is_marker : Place → Bool
is_marker (absolute ps) = false
is_marker (within []) = false
is_marker (within (p ∷ ps)) = text_eq p (codes "LATEST.ok") || is_marker (within ps)

abbrev store : Bool → Store
store marked = record {
  exists = λ p. marked || not (is_marker p);
  read = λ p. value content;
  from_iso = λ t. some 3000000;
}

whole_pack :
    (evaluate_state_pack_freshness (store true) 9000000 7200 ≡ pass)
    ↔ IsCurrent (store true) 9000000 7200
whole_pack = evaluate_state_pack_freshness_iff (store true) 9000000 7200

whole_pack_passes : evaluate_state_pack_freshness (store true) 9000000 7200 ≡ pass
unfolding evaluate_state_pack_freshness load_latest payload_or_empty validate_latest unless_ok
    is_schema_version Dict.get members normalize_artifact_path truthy strip split_by child
    status_passed is_text missing_files parse_timestamp age_sec
whole_pack_passes = refl

marker_missing :
    evaluate_state_pack_freshness (store false) 9000000 7200
    ≡ fail (pack_incomplete ("LATEST.ok" ∷ []) 1)
unfolding evaluate_state_pack_freshness load_latest payload_or_empty validate_latest unless_ok
    is_schema_version Dict.get members normalize_artifact_path truthy strip split_by child
    status_passed is_text missing_files parse_timestamp age_sec
marker_missing = refl

day_old : evaluate_state_pack_freshness (store true) 86403000000 7200 ≡ fail latest_too_old
unfolding evaluate_state_pack_freshness load_latest payload_or_empty validate_latest unless_ok
    is_schema_version Dict.get members normalize_artifact_path truthy strip split_by child
    status_passed is_text missing_files parse_timestamp age_sec
day_old = refl
