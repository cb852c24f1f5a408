-- ===== src/StatePack/Current.antt =====
-- When the latest state pack passes.
use ai_ops_runner.Base.{
  leb, leb→le, le→leb, Bool-cases, Option-cases, keep, all, All, ℕ, ◌≤◌, String, ◌≡◌, refl, sym,
  subst, ◌↔◌, inl, inr, Bool, true, false, not, Option, none, some, List, [], ◌∷◌, arith,
}
use ai_ops_runner.Base.Dict.{Dict}
use ai_ops_runner.Base.Json.{Json}
use ai_ops_runner.StatePack.{
  Place, Read, missing, json_invalid, os_error, value, Store, Reason, latest_missing,
  latest_json_invalid, latest_schema_mismatch, latest_path_missing, result_json_missing,
  result_not_pass, latest_too_old, Verdict, pass, raised, fail, pack_files, child, Latest,
  payload_or_empty, load_latest, unless_ok, is_schema_version, status_passed, missing_files,
  on_files, on_result, on_read, result_place, on_dir, validate_latest, age_sec, on_time,
  after_integrity, on_latest, evaluate_state_pack_freshness,
}

-- the result of a pack can be read and says PASS
record Passed (r : Read) : Type 0 where
  content : Json
  holds : r ≡ value content
  result : Dict Json
  is_object : payload_or_empty content ≡ some result
  says_pass : status_passed result ≡ true

-- A directory with all the files and the marker, and its result.
record IsComplete (s : Store) (dir : Place) (result : Option Place) : Type 0 where
  dir_there : s.exists dir ≡ true
  result_there : s.exists (result_place dir result) ≡ true
  passed : Passed (s.read (result_place dir result))
  files : All (λ name. s.exists (child dir name) ≡ true) pack_files

-- The pointer is there and readable, of the right version, and points to a complete pack.
record IsValidPointer (s : Store) (l : Latest) : Type 0 where
  present : l.exists ≡ true
  readable : l.read_error ≡ false
  version : is_schema_version l.schema_version ≡ true
  dir : Place
  points : l.latest_path ≡ some dir
  complete : IsComplete s dir l.result_path

-- And its time is no older than the threshold.
pub record IsCurrent (s : Store) (now threshold : ℕ) : Type 0 where
  latest : Latest
  loaded : load_latest s ≡ some latest
  valid : IsValidPointer s latest
  time : ℕ
  dated : latest.finished_at ≡ some time
  recent : age_sec now time ≤ threshold

unless_ok_iff :
    (ok : Bool) (why : Reason) (later : Verdict)
    → (unless_ok ok why later ≡ pass) ↔ ((ok ≡ true) × (later ≡ pass))
unfolding unless_ok
unless_ok_iff true why later = (λ h. (refl, h), λ h. h.1)
unless_ok_iff false why later = (λ h. cc, λ h. cc)

keep_none :
    (s : Store) (dir : Place) (names : List String)
    → (keep (λ name. not (s.exists (child dir name))) names ≡ [])
      ↔ All (λ name. s.exists (child dir name) ≡ true) names
keep_none s dir [] = (λ h. tt, λ h. refl)
keep_none s dir (name ∷ names) = elim (Bool-cases (s.exists (child dir name))) [
  | inl e ↦ (
    λ h. (e, (keep_none s dir names).0 (ground (arith, e, h))),
    λ h. ground (arith, e, (keep_none s dir names).1 h.1),
  )
  | inr e ↦ (λ h. absurd (ground (arith, e, h)), λ h. absurd (ground (arith, e, h.0)))
]

on_files_iff : (names : List String) → (on_files names ≡ pass) ↔ (names ≡ [])
unfolding on_files
on_files_iff [] = (λ h. refl, λ h. refl)
on_files_iff (name ∷ names) = (λ h. cc, λ h. cc)

AllThere : Store → Place → Type 0
AllThere s dir = All (λ name. s.exists (child dir name) ≡ true) pack_files

status_iff :
    (s : Store) (dir : Place) (d : Dict Json)
    → (on_result s dir (some d) ≡ pass) ↔ ((status_passed d ≡ true) × AllThere s dir)
unfolding on_result missing_files AllThere
status_iff s dir d =
    let guard = unless_ok_iff (status_passed d) result_not_pass (on_files (missing_files s dir)) in
    let all = keep_none s dir pack_files in
    let empty = on_files_iff (missing_files s dir) in
    (λ h. ((guard.0 h).0, all.0 (empty.0 (guard.0 h).1)), λ h. guard.1 (h.0, empty.1 (all.1 h.1)))

on_read_sound :
    (s : Store) (dir : Place) (r : Read) → on_read s dir r ≡ pass → Passed r × AllThere s dir
unfolding on_read on_result
on_read_sound s dir missing h = cc
on_read_sound s dir json_invalid h = cc
on_read_sound s dir os_error h = cc
on_read_sound s dir (value v) h = elim (Option-cases (payload_or_empty v)) [
  | inl e ↦ absurd (ground (arith, h, e))
  | inr (d, e) ↦
      let both = (status_iff s dir d).0 (subst (λ o. on_result s dir o ≡ pass) e h) in
      (record { content = v; holds = refl; result = d; is_object = e; says_pass = both.0 }, both.1)
]

on_read_complete :
    (s : Store) (dir : Place) (r : Read) → Passed r → AllThere s dir → on_read s dir r ≡ pass
unfolding on_read
on_read_complete s dir r p all =
    rw (p.holds, on_read, p.is_object) ((status_iff s dir p.result).1 (p.says_pass, all))

on_dir_sound :
    (s : Store) (dir : Place) (r : Option Place) → on_dir s (some dir) r ≡ pass → IsComplete s dir r
unfolding on_dir AllThere
on_dir_sound s dir r h =
    let outer = (unless_ok_iff (s.exists dir) latest_path_missing _).0 h in
    let inner = (unless_ok_iff (s.exists (result_place dir r)) result_json_missing _).0 outer.1 in
    let found = on_read_sound s dir (s.read (result_place dir r)) inner.1 in
    record { dir_there = outer.0; result_there = inner.0; passed = found.0; files = found.1 }

on_dir_complete :
    (s : Store) (dir : Place) (r : Option Place) → IsComplete s dir r → on_dir s (some dir) r ≡ pass
unfolding on_dir AllThere
on_dir_complete s dir r c = (unless_ok_iff (s.exists dir) latest_path_missing _).1 (
  c.dir_there,
  (unless_ok_iff (s.exists (result_place dir r)) result_json_missing _).1
      (c.result_there, on_read_complete s dir (s.read (result_place dir r)) c.passed c.files),
)

pointed :
    (s : Store) (o r : Option Place)
    → on_dir s o r ≡ pass
    → (dir : Place) × (o ≡ some dir) × IsComplete s dir r
unfolding on_dir
pointed s none r h = cc
pointed s (some dir) r h = (dir, refl, on_dir_sound s dir r h)

validate_latest_sound : (s : Store) (l : Latest) → validate_latest s l ≡ pass → IsValidPointer s l
unfolding validate_latest
validate_latest_sound s l h =
    let one = (unless_ok_iff l.exists latest_missing _).0 h in
    let two = (unless_ok_iff (not l.read_error) latest_json_invalid _).0 one.1 in
    let three =
      (unless_ok_iff (is_schema_version l.schema_version) latest_schema_mismatch _).0 two.1 in
    let (dir, points, complete) = pointed s l.latest_path l.result_path three.1 in
    record {
      present = one.0;
      readable = ground (arith, two.0);
      version = three.0;
      dir = dir;
      points = points;
      complete = complete;
    }

validate_latest_complete :
    (s : Store) (l : Latest) → IsValidPointer s l → validate_latest s l ≡ pass
unfolding validate_latest
validate_latest_complete s l v = (unless_ok_iff l.exists latest_missing _).1 (
  v.present,
  (unless_ok_iff (not l.read_error) latest_json_invalid _).1 (
    ground (arith, v.readable),
    (unless_ok_iff (is_schema_version l.schema_version) latest_schema_mismatch _).1 (
      v.version,
      subst (λ o. on_dir s o l.result_path ≡ pass) (sym v.points)
          (on_dir_complete s v.dir l.result_path v.complete),
    ),
  ),
)

on_time_sound :
    (now threshold : ℕ) (o : Option ℕ)
    → on_time now threshold o ≡ pass
    → (t : ℕ) × (o ≡ some t) × (age_sec now t ≤ threshold)
unfolding on_time
on_time_sound now threshold none h = cc
on_time_sound now threshold (some t) h = (
  t,
  refl,
  leb→le (age_sec now t) threshold
      ((unless_ok_iff (leb (age_sec now t) threshold) latest_too_old pass).0 h).0,
)

after_integrity_sound :
    (now threshold : ℕ) (l : Latest) (v : Verdict)
    → after_integrity now threshold l v ≡ pass
    → (v ≡ pass) × (on_time now threshold l.finished_at ≡ pass)
unfolding after_integrity
after_integrity_sound now threshold l pass h = (refl, h)
after_integrity_sound now threshold l raised h = cc
after_integrity_sound now threshold l (fail why) h = cc

on_latest_sound :
    (s : Store) (now threshold : ℕ) (o : Option Latest)
    → on_latest s now threshold o ≡ pass
    → (l : Latest) × (o ≡ some l)
      × (validate_latest s l ≡ pass)
      × (on_time now threshold l.finished_at ≡ pass)
unfolding on_latest
on_latest_sound s now threshold none h = cc
on_latest_sound s now threshold (some l) h =
    let both = after_integrity_sound now threshold l (validate_latest s l) h in
    (l, refl, both.0, both.1)

evaluate_sound :
    (s : Store) (now threshold : ℕ)
    → evaluate_state_pack_freshness s now threshold ≡ pass
    → IsCurrent s now threshold
unfolding evaluate_state_pack_freshness
evaluate_sound s now threshold h =
    let (l, loaded, valid, timely) = on_latest_sound s now threshold (load_latest s) h in
    let (t, dated, recent) = on_time_sound now threshold l.finished_at timely in
    record {
      latest = l;
      loaded = loaded;
      valid = validate_latest_sound s l valid;
      time = t;
      dated = dated;
      recent = recent;
    }

evaluate_complete :
    (s : Store) (now threshold : ℕ)
    → IsCurrent s now threshold
    → evaluate_state_pack_freshness s now threshold ≡ pass
unfolding evaluate_state_pack_freshness on_latest after_integrity on_time
evaluate_complete s now threshold c =
    rw (c.loaded, on_latest, validate_latest_complete s c.latest c.valid, c.dated)
      ((unless_ok_iff (leb (age_sec now c.time) threshold) latest_too_old pass).1
        (le→leb (age_sec now c.time) threshold c.recent, refl))

-- The evaluation passes exactly when the pointer to the latest pack can be read and has the version,
-- the pack has every required file, the marker and a result that says PASS, and its time is known
-- and no older than the threshold.
pub evaluate_state_pack_freshness_iff :
    (s : Store) (now threshold : ℕ)
    → (evaluate_state_pack_freshness s now threshold ≡ pass) ↔ IsCurrent s now threshold
evaluate_state_pack_freshness_iff s now threshold =
    (evaluate_sound s now threshold, evaluate_complete s now threshold)
