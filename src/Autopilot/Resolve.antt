-- ===== src/Autopilot/Resolve.antt =====
-- `resolve_run_to_done_artifacts` of ops/system/project_autopilot.py: the directory of a run is looked
-- for among the local ones, then by the pointer to the latest one, on disk or from the console.
pub mod Owned
use ai_ops_runner.Base.{
  nat_beq, if◌then◌else◌, get_or, length, take, ℕ, suc, String, Bool, false, not, ◌&&◌, Option,
  none, some, List, [], ◌∷◌, ◌++◌,
}
use ai_ops_runner.Base.Dict
use ai_ops_runner.Base.Dict.{Dict}
use ai_ops_runner.Base.Json.{Json, str}
use ai_ops_runner.Base.Text.{Text, codes, strip, text_eq}
use ai_ops_runner.Autopilot.Remote.{Reader, shown_or_empty, parse_artifact_browse_proof}

-- a directory run_to_done_*, as `rel_artifact_path` shows it, with its PROOF.json and PRECHECK.json where they are there
pub record RunDir : Type 0 where
  pub name : Text
  pub proof_exists : Bool
  pub proof : Option (Dict Json)
  pub precheck_exists : Bool
  pub precheck : Option (Dict Json)

-- What a search meets: the local directories, the latest first, unless they cannot be listed; a
-- local directory by its name; LATEST_RUN.json if it is there and an object; the console's answers
-- to a path.
pub record Artifacts : Type 0 where
  pub reader : Reader
  pub listed : Option (List RunDir)
  pub local_dir : Text → Option RunDir
  pub local_pointer : Option (Dict Json)
  pub browse : Text → ℕ × Text

abbrev pub scan_limit : ℕ
scan_limit = 200

pub data Method : Type 0 where
  unresolved fs_scan pointer : Method

pub data Reason : Type 0 where
  fs_scan_no_match pointer_console_run_id_missing pointer_run_dir_empty pointer_parse_failed :
      Reason
  pointer_run_dir_missing : Text → Reason
  pointer_console_run_id_mismatch : Text → Reason
  pointer_http : ℕ → Reason

pub record Resolution : Type 0 where
  pub method : Method
  pub run_dir : Option Text
  pub proof : Option (Dict Json)
  pub precheck : Option (Dict Json)
  pub console_run_id_seen : Text
  pub run_dir_seen : Text
  pub checked_count : ℕ
  pub pointer_http_code : Option ℕ
  pub reasons : List Reason

-- the proof's own console run id
unfoldable pub console_run_id : Reader → Dict Json → Text
console_run_id r proof = strip (shown_or_empty r (Dict.get proof "console_run_id"))

pub record Scan : Type 0 where
  pub matched : Option RunDir
  pub checked : ℕ

count_one : Scan → Scan
count_one s = record s { checked = suc s.checked }

is_of : Reader → Text → Option (Dict Json) → Bool
is_of r id none = false
is_of r id (some proof) = text_eq (console_run_id r proof) id

scan : Reader → Text → List RunDir → Scan
unfolding is_of count_one
scan r id [] = record { matched = none; checked = 0 }
scan r id (d ∷ ds) =
    let rest = scan r id ds in
    if is_of r id d.proof then record { matched = some d; checked = 1 } else count_one rest

-- `_resolve_run_to_done_by_fs_scan`
unfoldable pub resolve_by_fs_scan : Artifacts → Text → Scan
unfolding scan
resolve_by_fs_scan a id =
    if text_eq (strip id) []
    then record { matched = none; checked = 0 }
    else scan a.reader id (take scan_limit (get_or a.listed []))

nothing : ℕ → Resolution
nothing checked = record {
  method = unresolved;
  run_dir = none;
  proof = none;
  precheck = none;
  console_run_id_seen = [];
  run_dir_seen = [];
  checked_count = checked;
  pointer_http_code = none;
  reasons = [];
}

-- `_result_from_local_run_dir`
unfoldable pub result_from_local_run_dir : Resolution → Method → RunDir → Resolution
result_from_local_run_dir out m d = record out {
  method = m;
  run_dir = some d.name;
  proof = if d.proof_exists then d.proof else out.proof;
  precheck = if d.precheck_exists then d.precheck else out.precheck;
}

text_in : Option Json → Text
text_in (some (str s)) = codes s
text_in _ = []

or_legacy : Text → Text → Text
or_legacy [] legacy = legacy
or_legacy (c ∷ s) legacy = c ∷ s

-- the run that a pointer names, its older field after the newer one
unfoldable pub pointer_id : Dict Json → Text
unfolding or_legacy text_in
pointer_id p =
    or_legacy (strip (text_in (Dict.get p "console_run_id")))
      (strip (text_in (Dict.get p "run_id")))

unfoldable pub pointer_dir : Dict Json → Text
unfolding text_in
pointer_dir p = strip (text_in (Dict.get p "run_dir"))

seen_pointer : Resolution → Dict Json → Resolution
seen_pointer out p = record out { console_run_id_seen = pointer_id p; run_dir_seen = pointer_dir p }

-- the pointer names this run, and a directory
unfoldable pub points_to : Text → Dict Json → Bool
points_to id p =
    not (text_eq (pointer_id p) []) && not (text_eq (pointer_dir p) []) && text_eq (pointer_id p) id

-- why it does not
pointer_reason : Dict Json → Reason
pointer_reason p =
    if text_eq (pointer_id p) []
    then pointer_console_run_id_missing
    else if text_eq (pointer_dir p) []
    then pointer_run_dir_empty
    else pointer_console_run_id_mismatch (pointer_id p)

add_reason : Reason → Resolution → Resolution
add_reason why out = record out { reasons = out.reasons ++ why ∷ [] }

on_local_dir : Resolution → Text → Option RunDir → Resolution
unfolding add_reason
on_local_dir out dir (some d) = result_from_local_run_dir out pointer d
on_local_dir out dir none =
    add_reason (pointer_run_dir_missing dir) (record out { pointer_http_code = some 200 })

by_local_pointer : Artifacts → Text → Resolution → Dict Json → Resolution
unfolding on_local_dir seen_pointer pointer_reason add_reason
by_local_pointer a id out p =
    if points_to id p
    then on_local_dir (seen_pointer out p) (pointer_dir p) (a.local_dir (pointer_dir p))
    else add_reason (pointer_reason p)
        (record (seen_pointer out p) { pointer_http_code = some 200 })

fetched : Reader → ℕ × Text → Option (Dict Json)
fetched r (code, body) = if nat_beq code 200 then parse_artifact_browse_proof r body else none

-- s.rstrip("/")
pub trim_slashes : Text → Text
trim_slashes [] = []
trim_slashes (c ∷ s) =
    let rest = trim_slashes s in if nat_beq c b'/' && nat_beq (length rest) 0 then [] else c ∷ rest

-- `try_fetch_artifact_json` on a file of the run's directory
unfoldable pub try_fetch_artifact_json : Artifacts → Text → String → Option (Dict Json)
unfolding fetched trim_slashes
try_fetch_artifact_json a dir file =
    fetched a.reader
      (a.browse (trim_slashes (codes "soma_kajabi/run_to_done/" ++ dir) ++ codes file))

by_remote_pointer : Artifacts → Text → Resolution → Option (Dict Json) → Resolution
unfolding seen_pointer pointer_reason add_reason
by_remote_pointer a id out none = add_reason pointer_parse_failed out
by_remote_pointer a id out (some p) =
    if points_to id p
    then record (seen_pointer out p) {
      method = pointer;
      run_dir = some (codes "artifacts/soma_kajabi/run_to_done/" ++ pointer_dir p);
      proof = try_fetch_artifact_json a (pointer_dir p) "/PROOF.json";
      precheck = try_fetch_artifact_json a (pointer_dir p) "/PRECHECK.json";
    }
    else add_reason (pointer_reason p) (seen_pointer out p)

by_answer : Artifacts → Text → Resolution → ℕ × Text → Resolution
unfolding by_remote_pointer add_reason
by_answer a id out (code, body) =
    let seen = record out { pointer_http_code = some code } in
    if nat_beq code 200
    then by_remote_pointer a id seen (parse_artifact_browse_proof a.reader body)
    else add_reason (pointer_http code) seen

by_pointer : Artifacts → Text → Resolution → Option (Dict Json) → Resolution
unfolding by_local_pointer by_answer
by_pointer a id out (some p) = by_local_pointer a id out p
by_pointer a id out none =
    by_answer a id out (a.browse (codes "soma_kajabi/run_to_done/LATEST_RUN.json"))

no_match : Text → Resolution → Resolution
unfolding add_reason
no_match id out = if text_eq (strip id) [] then out else add_reason fs_scan_no_match out

on_scan : Artifacts → Text → ℕ → Option RunDir → Resolution
unfolding by_pointer nothing no_match
on_scan a id checked (some d) = record (result_from_local_run_dir (nothing checked) fs_scan d) {
  proof = d.proof;
}
on_scan a id checked none = by_pointer a id (no_match id (nothing checked)) a.local_pointer

-- `resolve_run_to_done_artifacts`
unfoldable pub resolve_run_to_done_artifacts : Artifacts → Text → Resolution
unfolding on_scan
resolve_run_to_done_artifacts a id =
    let found = resolve_by_fs_scan a id in on_scan a id found.checked found.matched
