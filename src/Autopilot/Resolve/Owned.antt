-- ===== src/Autopilot/Resolve/Owned.antt =====
-- Whose proof the autopilot reads.
use ai_ops_runner.Base.{
  nat_beq, if◌then◌else◌, nat_beq_iff, Bool-cases, get_or, take, In, here, there, ℕ, ◌≡◌, refl, sym,
  ap, subst, ◌≢◌, ◌↔◌, ◌⊎◌, inl, inr, true, Option, none, some, List, [], ◌∷◌, ◌++◌, arith,
}
use mathlib.Core.Option.{some-injective}
use ai_ops_runner.Base.Dict.{Dict}
use ai_ops_runner.Base.Json.{Json}
use ai_ops_runner.Base.Text.{Text, codes, strip, text_eq, text_eq_iff}
use ai_ops_runner.Autopilot.Remote.{Reader, parse_artifact_browse_proof}
use ai_ops_runner.Autopilot.Resolve.{
  fetched, trim_slashes, try_fetch_artifact_json, RunDir, Artifacts, scan_limit, fs_scan_no_match,
  pointer_run_dir_missing, pointer_parse_failed, pointer_http, Method, unresolved, fs_scan, pointer,
  Reason, Resolution, console_run_id, is_of, count_one, scan, resolve_by_fs_scan, nothing,
  result_from_local_run_dir, pointer_id, pointer_dir, seen_pointer, points_to, pointer_reason,
  add_reason, on_local_dir, by_local_pointer, by_remote_pointer, by_answer, by_pointer, no_match,
  on_scan, resolve_run_to_done_artifacts,
}

-- A pointer that the search has met, on disk or from the console.
unfoldable pub Met : Artifacts → Dict Json → Type 0
Met a p =
    (a.local_pointer ≡ some p)
    ⊎ ((a.local_pointer ≡ none)
        × ((a.browse (codes "soma_kajabi/run_to_done/LATEST_RUN.json")).0 ≡ 200)
        × (parse_artifact_browse_proof a.reader
              (a.browse (codes "soma_kajabi/run_to_done/LATEST_RUN.json")).1
            ≡ some p))

-- what is there of a file of the directory: the object that the console answers with 200, and no other
unfoldable pub Served : Artifacts → Text → Text → Option (Dict Json) → Type 0
Served a dir file o =
    let answer = a.browse (trim_slashes (codes "soma_kajabi/run_to_done/" ++ dir) ++ file) in
    (q : Dict Json)
    → (o ≡ some q) ↔ ((answer.0 ≡ 200) × (parse_artifact_browse_proof a.reader answer.1 ≡ some q))

-- the result is that of a directory on disk
pub record IsLocal (out : Resolution) (d : RunDir) : Type 0 where
  run_dir : out.run_dir ≡ some d.name
  proof : out.proof ≡ (if d.proof_exists then d.proof else none)
  precheck : out.precheck ≡ (if d.precheck_exists then d.precheck else none)

-- the result is that of a directory of the console's artifacts
pub record IsRemote (a : Artifacts) (dir : Text) (out : Resolution) : Type 0 where
  run_dir : out.run_dir ≡ some (codes "artifacts/soma_kajabi/run_to_done/" ++ dir)
  proof : Served a dir (codes "/PROOF.json") out.proof
  precheck : Served a dir (codes "/PRECHECK.json") out.precheck

-- The pointer names the run, and the result is that of the directory that the pointer names.
pub record IsPointed (a : Artifacts) (id : Text) (out : Resolution) : Type 0 where
  payload : Dict Json
  met : Met a payload
  names_run : pointer_id payload ≡ id
  names_dir : pointer_dir payload ≢ []
  shown :
      ((d : RunDir) × (a.local_dir (pointer_dir payload) ≡ some d) × IsLocal out d)
      ⊎ IsRemote a (pointer_dir payload) out

-- A directory of the scan: it is listed, and its proof names the run.
pub record IsScanned (a : Artifacts) (id : Text) (out : Resolution) : Type 0 where
  dir : RunDir
  listed : In dir (take scan_limit (get_or a.listed []))
  payload : Dict Json
  has_proof : dir.proof ≡ some payload
  names_run : console_run_id a.reader payload ≡ id
  run_dir : out.run_dir ≡ some dir.name
  proof : out.proof ≡ some payload

unfoldable pub Owns : Artifacts → Text → Resolution → Method → Type 0
Owns a id out unresolved = (out.run_dir ≡ none) × (out.proof ≡ none)
Owns a id out fs_scan = IsScanned a id out
Owns a id out pointer = IsPointed a id out

abbrev pub IsOwned : Artifacts → Text → Resolution → Type 0
IsOwned a id out = Owns a id out out.method

is_of_sound :
    (r : Reader) (id : Text) (o : Option (Dict Json))
    → is_of r id o ≡ true
    → (p : Dict Json) × (o ≡ some p) × (console_run_id r p ≡ id)
unfolding is_of
is_of_sound r id none h = cc
is_of_sound r id (some p) h = (p, refl, (text_eq_iff (console_run_id r p) id).0 h)

scan_sound :
    (r : Reader) (id : Text) (ds : List RunDir) (d : RunDir)
    → (scan r id ds).matched ≡ some d
    → In d ds × ((p : Dict Json) × (d.proof ≡ some p) × (console_run_id r p ≡ id))
unfolding scan count_one
scan_sound r id [] d h = cc
scan_sound r id (x ∷ ds) d h = elim (Bool-cases (is_of r id x.proof)) [
  | inl e ↦
      let same : x ≡ d = some-injective x d (ground (arith, h, e)) in
      (
        here (sym same),
        subst (λ (y : RunDir). (p : Dict Json) × (y.proof ≡ some p) × (console_run_id r p ≡ id))
            same (is_of_sound r id x.proof e),
      )
  | inr e ↦ let later = scan_sound r id ds d (ground (arith, h, e)) in (there later.0, later.1)
]

-- nothing has been found yet
record IsBlank (out : Resolution) : Type 0 where
  no_method : out.method ≡ unresolved
  no_dir : out.run_dir ≡ none
  no_proof : out.proof ≡ none
  no_precheck : out.precheck ≡ none

blank-IsOwned : (a : Artifacts) (id : Text) (out : Resolution) → IsBlank out → IsOwned a id out
unfolding Owns
blank-IsOwned a id out h = subst (Owns a id out) (sym h.no_method) (h.no_dir, h.no_proof)

-- reasons, and what a pointer says, find nothing
add_reason-IsBlank : (why : Reason) (out : Resolution) → IsBlank out → IsBlank (add_reason why out)
unfolding add_reason
add_reason-IsBlank why out h = record {
  no_method = h.no_method;
  no_dir = h.no_dir;
  no_proof = h.no_proof;
  no_precheck = h.no_precheck;
}

reason-IsOwned :
    (a : Artifacts) (id : Text) (why : Reason) (out : Resolution)
    → IsBlank out
    → IsOwned a id (add_reason why out)
reason-IsOwned a id why out h = blank-IsOwned a id _ (add_reason-IsBlank why out h)

-- what is recorded of a pointer
seen-IsBlank :
    (out : Resolution) (seen dir : Text) (code : Option ℕ)
    → IsBlank out
    → IsBlank
        (record out { console_run_id_seen = seen; run_dir_seen = dir; pointer_http_code = code })
seen-IsBlank out seen dir code blank = record {
  no_method = blank.no_method;
  no_dir = blank.no_dir;
  no_proof = blank.no_proof;
  no_precheck = blank.no_precheck;
}

points_to_sound :
    (id : Text) (p : Dict Json) → points_to id p ≡ true → (pointer_id p ≡ id) × (pointer_dir p ≢ [])
unfolding points_to
points_to_sound id p h =
    ground (arith, h, text_eq_iff (pointer_id p) id, text_eq_iff (pointer_dir p) [])

local-IsLocal :
    (out : Resolution) (d : RunDir)
    → IsBlank out
    → IsLocal (result_from_local_run_dir out pointer d) d
unfolding result_from_local_run_dir
local-IsLocal out d blank = record {
  run_dir = refl;
  proof = ap (λ o. if d.proof_exists then d.proof else o) blank.no_proof;
  precheck = ap (λ o. if d.precheck_exists then d.precheck else o) blank.no_precheck;
}

fetched_iff :
    (r : Reader) (x : ℕ × Text) (q : Dict Json)
    → (fetched r x ≡ some q) ↔ ((x.0 ≡ 200) × (parse_artifact_browse_proof r x.1 ≡ some q))
unfolding fetched
fetched_iff r (code, body) q = elim (Bool-cases (nat_beq code 200)) [
  | inl e ↦ rw e (λ h. ((nat_beq_iff code 200).0 e, h), λ h. h.1)
  | inr e ↦ rw e (λ h. cc, λ h. absurd (ground (arith, e, h.0)))
]

module _ (a : Artifacts) (id : Text) where
  on_local_dir-IsOwned :
      (out : Resolution) (p : Dict Json) (o : Option RunDir)
      → IsBlank out
      → Met a p
      → (pointer_id p ≡ id) × (pointer_dir p ≢ [])
      → a.local_dir (pointer_dir p) ≡ o
      → IsOwned a id (on_local_dir out (pointer_dir p) o)
  unfolding on_local_dir result_from_local_run_dir Owns
  on_local_dir-IsOwned out p (some d) blank met names found = record {
    payload = p;
    met = met;
    names_run = names.0;
    names_dir = names.1;
    shown = inl (d, found, local-IsLocal out d blank);
  }
  on_local_dir-IsOwned out p none blank met names found =
      reason-IsOwned a id (pointer_run_dir_missing (pointer_dir p))
        (record out { pointer_http_code = some 200 })
        (seen-IsBlank out out.console_run_id_seen out.run_dir_seen (some 200) blank)

  by_local_pointer-IsOwned :
      (out : Resolution) (p : Dict Json)
      → IsBlank out
      → Met a p
      → IsOwned a id (by_local_pointer a id out p)
  unfolding by_local_pointer seen_pointer
  by_local_pointer-IsOwned out p blank met = elim (Bool-cases (points_to id p)) [
    | inl e ↦ rw e (
        on_local_dir-IsOwned (seen_pointer out p) p (a.local_dir (pointer_dir p))
          (seen-IsBlank out (pointer_id p) (pointer_dir p) out.pointer_http_code blank) met
          (points_to_sound id p e) refl)
    | inr e ↦ rw e (
        reason-IsOwned a id (pointer_reason p)
          (record (seen_pointer out p) { pointer_http_code = some 200 })
          (seen-IsBlank out (pointer_id p) (pointer_dir p) (some 200) blank))
  ]

  by_remote_pointer-IsOwned :
      (out : Resolution) (o : Option (Dict Json))
      → IsBlank out
      → ((p : Dict Json) → o ≡ some p → Met a p)
      → IsOwned a id (by_remote_pointer a id out o)
  unfolding by_remote_pointer seen_pointer Owns Served try_fetch_artifact_json
  by_remote_pointer-IsOwned out none blank met = reason-IsOwned a id pointer_parse_failed out blank
  by_remote_pointer-IsOwned out (some p) blank met = elim (Bool-cases (points_to id p)) [
    | inl e ↦
        let names = points_to_sound id p e in
        rw e record {
          payload = p;
          met = met p refl;
          names_run = names.0;
          names_dir = names.1;
          shown = inr record {
            run_dir = refl;
            proof = λ q. fetched_iff a.reader _ q;
            precheck = λ q. fetched_iff a.reader _ q;
          };
        }
    | inr e ↦ rw e (
        reason-IsOwned a id (pointer_reason p) (seen_pointer out p)
          (seen-IsBlank out (pointer_id p) (pointer_dir p) out.pointer_http_code blank))
  ]

  by_answer-IsOwned :
      (out : Resolution) (x : ℕ × Text)
      → IsBlank out
      → ((p : Dict Json) → x.0 ≡ 200 → parse_artifact_browse_proof a.reader x.1 ≡ some p → Met a p)
      → IsOwned a id (by_answer a id out x)
  unfolding by_answer
  by_answer-IsOwned out (code, body) blank met =
      let seen = seen-IsBlank out out.console_run_id_seen out.run_dir_seen (some code) blank in
      elim (Bool-cases (nat_beq code 200)) [
        | inl e ↦ rw e (
            by_remote_pointer-IsOwned (record out { pointer_http_code = some code })
              (parse_artifact_browse_proof a.reader body) seen
              (λ p same. met p ((nat_beq_iff code 200).0 e) same))
        | inr e ↦ rw e (
            reason-IsOwned a id (pointer_http code) (record out { pointer_http_code = some code })
              seen)
      ]

  by_pointer-IsOwned :
      (out : Resolution) (o : Option (Dict Json))
      → IsBlank out
      → a.local_pointer ≡ o
      → IsOwned a id (by_pointer a id out o)
  unfolding by_pointer Met
  by_pointer-IsOwned out (some p) blank e = by_local_pointer-IsOwned out p blank (inl e)
  by_pointer-IsOwned out none blank e =
      by_answer-IsOwned out _ blank (λ p ok same. inr (e, ok, same))

no_match-IsBlank : (id : Text) (out : Resolution) → IsBlank out → IsBlank (no_match id out)
unfolding no_match
no_match-IsBlank id out blank = elim (Bool-cases (text_eq (strip id) [])) [
  | inl e ↦ rw e blank
  | inr e ↦ rw e (add_reason-IsBlank fs_scan_no_match out blank)
]

ScanFound : Artifacts → Text → RunDir → Type 0
ScanFound a id d =
    In d (take scan_limit (get_or a.listed []))
    × ((p : Dict Json) × (d.proof ≡ some p) × (console_run_id a.reader p ≡ id))

on_scan-IsOwned :
    (a : Artifacts) (id : Text) (n : ℕ) (o : Option RunDir)
    → ((d : RunDir) → o ≡ some d → ScanFound a id d)
    → IsOwned a id (on_scan a id n o)
unfolding on_scan result_from_local_run_dir nothing Owns ScanFound
on_scan-IsOwned a id n (some d) h =
    let (listed, (p, has_proof, names)) = h d refl in
    record {
      dir = d;
      listed = listed;
      payload = p;
      has_proof = has_proof;
      names_run = names;
      run_dir = refl;
      proof = has_proof;
    }
on_scan-IsOwned a id n none h =
    by_pointer-IsOwned a id _ a.local_pointer
      (no_match-IsBlank id _
        record { no_method = refl; no_dir = refl; no_proof = refl; no_precheck = refl })
      refl

resolve_by_fs_scan_sound :
    (a : Artifacts) (id : Text) (d : RunDir)
    → (resolve_by_fs_scan a id).matched ≡ some d
    → ScanFound a id d
unfolding resolve_by_fs_scan ScanFound
resolve_by_fs_scan_sound a id d h = elim (Bool-cases (text_eq (strip id) [])) [
  | inl e ↦ absurd (ground (arith, h, e))
  | inr e ↦ scan_sound a.reader id (take scan_limit (get_or a.listed [])) d (ground (arith, h, e))
]

-- The directory and the proof that the search comes back with belong to the run asked for. By the
-- scan they are those of a listed directory whose proof names the run. By the pointer, a pointer that
-- was met names the run and a directory, and the result shows that directory: on disk with its own
-- files, or on the console with the objects that it serves for the directory's files. Otherwise
-- there is neither a directory nor a proof.
pub resolve_run_to_done_artifacts-IsOwned :
    (a : Artifacts) (id : Text) → IsOwned a id (resolve_run_to_done_artifacts a id)
unfolding resolve_run_to_done_artifacts
resolve_run_to_done_artifacts-IsOwned a id =
    on_scan-IsOwned a id _ (resolve_by_fs_scan a id).matched (resolve_by_fs_scan_sound a id)
