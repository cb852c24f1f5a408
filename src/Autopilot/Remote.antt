-- ===== src/Autopilot/Remote.antt =====
-- ops/lib/aiops_remote_helpers.py: what the console's answers say.
use ai_ops_runner.Base.{
  leb, if◌then◌else◌, get_or, ℕ, ◌-◌, String, Bool, true, false, ◌&&◌, ◌||◌, Option, none, some,
  List, [], ◌∷◌, map,
}
use ai_ops_runner.Base.Dict
use ai_ops_runner.Base.Dict.{Dict}
use ai_ops_runner.Base.Json.{Json, bool, str, truthy, as_dict}
use ai_ops_runner.Base.Text.{Text, codes, strip, lower, text_eq}

-- `json.loads`, and what `str` makes of a value that is no text
pub record Reader : Type 0 where
  pub loads : Text → Option Json
  pub shows : Json → Text

-- `str(value)`
unfoldable pub shown : Reader → Json → Text
shown r (str s) = codes s
shown r v = r.shows v

-- `str(value or "")`
unfoldable pub shown_or_empty : Reader → Option Json → Text
unfolding shown
shown_or_empty r none = []
shown_or_empty r (some v) = if truthy v then shown r v else []

dict_in : Option Json → Option (Dict Json)
dict_in none = none
dict_in (some v) = as_dict v

-- `_safe_json_loads`, which gives nothing but objects
unfoldable pub safe_json_loads : Reader → Text → Option (Dict Json)
unfolding dict_in
safe_json_loads r raw = if text_eq (strip raw) [] then none else dict_in (r.loads (strip raw))

-- `status.strip().lower()`
abbrev pub normal : Text → Text
normal t = lower (strip t)

pub record RunPoll : Type 0 where
  pub ok : Bool
  pub status : Text
  pub artifact_dir : Option Text
  pub run : Dict Json

is_true : Option Json → Bool
is_true (some (bool true)) = true
is_true _ = false

nonempty : Text → Option Text
nonempty [] = none
nonempty (c ∷ s) = some (c ∷ s)

dir_in : Reader → Option Json → Option Text
unfolding nonempty shown
dir_in r none = none
dir_in r (some Json.null) = none
dir_in r (some v) = nonempty (shown r v)

-- `parse_run_poll_response`
unfoldable pub parse_run_poll_response : Reader → Text → RunPoll
unfolding is_true dir_in dict_in safe_json_loads shown_or_empty
parse_run_poll_response r body =
    let payload = get_or (safe_json_loads r body) [] in
    let run = get_or (dict_in (Dict.get payload "run")) [] in
    record {
      ok = is_true (Dict.get payload "ok");
      status = normal (shown_or_empty r (Dict.get run "status"));
      artifact_dir = dir_in r (Dict.get run "artifact_dir");
      run = run;
    }

content_of : Option Json → Option Text
content_of (some (str s)) = some (codes s)
content_of _ = none

loads_content : Reader → Option Text → Option (Dict Json)
unfolding safe_json_loads
loads_content r none = none
loads_content r (some t) = safe_json_loads r t

-- the file of an answer that is there and not empty
proof_of : Reader → Option (Dict Json) → Option (Dict Json)
unfolding loads_content content_of
proof_of r none = none
proof_of r (some payload) = loads_content r (content_of (Dict.get payload "content"))

-- `parse_artifact_browse_proof`
unfoldable pub parse_artifact_browse_proof : Reader → Text → Option (Dict Json)
unfolding proof_of
parse_artifact_browse_proof r body = proof_of r (safe_json_loads r body)

pub data Terminal : Type 0 where
  success waiting_for_human failed running : Terminal

-- str.upper() on one character
upper_code : ℕ → ℕ
upper_code c = if leb b'a' c && leb c b'z' then c - 32 else c

-- the status of a proof; a `null` is none
proof_status : Reader → Option Json → Text
unfolding upper_code shown
proof_status r none = []
proof_status r (some Json.null) = []
proof_status r (some v) = map upper_code (strip (shown r v))

is_one_of : List String → Text → Bool
is_one_of [] t = false
is_one_of (s ∷ ss) t = text_eq t (codes s) || is_one_of ss t

by_run_status : Text → Terminal
unfolding is_one_of
by_run_status s =
    if is_one_of ("queued" ∷ "running" ∷ []) s
    then running
    else if text_eq s (codes "success")
    then success
    else if is_one_of ("failure" ∷ "error" ∷ []) s
    then failed
    else running

by_proof_status : Text → Terminal → Terminal
unfolding is_one_of
by_proof_status p otherwise =
    if text_eq p (codes "WAITING_FOR_HUMAN")
    then waiting_for_human
    else if text_eq p (codes "SUCCESS")
    then success
    else if is_one_of ("FAILURE" ∷ "TIMEOUT" ∷ "FAIL" ∷ []) p
    then failed
    else otherwise

-- the terminal status of `classify_soma_terminal_status`: the proof has the first word
unfoldable pub classify_soma_terminal_status : Reader → Text → Option (Dict Json) → Terminal
unfolding by_run_status by_proof_status proof_status
classify_soma_terminal_status r run_status proof =
    by_proof_status (proof_status r (Dict.get (get_or proof []) "status"))
      (by_run_status (normal run_status))
