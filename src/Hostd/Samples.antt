-- ===== src/Hostd/Samples.antt =====
-- Concrete requests of the host executor.
use ai_ops_runner.Base.{
  All, eq_iff, ℕ, String, ◌≡◌, refl, true, false, none, some, List, [], ◌∷◌, ◌++◌, arith,
}
use ai_ops_runner.Base.Dict
use ai_ops_runner.Base.Dict.{Dict}
use ai_ops_runner.Base.Int.{ℤ, pos}
use ai_ops_runner.Base.Json.{
  Json, str, int, obj, arr, field, end, cons, nil, as_dict, truthy, or_empty, items,
}
use ai_ops_runner.Base.Text.{codes, strip}
use ai_ops_runner.Base.Pieces.{replace}
use ai_ops_runner.Rootd.Server.{Daemon, Request, number, do_post, respond, load_hmac_key}
use ai_ops_runner.Rootd.Exec.{exited}
use ai_ops_runner.Rootd.Command.{World, handle_command}
use ai_ops_runner.Hostd.Registry.{
  Loading, Spec, Entry, entries_of, read_entries, read_entry, nonempty_text, to_int,
  load_allowlist_from_registry, allowlist_of,
}
use ai_ops_runner.Hostd.Registry.Lookup.{expected, get-allowlist_of}
use ai_ops_runner.Hostd.Secrets.{Vault, handle_secrets_upload}
use ai_ops_runner.Hostd.Secrets.Confined.{Stored, handle_secrets_upload-Stored}
use ai_ops_runner.Hostd.Action.{ended, Station, ActionEnd, save_all, returned, cut_output}
use ai_ops_runner.Hostd.Action.Run.{run_action}
use ai_ops_runner.Hostd.Action.Run.Records.{IsRecorded, run_action-IsRecorded}
use ai_ops_runner.Hostd.Action.Run.Truth.{IsSuccess, run_action-IsSuccess}
use ai_ops_runner.Hostd.Client.{Link, unreachable, client_exec, payload}
use ai_ops_runner.Hostd.Client.Signed.{request_fields, IsPaired, client_exec-do_post}
use ai_ops_runner.Hostd.Service.{Service, Call}
use ai_ops_runner.Hostd.Server
use ai_ops_runner.Hostd.Server.Guarded.{IsAllowedDeed, do_post-AllAllowed}

abbrev loading : Loading
loading = record { root = codes "/srv"; int_of = λ s. none }

-- two actions, the second of which takes over an alias of the first
abbrev registry : Json
registry = obj (
    field "actions"
      (arr (
        cons
          (obj (
            field "id" (str "doctor") (
              field "cmd_template" (str "cd ${ROOT_DIR}") (
                field "timeout_sec" (int (pos 180))
                  (field "aliases" (arr (cons (str "check") nil)) end)))))
          (cons
            (obj (
              field "id" (str "audit") (
                field "cmd_template" (str "ls")
                  (field "aliases" (arr (cons (str "check") nil)) end))))
            nil)))
      end)

abbrev entry : String → String → ℕ → Entry
entry id script t = record {
  id = id;
  aliases = "check" ∷ [];
  spec = record { cmd = codes "bash" ∷ codes "-c" ∷ codes script ∷ []; timeout_sec = pos t };
}

abbrev entries : List Entry
entries = entry "doctor" "cd /srv" 180 ∷ entry "audit" "ls" 60 ∷ []

get-allowlist_of_example :
    (t : Dict Spec) × (allowlist_of loading (load_allowlist_from_registry loading (some registry))
      ≡ some t)
    × ((name : String) → Dict.get t name ≡ expected loading.root entries name)
unfolding entries_of as_dict Dict.get truthy or_empty read_entries items read_entry nonempty_text
    to_int replace
get-allowlist_of_example = get-allowlist_of loading registry entries refl

abbrev allowlist : Dict Spec
allowlist = ("doctor", (entry "doctor" "cd /srv" 180).spec) ∷ []

-- every process ends with the given code, and every file can be written
abbrev station : ℤ → Station
station code = record {
  run = λ p. ended code (codes "out") [];
  decode = λ s. s;
  loads = λ s. some (obj (field "action" (str "doctor") end));
  makes_dir = true;
  writes = λ name. true;
  os_error = [];
  shows = λ n. [];
}

run_action-IsRecorded_example :
    IsRecorded (run_action (station (pos 3)) allowlist "doctor" "r1" none none)
unfolding Dict.get
run_action-IsRecorded_example =
    run_action-IsRecorded (station (pos 3)) allowlist "doctor" "r1" none none
      (entry "doctor" "cd /srv" 180).spec (λ name. refl) refl refl

abbrev good_end : ActionEnd
good_end = record { exit_code = pos 0; stdout = codes "out"; stderr = []; truncated = false }

run_action-IsSuccess_example :
    IsSuccess
      (station (pos 0))
      allowlist
      "doctor"
      (run_action (station (pos 0)) allowlist "doctor" "r1" none none)
      good_end
unfolding run_action Dict.get save_all returned cut_output
run_action-IsSuccess_example =
    run_action-IsSuccess (station (pos 0)) allowlist "doctor" "r1" none none good_end refl refl

-- every text decodes to this upload, and every content to itself
abbrev vault : Vault
vault = record {
  loading = loading;
  loads = λ s.
      some (obj (field "filename" (str "gmail_client.json") (field "content" (str "e30=") end)));
  b64decode = λ s. some (codes "{}");
  allowlist_file = none;
  makes_dir = λ p. true;
  makes_temp = λ p. true;
  writes = λ p. true;
  fingerprint = λ s. s;
  reads = λ p. none;
}

handle_secrets_upload-Stored_example :
    Stored vault (codes "{}") (handle_secrets_upload vault (codes "{}"))
handle_secrets_upload-Stored_example = handle_secrets_upload-Stored vault (codes "{}")

abbrev link : Link
link = record {
  dumps = λ v. codes "payload";
  loads = λ s. none;
  mac = λ key s. key ++ s;
  key_file = some (codes "0123456789abcdef");
  post = λ r. unreachable "";
  health = unreachable "";
}

abbrev service : Service
service = record {
  sources = record { env = codes "token"; token_file = none; env_file = none };
  allowlist = allowlist;
  station = station (pos 0);
  vault = vault;
  state_file = none;
  link = link;
  fresh = "r1";
}

abbrev call : Call
call = record {
  path = "/exec";
  token = codes "token";
  content_length = number (pos 2);
  stream = codes "{}";
}

do_post-AllAllowed_example : All (IsAllowedDeed service call) (Server.do_post service call).0
do_post-AllAllowed_example = do_post-AllAllowed service call

-- rootd with the client's key
abbrev daemon : Daemon
daemon = record {
  mac = λ key s. key ++ s;
  loads = λ s. some (payload "status" Json.null "r1");
  key_file = some (codes "0123456789abcdef");
  fresh = "r2";
  host = record {
    run = λ args. exited (pos 0) [] [];
    write = λ path content. none;
    is_file = λ f. true;
    install = λ source target. none;
  };
  policy = record { version = none; tiers = []; actions = []; rootd_allowlist = [] };
}

abbrev idle : World
idle = record { effects = []; audits = []; directories = [] }

paired : IsPaired link daemon (payload "status" Json.null "r1")
unfolding load_hmac_key strip
paired = record {
  key = codes "0123456789abcdef";
  has_key = refl;
  same_file = refl;
  same_mac = refl;
  has_mac = λ e. cc;
  decodes = refl;
}

client_exec-do_post_example :
    (r : Request) × ((client_exec link "status" Json.null "r1").0 ≡ some r)
    × (do_post daemon r idle
        ≡ respond (
            handle_command daemon.host daemon.policy daemon.fresh "status"
              (request_fields "status" Json.null "r1")
              idle))
client_exec-do_post_example =
    client_exec-do_post link daemon "status" "r1" Json.null idle paired (omega arith)
      (λ e. ground (arith, (eq_iff "status" "").1 e))
