-- ===== src/Hostd/Secrets.antt =====
-- The upload of secrets in ops/openclaw_hostd.py: an allowlist of file names, and the checks that a
-- file passes before it replaces the one on disk.
pub mod Confined
use mathlib.Core.Option
use ai_ops_runner.Base.{
  ltb, if◌then◌else◌, length, ◌==◌, string_eq, ℕ, min, max, String, Bool, not, ◌||◌, Option, none,
  some, [], ◌∷◌, ◌++◌, map,
}
use ai_ops_runner.Base.Dict
use ai_ops_runner.Base.Dict.{Dict}
use ai_ops_runner.Base.Int.{ℤ, pos, negsuc}
use ai_ops_runner.Base.Json.{Json, int, bool, float, str, obj, members, as_dict}
use ai_ops_runner.Base.Text.{Text, codes, text_starts_with, text_contains}
use ai_ops_runner.Base.Pieces.{normpath}
use ai_ops_runner.Hostd.Registry.{Loading, to_int, nonempty_text}

abbrev pub max_secret_size : ℕ
max_secret_size = 131072

-- What surrounds an upload: the decoding of a text as JSON and as base64, the allowlist's file if
-- it can be read, which steps of the write succeed for a path, the hash's first characters, and the
-- content of a file that is there and readable.
pub record Vault : Type 0 where
  pub loading : Loading
  pub loads : Text → Option Json
  pub b64decode : String → Option Text
  pub allowlist_file : Option Json
  pub makes_dir : Text → Bool
  pub makes_temp : Text → Bool
  pub writes : Text → Bool
  pub fingerprint : Text → Text
  pub reads : Text → Option Text

-- absolute paths by file name, and the largest size
pub record Uploads : Type 0 where
  pub files : Dict Text
  pub max_size : ℕ

abbrev pub default_files : Dict Text
default_files =
    ("gmail_client.json", codes "/etc/ai-ops-runner/secrets/soma_kajabi/gmail_client.json") ∷ []

abbrev defaults : Uploads
defaults = record { files = default_files; max_size = max_secret_size }

-- `max(1, min(size, 131072))`
clamp : ℤ → ℕ
clamp (pos n) = max 1 (min n max_secret_size)
clamp (negsuc n) = 1

-- the value is a number: a bool is one too
size_of : Loading → Option Json → Option ℤ
size_of l (some (int n)) = some n
size_of l (some (bool b)) = to_int l (bool b)
size_of l (some (float x)) = to_int l (float x)
size_of l _ = some (pos max_secret_size)

-- the value, unless the key or the value is empty or no text, or the key holds two dots
upload_entry : String → Option String → Option Text
upload_entry k none = none
upload_entry k (some v) =
    if k == "" || text_contains (codes k) (codes "..") then none else some (normpath (codes v))

add_file : String → Option Text → Dict Text → Dict Text
add_file k none out = out
add_file k (some path) out = Dict.put out k path

unfoldable pub add_files : Dict Json → Dict Text → Dict Text
unfolding upload_entry add_file
add_files [] out = out
add_files ((k, v) ∷ d) out = add_files d (add_file k (upload_entry k (nonempty_text (some v))) out)

or_default : Dict Text → Dict Text
or_default [] = default_files
or_default (e ∷ d) = e ∷ d

with_size : Dict Text → Option ℤ → Option Uploads
unfolding or_default clamp
with_size out none = none
with_size out (some n) = some record { files = or_default out; max_size = clamp n }

with_uploads : Loading → Dict Json → Option (Dict Json) → Option Uploads
unfolding with_size add_files size_of
with_uploads l d none = some defaults
with_uploads l d (some entries) =
    with_size (add_files entries []) (size_of l (Dict.get d "max_size_bytes"))

as_object : Option Json → Option (Dict Json)
as_object none = none
as_object (some v) = as_dict v

on_config : Loading → Option (Dict Json) → Option Uploads
unfolding with_uploads as_object
on_config l none = none
on_config l (some d) = with_uploads l d (as_object (Dict.get d "uploads"))

-- `_load_secrets_allowlist`; `none` is an exception that it does not catch
unfoldable pub load_secrets_allowlist : Loading → Option Json → Option Uploads
unfolding on_config
load_secrets_allowlist l none = some defaults
load_secrets_allowlist l (some v) = on_config l (as_dict v)

abbrev secrets_base : Text
secrets_base = codes "/etc/ai-ops-runner/secrets"

-- `_redact_path`; the last character is the ellipsis
unfoldable pub redact_path : Text → Text
redact_path p =
    if text_starts_with p secrets_base
    then secrets_base ++ codes "/" ++ 8230 ∷ []
    else codes "/" ++ 8230 ∷ []

pub data UploadBody : Type 0 where
  invalid_json body_must_be_object missing_filename missing_content : UploadBody
  filename_not_allowlisted invalid_base64 content_must_be_object content_not_json : UploadBody
  cannot_create_dir write_failed : UploadBody
  content_exceeds : ℕ → UploadBody
  saved : Text → Text → UploadBody

-- the answer, and the file that the upload has replaced with its new content
pub record UploadEnd : Type 0 where
  pub status : ℕ
  pub body : UploadBody
  pub stored : Option (Text × Text)

refuse : ℕ → UploadBody → Option UploadEnd
refuse code b = some record { status = code; body = b; stored = none }

-- makedirs, mkstemp, then the write and the rename
store : Vault → Text → Text → Option UploadEnd
unfolding redact_path refuse
store v path content =
    if not (v.makes_dir path)
    then refuse 500 cannot_create_dir
    else if not (v.makes_temp path)
    then none
    else if v.writes path
    then some record {
      status = 200;
      body = saved (redact_path path) (v.fingerprint content);
      stored = some (path, content);
    }
    else refuse 500 write_failed

on_parsed : Vault → Text → Text → Option Json → Option UploadEnd
unfolding store refuse
on_parsed v path content (some (obj fs)) = store v path content
on_parsed v path content (some _) = refuse 400 content_must_be_object
on_parsed v path content none = refuse 400 content_not_json

on_content : Vault → ℕ → Text → Option Text → Option UploadEnd
unfolding on_parsed refuse
on_content v size path none = refuse 400 invalid_base64
on_content v size path (some content) =
    if ltb size (length content)
    then refuse 400 (content_exceeds size)
    else on_parsed v path content (v.loads content)

on_path : Vault → ℕ → String → Option Text → Option UploadEnd
unfolding on_content refuse
on_path v size encoded none = refuse 403 filename_not_allowlisted
on_path v size encoded (some path) = on_content v size path (v.b64decode encoded)

on_uploads : Vault → String → String → Option Uploads → Option UploadEnd
unfolding on_path
on_uploads v filename encoded none = none
on_uploads v filename encoded (some u) = on_path v u.max_size encoded (Dict.get u.files filename)

on_fields : Vault → Option String → Option String → Option UploadEnd
unfolding on_uploads refuse
on_fields v none encoded = refuse 400 missing_filename
on_fields v (some filename) none = refuse 400 missing_content
on_fields v (some filename) (some encoded) =
    on_uploads v filename encoded (load_secrets_allowlist v.loading v.allowlist_file)

on_body : Vault → Option (Dict Json) → Option UploadEnd
unfolding on_fields refuse
on_body v none = refuse 400 body_must_be_object
on_body v (some d) =
    on_fields v (nonempty_text (Dict.get d "filename")) (nonempty_text (Dict.get d "content"))

on_json : Vault → Option Json → Option UploadEnd
unfolding on_body refuse
on_json v none = refuse 400 invalid_json
on_json v (some j) = on_body v (as_dict j)

-- `handle_secrets_upload`; `none` is an exception that it does not catch
unfoldable pub handle_secrets_upload : Vault → Text → Option UploadEnd
unfolding on_json
handle_secrets_upload v body = on_json v (v.loads body)

-- whether the secret is there, and its fingerprint
pub data SecretStatus : Type 0 where
  no_secret : SecretStatus
  secret : Text → SecretStatus

status_of : Vault → Option Text → SecretStatus
status_of v none = no_secret
status_of v (some content) = secret (v.fingerprint content)

-- a file name that is not listed, or an empty path
status_at : Vault → Option Text → SecretStatus
unfolding status_of
status_at v none = no_secret
status_at v (some []) = no_secret
status_at v (some (c ∷ path)) = status_of v (v.reads (c ∷ path))

-- `_gmail_client_secret_status`; `none` is an exception of the allowlist
unfoldable pub gmail_client_secret_status : Vault → Option SecretStatus
unfolding status_at
gmail_client_secret_status v =
    Option.map (λ (u : Uploads). status_at v (Dict.get u.files "gmail_client.json"))
      (load_secrets_allowlist v.loading v.allowlist_file)
