-- ===== src/Hostd/Secrets/Confined.antt =====
-- Which files an upload can replace, and with what.
use ai_ops_runner.Base.{
  ltb, Bool-cases, length, ◌==◌, string_eq, ℕ, ◌≤◌, String, ◌≡◌, refl, ap, ◌≢◌, inl, inr, Option,
  none, some, arith,
}
use mathlib.Core.Option.{some-injective}
use ai_ops_runner.Base.Dict
use ai_ops_runner.Base.Dict.{Dict, get-put}
use ai_ops_runner.Base.Int.{ℤ, pos, negsuc}
use ai_ops_runner.Base.Json.{Json, null, bool, int, float, str, arr, obj, as_dict, members, Fields}
use ai_ops_runner.Base.Text.{Text}
use ai_ops_runner.Hostd.Registry.{Loading, nonempty_text}
use ai_ops_runner.Hostd.Secrets.{
  Vault, Uploads, UploadEnd, UploadBody, max_secret_size, clamp, with_size, with_uploads, on_config,
  load_secrets_allowlist, refuse, store, on_parsed, on_content, on_path, on_uploads, on_fields,
  on_body, on_json, handle_secrets_upload,
}

-- The content is a JSON object of bounded size, and the path one that the allowlist gives to a name.
pub record IsAllowedUpload (v : Vault) (path content : Text) : Type 0 where
  pub uploads : Uploads
  pub configured : load_secrets_allowlist v.loading v.allowlist_file ≡ some uploads
  pub filename : String
  pub listed : Dict.get uploads.files filename ≡ some path
  pub small : length content ≤ max_secret_size
  pub fields : Fields
  pub object : v.loads content ≡ some (obj fields)

-- the body of the request is an object with this file name and this encoded content
record IsRequest (v : Vault) (body : Text) (filename encoded : String) : Type 0 where
  fields : Fields
  decoded : v.loads body ≡ some (obj fields)
  named : Dict.get (members fields) "filename" ≡ some (str filename)
  carried : Dict.get (members fields) "content" ≡ some (str encoded)

-- The request has a file name and an encoded content; the path is the one that the allowlist gives
-- to this name, and the content what the encoded one decodes to: a JSON object of bounded size.
pub record IsSentUpload (v : Vault) (body path content : Text) : Type 0 where
  filename : String
  encoded : String
  request : IsRequest v body filename encoded
  uploads : Uploads
  configured : load_secrets_allowlist v.loading v.allowlist_file ≡ some uploads
  listed : Dict.get uploads.files filename ≡ some path
  decoded : v.b64decode encoded ≡ some content
  within : length content ≤ uploads.max_size
  small : length content ≤ max_secret_size
  fields : Fields
  object : v.loads content ≡ some (obj fields)

pub sent-IsAllowedUpload :
    (v : Vault) (body path content : Text)
    → IsSentUpload v body path content
    → IsAllowedUpload v path content
sent-IsAllowedUpload v body path content h = record {
  uploads = h.uploads;
  configured = h.configured;
  filename = h.filename;
  listed = h.listed;
  small = h.small;
  fields = h.fields;
  object = h.object;
}

-- a file is stored exactly if the status is 200, and then it is what was sent
unfoldable pub StoredAs : Vault → Text → ℕ → Option (Text × Text) → Type 0
StoredAs v body status none = status ≢ 200
StoredAs v body status (some (path, content)) = (status ≡ 200) × IsSentUpload v body path content

unfoldable pub Stored : Vault → Text → Option UploadEnd → Type 0
unfolding StoredAs
Stored v body none = Unit
Stored v body (some u) = StoredAs v body u.status u.stored

clamp-bound : (n : ℤ) → clamp n ≤ max_secret_size
unfolding clamp
clamp-bound (pos n) = omega arith
clamp-bound (negsuc n) = omega arith

-- whatever the configuration says, the limit is the built-in one or less
IsBounded : Option Uploads → Type 0
IsBounded none = Unit
IsBounded (some u) = u.max_size ≤ max_secret_size

with_size-IsBounded : (out : Dict Text) (o : Option ℤ) → IsBounded (with_size out o)
unfolding with_size IsBounded
with_size-IsBounded out none = tt
with_size-IsBounded out (some n) = clamp-bound n

with_uploads-IsBounded :
    (l : Loading) (d : Dict Json) (o : Option (Dict Json)) → IsBounded (with_uploads l d o)
unfolding with_uploads IsBounded
with_uploads-IsBounded l d none = omega arith
with_uploads-IsBounded l d (some entries) = with_size-IsBounded _ _

on_config-IsBounded : (l : Loading) (o : Option (Dict Json)) → IsBounded (on_config l o)
unfolding on_config IsBounded
on_config-IsBounded l none = tt
on_config-IsBounded l (some d) = with_uploads-IsBounded l d _

load_secrets_allowlist-IsBounded :
    (l : Loading) (o : Option Json) → IsBounded (load_secrets_allowlist l o)
unfolding load_secrets_allowlist IsBounded
load_secrets_allowlist-IsBounded l none = omega arith
load_secrets_allowlist-IsBounded l (some v) = on_config-IsBounded l (as_dict v)

refuse-Stored :
    (v : Vault) (body : Text) (code : ℕ) (b : UploadBody)
    → code ≢ 200
    → Stored v body (refuse code b)
unfolding refuse Stored
refuse-Stored v body code b ne = ne

module _ (v : Vault) (body : Text) (u : Uploads) (filename encoded : String)
    (request : IsRequest v body filename encoded)
    (configured : load_secrets_allowlist v.loading v.allowlist_file ≡ some u) where
  store-Stored :
      (path content : Text)
      → IsSentUpload v body path content
      → Stored v body (store v path content)
  unfolding store refuse Stored
  store-Stored path content ok = elim (Bool-cases (v.makes_dir path)) [
    | inr e ↦ rw e (omega arith)
    | inl e ↦ elim (Bool-cases (v.makes_temp path)) [
      | inr e' ↦ rw (e, e') tt
      | inl e' ↦ elim (Bool-cases (v.writes path)) [
        | inr e'' ↦ rw (e, e', e'') (omega arith)
        | inl e'' ↦ rw (e, e', e'') (refl, ok)
      ]
    ]
  ]

  on_parsed-Stored :
      (path content : Text) (o : Option Json)
      → v.loads content ≡ o
      → Dict.get u.files filename ≡ some path
      → v.b64decode encoded ≡ some content
      → length content ≤ u.max_size
      → u.max_size ≤ max_secret_size
      → Stored v body (on_parsed v path content o)
  unfolding on_parsed
  on_parsed-Stored path content none e listed decoded within bounded =
      refuse-Stored v body _ _ (omega arith)
  on_parsed-Stored path content (some null) e listed decoded within bounded =
      refuse-Stored v body _ _ (omega arith)
  on_parsed-Stored path content (some (bool b)) e listed decoded within bounded =
      refuse-Stored v body _ _ (omega arith)
  on_parsed-Stored path content (some (int n)) e listed decoded within bounded =
      refuse-Stored v body _ _ (omega arith)
  on_parsed-Stored path content (some (float x)) e listed decoded within bounded =
      refuse-Stored v body _ _ (omega arith)
  on_parsed-Stored path content (some (str s)) e listed decoded within bounded =
      refuse-Stored v body _ _ (omega arith)
  on_parsed-Stored path content (some (arr vs)) e listed decoded within bounded =
      refuse-Stored v body _ _ (omega arith)
  on_parsed-Stored path content (some (obj fs)) e listed decoded within bounded =
      store-Stored path content record {
        uploads = u;
        configured = configured;
        filename = filename;
        encoded = encoded;
        request = request;
        listed = listed;
        decoded = decoded;
        within = within;
        small = omega (arith, within, bounded);
        fields = fs;
        object = e;
      }

  on_content-Stored :
      (path : Text) (o : Option Text)
      → v.b64decode encoded ≡ o
      → Dict.get u.files filename ≡ some path
      → u.max_size ≤ max_secret_size
      → Stored v body (on_content v u.max_size path o)
  unfolding on_content
  on_content-Stored path none decoded listed bounded = refuse-Stored v body _ _ (omega arith)
  on_content-Stored path (some content) decoded listed bounded =
      elim (Bool-cases (ltb u.max_size (length content))) [
        | inl e ↦ rw e (refuse-Stored v body _ _ (omega arith))
        | inr e ↦ rw e (
            on_parsed-Stored path content (v.loads content) refl listed decoded (ground (arith, e))
              bounded)
      ]

  on_path-Stored :
      (o : Option Text)
      → Dict.get u.files filename ≡ o
      → u.max_size ≤ max_secret_size
      → Stored v body (on_path v u.max_size encoded o)
  unfolding on_path
  on_path-Stored none listed bounded = refuse-Stored v body _ _ (omega arith)
  on_path-Stored (some path) listed bounded =
      on_content-Stored path (v.b64decode encoded) refl listed bounded

on_uploads-Stored :
    (v : Vault) (body : Text) (filename encoded : String) (o : Option Uploads)
    → IsRequest v body filename encoded
    → load_secrets_allowlist v.loading v.allowlist_file ≡ o
    → IsBounded o
    → Stored v body (on_uploads v filename encoded o)
unfolding on_uploads Stored IsBounded
on_uploads-Stored v body filename encoded none request configured bounded = tt
on_uploads-Stored v body filename encoded (some u) request configured bounded =
    on_path-Stored v body u filename encoded request configured _ refl bounded

on_fields-Stored :
    (v : Vault) (body : Text) (filename encoded : Option String)
    → ((f e : String) → filename ≡ some f → encoded ≡ some e → IsRequest v body f e)
    → Stored v body (on_fields v filename encoded)
unfolding on_fields
on_fields-Stored v body none encoded request = refuse-Stored v body _ _ (omega arith)
on_fields-Stored v body (some filename) none request = refuse-Stored v body _ _ (omega arith)
on_fields-Stored v body (some filename) (some encoded) request =
    on_uploads-Stored v body filename encoded _ (request filename encoded refl refl) refl
      (load_secrets_allowlist-IsBounded v.loading v.allowlist_file)

nonempty_text_sound : (o : Option Json) (s : String) → nonempty_text o ≡ some s → o ≡ some (str s)
unfolding nonempty_text
nonempty_text_sound none s h = cc
nonempty_text_sound (some null) s h = cc
nonempty_text_sound (some (bool b)) s h = cc
nonempty_text_sound (some (int n)) s h = cc
nonempty_text_sound (some (float x)) s h = cc
nonempty_text_sound (some (arr vs)) s h = cc
nonempty_text_sound (some (obj fs)) s h = cc
nonempty_text_sound (some (str t)) s h = elim (Bool-cases (t == "")) [
  | inl e ↦ absurd (ground (arith, h, e))
  | inr e ↦ ap (λ x. some (str x)) (some-injective t s (ground (arith, h, e)))
]

fields-Stored :
    (v : Vault) (body : Text) (fs : Fields)
    → v.loads body ≡ some (obj fs)
    → Stored v body (on_body v (some (members fs)))
unfolding on_body
fields-Stored v body fs read =
    on_fields-Stored v body (nonempty_text (Dict.get (members fs) "filename"))
      (nonempty_text (Dict.get (members fs) "content"))
      (λ f e named carried. record {
        fields = fs;
        decoded = read;
        named = nonempty_text_sound (Dict.get (members fs) "filename") f named;
        carried = nonempty_text_sound (Dict.get (members fs) "content") e carried;
      })

on_json-Stored :
    (v : Vault) (body : Text) (o : Option Json) → v.loads body ≡ o → Stored v body (on_json v o)
unfolding on_json on_body as_dict
on_json-Stored v body none e = refuse-Stored v body _ _ (omega arith)
on_json-Stored v body (some (obj fs)) e = fields-Stored v body fs e
on_json-Stored v body (some null) e = refuse-Stored v body _ _ (omega arith)
on_json-Stored v body (some (bool b)) e = refuse-Stored v body _ _ (omega arith)
on_json-Stored v body (some (int n)) e = refuse-Stored v body _ _ (omega arith)
on_json-Stored v body (some (float x)) e = refuse-Stored v body _ _ (omega arith)
on_json-Stored v body (some (str t)) e = refuse-Stored v body _ _ (omega arith)
on_json-Stored v body (some (arr vs)) e = refuse-Stored v body _ _ (omega arith)

-- An upload that returns answers 200 exactly when it replaces a file. Then its body is an object with
-- a file name and an encoded content, the file is the one that the allowlist gives to this name, and
-- the new content what the encoded one decodes to: a JSON object no longer than the allowlist says,
-- and of at most 131072 bytes.
pub handle_secrets_upload-Stored :
    (v : Vault) (body : Text) → Stored v body (handle_secrets_upload v body)
unfolding handle_secrets_upload
handle_secrets_upload-Stored v body = on_json-Stored v body (v.loads body) refl
