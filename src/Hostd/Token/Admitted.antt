-- ===== src/Hostd/Token/Admitted.antt =====
-- Who passes the check of the admin token.
use ai_ops_runner.Base.{
  Bool-cases, ◌≡◌, refl, sym, ap, ◌∙◌, ◌≢◌, inl, inr, Option, none, some, [], arith,
}
use ai_ops_runner.Base.Text.{Text, text_eq, text_eq_iff}
use ai_ops_runner.Hostd.Token.{
  TokenSources, AuthSource, admitted, admission, require_admin, resolve_admin_token,
}

-- the header is the token that the service has found, and not empty
pub record IsAdmin (s : TokenSources) (header : Text) : Type 0 where
  pub source : AuthSource
  pub resolved : resolve_admin_token s ≡ some (header, source)
  pub given : header ≢ []

admission_sound :
    (s : TokenSources) (header : Text) (o : Option (Text × AuthSource))
    → resolve_admin_token s ≡ o
    → admission header o ≡ admitted
    → IsAdmin s header
unfolding admission
admission_sound s header none e h = cc
admission_sound s header (some (token, source)) e h = elim (Bool-cases (text_eq header [])) [
  | inl empty ↦ absurd (ground (arith, h, empty))
  | inr given ↦ elim (Bool-cases (text_eq header token)) [
    | inr differs ↦ absurd (ground (arith, h, differs))
    | inl same ↦ record {
      source = source;
      resolved = e ∙ ap (λ (t : Text). some (t, source)) (sym ((text_eq_iff header token).0 same));
      given = λ none'. absurd (ground (arith, given, (text_eq_iff header []).1 none'));
    }
  ]
]

-- Only a request whose header is the admin token itself is admitted, and that token is not empty.
pub require_admin_sound :
    (s : TokenSources) (header : Text) → require_admin s header ≡ admitted → IsAdmin s header
unfolding require_admin
require_admin_sound s header h = admission_sound s header (resolve_admin_token s) refl h
