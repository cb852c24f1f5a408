-- ===== src/Hostd/Token.antt =====
-- The admin token of ops/openclaw_hostd.py: where it is read and how a request is held against it.
pub mod Admitted
use mathlib.Core.List.{reverse}
use mathlib.Core.Option
use ai_ops_runner.Base.{
  nat_beq, if◌then◌else◌, get_or, drop, ℕ, Bool, false, not, ◌&&◌, ◌||◌, Option, none, some, List,
  [], ◌∷◌, map,
}
use ai_ops_runner.Base.Text.{Text, codes, strip, text_eq, text_starts_with, drop_last}
use ai_ops_runner.Base.Pieces.{split_by, is_line_break}

-- the environment variable, which is empty when unset, and the files that can be read
pub record TokenSources : Type 0 where
  pub env : Text
  pub token_file : Option Text
  pub env_file : Option Text

pub data AuthSource : Type 0 where
  from_env from_file from_env_file : AuthSource

-- a line of the file is passed over, or settles the value
pub data Line : Type 0 where
  skipped : Line
  settled : Option Text → Line

-- `value or None`
abbrev pub nonblank : Text → Option Text
nonblank [] = none
nonblank (c ∷ s) = some (c ∷ s)

closes : ℕ → Text → Bool
closes c [] = false
closes c (d ∷ s) = nat_beq c d && (nat_beq c b'\'' || nat_beq c b'"')

-- at least two characters, the same quote first and last
is_quoted : Text → Bool
unfolding closes
is_quoted [] = false
is_quoted (c ∷ s) = closes c (reverse s)

unquote : Text → Text
unfolding is_quoted
unquote v = if is_quoted v then drop_last 1 (drop 1 v) else v

-- `trimmed.split("=", 1)`
cut_at_equals : Text → Option (Text × Text)
cut_at_equals [] = none
cut_at_equals (c ∷ s) =
    if nat_beq c b'=' then some ([], s) else Option.map (λ p. (c ∷ p.0, p.1)) (cut_at_equals s)

on_assignment : Text → Option (Text × Text) → Line
unfolding unquote
on_assignment key none = skipped
on_assignment key (some (lhs, rhs)) =
    if text_eq (strip lhs) key then settled (nonblank (strip (unquote (strip rhs)))) else skipped

env_line : Text → Text → Line
unfolding on_assignment cut_at_equals
env_line key trimmed =
    if text_eq trimmed [] || text_starts_with trimmed (codes "#")
    then skipped
    else on_assignment key (cut_at_equals trimmed)

or_later : Line → Option Text → Option Text
or_later skipped later = later
or_later (settled v) later = v

env_lines : Text → List Text → Option Text
unfolding or_later env_line
env_lines key [] = none
env_lines key (l ∷ ls) = or_later (env_line key (strip l)) (env_lines key ls)

-- `_parse_env_file_value`
unfoldable pub parse_env_file_value : Text → Text → Option Text
unfolding env_lines
parse_env_file_value raw key = env_lines key (split_by is_line_break raw)

abbrev token_key : Text
token_key = codes "OPENCLAW_ADMIN_TOKEN"

tagged : AuthSource → Option Text → Option (Text × AuthSource)
tagged source none = none
tagged source (some t) = some (t, source)

first_of : Option (Text × AuthSource) → Option (Text × AuthSource) → Option (Text × AuthSource)
first_of none later = later
first_of (some t) later = some t

-- `resolve_admin_token`
unfoldable pub resolve_admin_token : TokenSources → Option (Text × AuthSource)
unfolding tagged first_of
resolve_admin_token s = first_of (tagged from_env (nonblank (strip s.env))) (
    first_of (tagged from_file (nonblank (strip (get_or s.token_file []))))
      (tagged from_env_file (parse_env_file_value (get_or s.env_file []) token_key)))

pub data Admission : Type 0 where
  admitted : Admission
  not_configured : Admission
  forbidden : AuthSource → Admission

admission : Text → Option (Text × AuthSource) → Admission
admission header none = not_configured
admission header (some (expected, source)) =
    if text_eq header [] || not (text_eq header expected) then forbidden source else admitted

-- `_require_admin`, for a header that is empty when missing
unfoldable pub require_admin : TokenSources → Text → Admission
unfolding admission
require_admin s header = admission header (resolve_admin_token s)
