-- ===== src/Runner/Repos.antt =====
-- repo_allowlist.py of services/test_runner: only listed repositories may be the target of a job.
pub mod Url
pub mod Listed
use ai_ops_runner.Base.{
  nat_beq, if◌then◌else◌, get_or, ◌==◌, string_eq, String, ◌⊎◌, inl, inr, Option, none, some, List,
  [], ◌∷◌, map,
}
use ai_ops_runner.Base.Dict
use ai_ops_runner.Base.Dict.{Dict}
use ai_ops_runner.Base.Json.{
  Json, null, bool, int, float, str, arr, obj, Items, nil, cons, items, members, as_dict, as_text,
}
use ai_ops_runner.Base.Text.{Text, codes, lower, strip, drop_last, text_eq, text_ends_with}
use ai_ops_runner.Runner.Repos.Url.{canonicalize_url}

pub record AllowedRepo : Type 0 where
  pub name : String
  pub url : String
  pub allowed_branches : List Json
  pub default_branch : Json

-- what opening and parsing the file gives
pub data ConfigFile : Type 0 where
  absent broken : ConfigFile
  content : Json → ConfigFile

-- the AllowlistConfigError of each check, and the TypeError of `tuple` on what is no sequence
pub data ConfigError : Type 0 where
  not_found invalid missing_repos repos_not_mapping : ConfigError
  missing_url url_not_text : String → ConfigError
  not_iterable : ConfigError

pub data Repos : Type 0 where
  repos : Dict AllowedRepo → Repos
  config_error : ConfigError → Repos

-- `tuple(value)`
elements : Json → Option (List Json)
elements (arr vs) = some (items vs)
elements (obj fs) = some (map (λ e. str e.0) (members fs))
elements (str s) = some (characters s)
  where
    characters : String → List Json
    characters String.[] = []
    characters (String.◌∷◌ c s) = str (String.◌∷◌ c String.[]) ∷ characters s
elements _ = none

entry : String → String → Option (List Json) → Json → ConfigError ⊎ AllowedRepo
entry name url none branch = inl not_iterable
entry name url (some branches) branch =
    inr record { name = name; url = url; allowed_branches = branches; default_branch = branch }

entry_of : String → Option Json → Dict Json → ConfigError ⊎ AllowedRepo
unfolding elements entry
entry_of name none spec = inl (missing_url name)
entry_of name (some (str url)) spec =
    entry name url
      (elements (get_or (Dict.get spec "allowed_branches") (arr (cons (str "main") nil))))
      (get_or (Dict.get spec "default_branch") (str "main"))
entry_of name (some _) spec = inl (url_not_text name)

-- one entry of the loop
repo_entry : String → Option (Dict Json) → ConfigError ⊎ AllowedRepo
unfolding entry_of
repo_entry name none = inl (missing_url name)
repo_entry name (some spec) = entry_of name (Dict.get spec "url") spec

-- the loop ends at the first entry that raises
collect : ConfigError ⊎ AllowedRepo → Repos → Repos
collect (inl e) rest = config_error e
collect (inr r) (config_error e) = config_error e
collect (inr r) (repos d) = repos ((r.name, r) ∷ d)

unfoldable pub read_entries : Dict Json → Repos
unfolding repo_entry collect
read_entries [] = repos []
read_entries ((name, spec) ∷ d) = collect (repo_entry name (as_dict spec)) (read_entries d)

read_repos : Option Json → Repos
unfolding read_entries
read_repos none = config_error missing_repos
read_repos (some (obj fs)) = read_entries (members fs)
read_repos (some _) = config_error repos_not_mapping

-- `load_repo_allowlist`
unfoldable pub load_repo_allowlist : ConfigFile → Repos
unfolding read_repos
load_repo_allowlist absent = config_error not_found
load_repo_allowlist broken = config_error invalid
load_repo_allowlist (content (obj fs)) = read_repos (Dict.get (members fs) "repos")
load_repo_allowlist (content _) = config_error missing_repos

rstrip_slashes : Text → Text
rstrip_slashes [] = []
rstrip_slashes (c ∷ s) = let rest = rstrip_slashes s in drop_slash rest
  where
    drop_slash : Text → Text
    drop_slash [] = if nat_beq c b'/' then [] else c ∷ []
    drop_slash (d ∷ r) = c ∷ d ∷ r

without_git : Text → Text
without_git s = if text_ends_with s (codes ".git") then drop_last 4 s else s

-- `_normalize_url`
unfoldable pub normalize_url : Text → Text
unfolding rstrip_slashes without_git
normalize_url url = get_or (canonicalize_url url) (lower (without_git (rstrip_slashes (strip url))))

pub data Checked : Type 0 where
  allowed : AllowedRepo → Checked
  empty_url repo_not_allowed repo_name_mismatch : Checked
  bad_config : ConfigError → Checked

-- the loop over `repos.values()`
unfoldable pub find_repo : Text → Dict AllowedRepo → Option AllowedRepo
unfolding normalize_url
find_repo normal [] = none
find_repo normal ((n, r) ∷ d) =
    let rest = find_repo normal d in
    if text_eq (normalize_url (codes r.url)) normal then some r else rest

check_name : Option String → Option AllowedRepo → Checked
check_name wanted none = repo_not_allowed
check_name none (some r) = allowed r
check_name (some n) (some r) = if n == r.name then allowed r else repo_name_mismatch

check_repos : String → Option String → Repos → Checked
unfolding check_name
check_repos url wanted (config_error e) = bad_config e
check_repos url wanted (repos d) = check_name wanted (find_repo (normalize_url (codes url)) d)

on_stripped : ConfigFile → String → Option String → Text → Checked
unfolding check_repos
on_stripped file url wanted [] = empty_url
on_stripped file url wanted (c ∷ s) = check_repos url wanted (load_repo_allowlist file)

-- `validate_repo`
unfoldable pub validate_repo : ConfigFile → String → Option String → Checked
unfolding on_stripped
validate_repo file url wanted = on_stripped file url wanted (strip (codes url))
