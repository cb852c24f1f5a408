-- ===== src/Runner/Repos/Listed.antt =====
-- What `validate_repo` accepts is on the list, and what is on the list it accepts.
use mathlib.Core.Option.{some-injective}
use ai_ops_runner.Base.{
  Bool-cases, In, here, there, eq_iff, ◌==◌, string_eq, String, ◌≡◌, refl, sym, ap, ◌∙◌, subst, ◌≢◌,
  inl, inr, Option, none, some, [], ◌∷◌, arith,
}
use ai_ops_runner.Base.Dict.{Dict}
use ai_ops_runner.Base.Text.{Text, codes, strip, text_eq, text_eq_iff}
use ai_ops_runner.Runner.Repos.{
  AllowedRepo, ConfigFile, Repos, repos, config_error, load_repo_allowlist, normalize_url, Checked,
  allowed, find_repo, check_name, check_repos, on_stripped, validate_repo,
}

abbrev pub SameRemote : String → AllowedRepo → Type 0
SameRemote url r = normalize_url (codes r.url) ≡ normalize_url (codes url)

-- the caller names no repository or this one
abbrev pub NamesIt : Option String → AllowedRepo → Type 0
NamesIt none r = Unit {0}
NamesIt (some n) r = n ≡ r.name

abbrev pub IsListed : Dict AllowedRepo → AllowedRepo → Type 0
IsListed d r = (n : String) × In (n, r) d

find_repo_sound :
    (url : String) (d : Dict AllowedRepo) (r : AllowedRepo)
    → find_repo (normalize_url (codes url)) d ≡ some r
    → IsListed d r × SameRemote url r
unfolding find_repo
find_repo_sound url [] r h = cc
find_repo_sound url ((n, x) ∷ d) r h =
    elim (Bool-cases (text_eq (normalize_url (codes x.url)) (normalize_url (codes url)))) [
      | inl e ↦
          let same : x ≡ r = some-injective x r (ground (arith, e, h)) in
          (
            (n, here (ap (λ (y : AllowedRepo). (n, y)) (sym same))),
            subst (SameRemote url) same
                ((text_eq_iff (normalize_url (codes x.url)) (normalize_url (codes url))).0 e),
          )
      | inr e ↦
          let ih = find_repo_sound url d r (ground (arith, e, h)) in ((ih.0.0, there ih.0.1), ih.1)
    ]

repo_of : AllowedRepo → Checked → AllowedRepo
repo_of d (allowed r) = r
repo_of d _ = d

allowed-injective : (x r : AllowedRepo) → allowed x ≡ allowed r → x ≡ r
unfolding repo_of
allowed-injective x r h = ap (repo_of x) h

check_name_sound :
    (wanted : Option String) (o : Option AllowedRepo) (r : AllowedRepo)
    → check_name wanted o ≡ allowed r
    → (o ≡ some r) × NamesIt wanted r
unfolding check_name
check_name_sound wanted none r h = cc
check_name_sound none (some x) r h =
    (ap {B = Option AllowedRepo} some (allowed-injective x r h), tt)
check_name_sound (some n) (some x) r h = elim (Bool-cases (n == x.name)) [
  | inl y ↦
      let same = allowed-injective x r (ground (arith, y, h)) in
      (
        ap {B = Option AllowedRepo} some same,
        (eq_iff n x.name).0 y ∙ ap (λ (z : AllowedRepo). z.name) same,
      )
  | inr y ↦ absurd (ground (arith, y, h))
]

-- what an accepting run of `validate_repo` has found
abbrev pub IsAccepted : ConfigFile → String → Option String → AllowedRepo → Type 0
IsAccepted file url wanted r =
    (strip (codes url) ≢ [])
    × ((d : Dict AllowedRepo) × (load_repo_allowlist file ≡ repos d)
        × IsListed d r
        × SameRemote url r
        × NamesIt wanted r)

check_repos_sound :
    (url : String) (wanted : Option String) (file : ConfigFile) (found : Repos) (r : AllowedRepo)
    → load_repo_allowlist file ≡ found
    → check_repos url wanted found ≡ allowed r
    → (d : Dict AllowedRepo) × (load_repo_allowlist file ≡ repos d)
      × IsListed d r
      × SameRemote url r
      × NamesIt wanted r
unfolding check_repos
check_repos_sound url wanted file (config_error e) r l h = cc
check_repos_sound url wanted file (repos d) r l h =
    let named = check_name_sound wanted (find_repo (normalize_url (codes url)) d) r h in
    let found = find_repo_sound url d r named.0 in (d, l, found.0, found.1, named.1)

on_stripped_sound :
    (file : ConfigFile) (url : String) (wanted : Option String) (r : AllowedRepo) (t : Text)
    → strip (codes url) ≡ t
    → on_stripped file url wanted t ≡ allowed r
    → IsAccepted file url wanted r
unfolding on_stripped
on_stripped_sound file url wanted r [] e h = cc
on_stripped_sound file url wanted r (c ∷ s) e h =
    (λ n. cc, check_repos_sound url wanted file (load_repo_allowlist file) r refl h)

-- When `validate_repo` accepts, the URL is not blank, the configuration has loaded, and the repository
-- it returns is an entry of the list with the same normal form as the URL and with the name the caller
-- gave, when one was given.
pub validate_repo-IsAccepted :
    (file : ConfigFile) (url : String) (wanted : Option String) (r : AllowedRepo)
    → validate_repo file url wanted ≡ allowed r
    → IsAccepted file url wanted r
unfolding validate_repo
validate_repo-IsAccepted file url wanted r =
    on_stripped_sound file url wanted r (strip (codes url)) refl

find_repo_complete :
    (url : String) (d : Dict AllowedRepo) (r : AllowedRepo)
    → IsListed d r
    → SameRemote url r
    → (x : AllowedRepo) × (find_repo (normalize_url (codes url)) d ≡ some x)
unfolding find_repo
find_repo_complete url [] r (n, m) same = elim m [ ]
find_repo_complete url ((k, x) ∷ d) r (n, m) same =
    elim (Bool-cases (text_eq (normalize_url (codes x.url)) (normalize_url (codes url)))) [
      | inl e ↦ (x, ground (arith, e))
      | inr e ↦
          let later : IsListed d r = elim m [
            | here p ↦
                let q =
                  (text_eq_iff (normalize_url (codes x.url)) (normalize_url (codes url))).1
                    (subst (SameRemote url) (ap (λ w. w.1) p) same) in
                absurd (ground (arith, e, q))
            | there m' ↦ (n, m')
          ] in
          let ih = find_repo_complete url d r later same in (ih.0, ground (arith, e, ih.1))
    ]

not_blank :
    (file : ConfigFile) (url : String) (t : Text)
    → t ≢ []
    → on_stripped file url none t ≡ check_repos url none (load_repo_allowlist file)
unfolding on_stripped
not_blank file url [] h = absurd (h refl)
not_blank file url (c ∷ s) h = refl

-- A URL that is not blank and has the normal form of an entry of the loaded list is accepted, as long
-- as the caller names no repository.
validate_repo_complete :
    (file : ConfigFile) (url : String) (d : Dict AllowedRepo) (r : AllowedRepo)
    → strip (codes url) ≢ []
    → load_repo_allowlist file ≡ repos d
    → IsListed d r
    → SameRemote url r
    → (x : AllowedRepo) × (validate_repo file url none ≡ allowed x)
unfolding validate_repo check_repos check_name
validate_repo_complete file url d r solid l listed same =
    let found = find_repo_complete url d r listed same in
    (
      found.0,
      not_blank file url (strip (codes url)) solid
          ∙ ap (check_repos url none) l
          ∙ ap (check_name none) found.1,
    )
