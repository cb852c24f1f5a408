-- ===== src/Runner/Repos/Url.antt =====
-- The canonical form of a Git remote, from repo_allowlist.py: the two regular expressions as
-- functions on the text, for ASCII.
pub mod Forms
use mathlib.Core.Option
use ai_ops_runner.Base.{
  nat_beq, if◌then◌else◌, length, drop, all, ℕ, String, Bool, ◌&&◌, ◌||◌, Option, none, some, [],
  ◌∷◌, ◌++◌, map,
}
use ai_ops_runner.Base.Text.{Text, codes, lower, strip, text_starts_with}

-- `[^...]+` and the separator after it: the text up to the first such character, and the rest
split_at : (ℕ → Bool) → Text → Option (Text × Text)
split_at stop [] = none
split_at stop (c ∷ s) =
    let rest = split_at stop s in
    if stop c then some ([], s) else Option.map (λ r. (c ∷ r.0, r.1)) rest

all_slashes : Text → Bool
all_slashes s = all (λ c. nat_beq c b'/') s

-- `(?:\.git)?/*$`
ends_path : Text → Bool
unfolding all_slashes
ends_path s = all_slashes s || (text_starts_with (lower s) (codes ".git") && all_slashes (drop 4 s))

-- `(.+?)(?:\.git)?/*$`: the shortest path that leaves such an ending
shortest_path : Text → Option Text
unfolding ends_path
shortest_path [] = none
shortest_path (c ∷ s) =
    let more = shortest_path s in
    if nat_beq c 10
    then none
    else if ends_path s
    then some (c ∷ [])
    else Option.map (λ p. c ∷ p) more

-- a literal at the front of the text, in any case
after : String → Text → Option Text
after lit s =
    if text_starts_with (lower s) (codes lit) then some (drop (length (codes lit)) s) else none

on_host : Text × Text → Option Text
unfolding shortest_path
on_host ([], s) = none
on_host (c ∷ host, s) = Option.map (λ path. lower ((c ∷ host) ++ b'/' ∷ path)) (shortest_path s)

on_found : Option (Text × Text) → Option Text
unfolding on_host
on_found none = none
on_found (some r) = on_host r

with_host : (ℕ → Bool) → Option Text → Option Text
unfolding split_at on_found
with_host stop none = none
with_host stop (some s) = on_found (split_at stop s)

-- `_SSH_RE`
match_ssh : Text → Option Text
unfolding after with_host
match_ssh s =
    with_host (λ c. nat_beq c b':' || nat_beq c b'/') (after "git@" (or_self (after "ssh://" s)))
  where
    or_self : Option Text → Text
    or_self none = s
    or_self (some t) = t

-- `_HTTPS_RE`
match_https : Text → Option Text
unfolding after with_host
match_https s = elim (after "http" s) [
  | none ↦ none
  | some t ↦ with_host (λ c. nat_beq c b'/') (after "://" (without_s (after "s" t) t))
]
  where
    without_s : Option Text → Text → Text
    without_s none t = t
    without_s (some u) t = u

first_of : Option Text → Option Text → Option Text
first_of none o = o
first_of (some t) o = some t

-- `canonicalize_url`; `none` is its ValueError
unfoldable pub canonicalize_url : Text → Option Text
unfolding match_ssh match_https first_of
canonicalize_url url = first_of (match_ssh (strip url)) (match_https (strip url))
