-- ===== src/Base/Pieces.antt =====
-- Texts that the program cuts and glues: `split`, `join`, `replace` and `os.path.normpath`.
use Prim.Native.Nat.{ℕ, zero, suc, ◌-◌}
use mathlib.Core.Bool.{Bool, true, false, ◌&&◌, ◌||◌, not}
use mathlib.Core.List.{List, [], ◌∷◌, ◌++◌, reverse}
use ai_ops_runner.Base.Tests.{leb, nat_beq, if◌then◌else◌}
use ai_ops_runner.Base.Lists.{length}
use ai_ops_runner.Base.Text.{Text, codes, text_eq, text_starts_with}

-- the character belongs to the first piece
glue : ℕ → List Text → List Text
glue c [] = (c ∷ []) ∷ []
glue c (p ∷ ps) = (c ∷ p) ∷ ps

-- the pieces between the characters that `cut` accepts
unfoldable pub split_by : (ℕ → Bool) → Text → List Text
unfolding glue
split_by cut [] = [] ∷ []
split_by cut (c ∷ s) = let rest = split_by cut s in if cut c then [] ∷ rest else glue c rest

-- s.split("\n")
unfoldable pub split_lines : Text → List Text
unfolding split_by
split_lines s = split_by (λ c. nat_beq c 10) s

-- the ASCII characters at which `str.splitlines` cuts
unfoldable pub is_line_break : ℕ → Bool
is_line_break c = (leb 10 c && leb c 13) || (leb 28 c && leb c 30)

-- sep.join(pieces)
unfoldable pub join : Text → List Text → Text
join sep [] = []
join sep (p ∷ []) = p
join sep (p ∷ q ∷ ps) = p ++ sep ++ join sep (q ∷ ps)

-- `skip` characters of an occurrence are still to be passed over
replace_from : ℕ → Text → Text → Text → Text
replace_from skip old new [] = []
replace_from (suc skip) old new (c ∷ s) = replace_from skip old new s
replace_from zero old new (c ∷ s) = elim (text_starts_with (c ∷ s) old) [
  | true ↦ new ++ replace_from (length old - 1) old new s
  | false ↦ c ∷ replace_from 0 old new s
]

-- s.replace(old, new), for an `old` that is not empty
unfoldable pub replace : Text → Text → Text → Text
unfolding replace_from
replace s old new = replace_from 0 old new s

is_dots : Text → Bool
is_dots p = text_eq p (codes "..")

-- one component of a path on those before it, the last first
push_component : Bool → List Text → Text → List Text
unfolding is_dots
push_component rooted [] p =
    if text_eq p [] || text_eq p (codes ".")
    then []
    else if not (is_dots p) || not rooted
    then p ∷ []
    else []
push_component rooted (q ∷ qs) p =
    if text_eq p [] || text_eq p (codes ".")
    then q ∷ qs
    else if not (is_dots p) || is_dots q
    then p ∷ q ∷ qs
    else qs

components : Bool → List Text → List Text → List Text
unfolding push_component
components rooted stack [] = reverse stack
components rooted stack (p ∷ ps) = components rooted (push_component rooted stack p) ps

or_dot : Text → Text
or_dot [] = codes "."
or_dot (c ∷ s) = c ∷ s

-- two slashes at the front, and no third, are kept
root_of : Text → Text
root_of s =
    if text_starts_with s (codes "//") && not (text_starts_with s (codes "///"))
    then codes "//"
    else if text_starts_with s (codes "/")
    then codes "/"
    else []

-- os.path.normpath
unfoldable pub normpath : Text → Text
unfolding split_by components or_dot root_of join
normpath s =
    let parts = split_by (λ c. nat_beq c b'/') s in
    or_dot (root_of s ++ join (codes "/") (components (text_starts_with s (codes "/")) [] parts))
