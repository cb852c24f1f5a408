-- ===== src/Base/Text.antt =====
-- Text that the program takes apart: a list of code points, ASCII where case matters.
use Prim.Native.Nat.{ℕ, ◌+◌}
use Prim.Native.Char.{code}
use Prim.Native.String.{String}
use mathlib.Core.Bool.{Bool, true, false, ◌&&◌, ◌||◌}
use mathlib.Core.List.{List, [], ◌∷◌, ◌++◌, map, reverse}
use native.Mathlib.Omega.{arith}
use mathlib.Core.Option.{Option, none, some}
use mathlib.Core.Path.{◌≡◌, refl}
use mathlib.Core.Logic.{inl, inr, ◌↔◌}
use ai_ops_runner.Base.Tests.{leb, if◌then◌else◌, Bool-cases}
use ai_ops_runner.Base.Lists.{drop, All, All-append}
use ai_ops_runner.Base.Equality.{◌==◌, nat_eq}

abbrev pub Text : Type 0
Text = List ℕ

abbrev pub codes : String → Text
codes String.[] = []
codes (String.◌∷◌ c s) = code c ∷ codes s

-- str.lower() on one character
unfoldable pub lower_code : ℕ → ℕ
lower_code c = if leb b'A' c && leb c b'Z' then c + 32 else c

abbrev pub lower : Text → Text
lower = map lower_code

abbrev pub text_starts_with : Text → Text → Bool
text_starts_with s [] = true
text_starts_with [] (p ∷ ps) = false
text_starts_with (c ∷ s) (p ∷ ps) = c == p && text_starts_with s ps

-- `sub in s`
abbrev pub text_contains : Text → Text → Bool
text_contains [] sub = text_starts_with [] sub
text_contains (c ∷ s) sub = text_starts_with (c ∷ s) sub || text_contains s sub

-- whitespace of `str.strip()`, in ASCII
unfoldable pub is_space : ℕ → Bool
is_space c = c == 32 || (leb 9 c && leb c 13) || (leb 28 c && leb c 31)

unfoldable pub strip_left : Text → Text
unfolding is_space
strip_left [] = []
strip_left (c ∷ s) = let rest = strip_left s in if is_space c then rest else c ∷ s

unfoldable pub strip_right : Text → Text
unfolding strip_left
strip_right s = reverse (strip_left (reverse s))

-- str.strip()
unfoldable pub strip : Text → Text
unfolding strip_left strip_right
strip s = strip_right (strip_left s)

-- the first line of a text with a test, of the lines that `split` makes
first_line : Text → (Text → Bool) → Text → Option Text
first_line line test [] = if test line then some line else none
first_line line test (c ∷ s) =
    let stop = first_line [] test s in
    let more = first_line (line ++ c ∷ []) test s in
    if c == 10 then (if test line then some line else stop) else more

-- `for line in s.split("\n"): if test(line): return line`
unfoldable pub find_line : (Text → Bool) → Text → Option Text
unfolding first_line
find_line test s = first_line [] test s

-- os.path.basename
base_from : Text → Text → Text
base_from acc [] = acc
base_from acc (c ∷ s) = base_from (if c == b'/' then [] else acc ++ c ∷ []) s

unfoldable pub basename : Text → Text
unfolding base_from
basename s = base_from [] s

abbrev pub text_eq : Text → Text → Bool
text_eq [] [] = true
text_eq [] (d ∷ t) = false
text_eq (c ∷ s) [] = false
text_eq (c ∷ s) (d ∷ t) = c == d && text_eq s t

-- s.endswith(suffix)
abbrev pub text_ends_with : Text → Text → Bool
text_ends_with s suffix = text_starts_with (reverse s) (reverse suffix)

-- s[:-n]
unfoldable pub drop_last : ℕ → Text → Text
drop_last n s = reverse (drop n (reverse s))

pub text_eq_iff : (s t : Text) → (text_eq s t ≡ true) ↔ (s ≡ t)
text_eq_iff [] [] = (λ h. refl, λ e. refl)
text_eq_iff [] (d ∷ t) = (λ h. cc, λ e. cc)
text_eq_iff (c ∷ s) [] = (λ h. cc, λ e. cc)
text_eq_iff (c ∷ s) (d ∷ t) = ground (arith, text_eq_iff s t)

-- a text with no such character
abbrev pub Lacks : ℕ → Text → Type 0
Lacks k = All (λ c. (c == k) ≡ false)

Lacks-base_from : (acc s : Text) → Lacks b'/' acc → Lacks b'/' (base_from acc s)
unfolding base_from
Lacks-base_from acc [] h = h
Lacks-base_from acc (c ∷ s) h = elim (Bool-cases (c == b'/')) [
  | inl e ↦ rw e (Lacks-base_from [] s tt)
  | inr e ↦ rw e (Lacks-base_from (acc ++ c ∷ []) s (All-append _ acc (c ∷ []) h (e, tt)))
]

-- a base name is one component of a path
pub Lacks-basename : (s : Text) → Lacks b'/' (basename s)
unfolding basename
Lacks-basename s = Lacks-base_from [] s tt
