-- ===== src/Autopilot/Interval.antt =====
-- `parse_poll_interval` of ops/system/project_autopilot.py.
use mathlib.Core.Option
use mathlib.Core.Option.{some-injective}
use ai_ops_runner.Base.{
  ltb, if◌then◌else◌, Bool-cases, drop, ℕ, ◌≤◌, max, ◌≡◌, subst, inl, inr, ◌||◌, Option, none, some,
  [], ◌∷◌, arith,
}
use ai_ops_runner.Base.Int.{ℤ, pos}
use ai_ops_runner.Base.Text.{Text, codes, strip, text_eq, text_starts_with}

-- the text around its first two dots
split_dots : Text → Option (Text × Text)
split_dots [] = none
split_dots (c ∷ s) =
    let later = split_dots s in
    if text_starts_with (c ∷ s) (codes "..")
    then some ([], drop 1 s)
    else Option.map (λ p. (c ∷ p.0, p.1)) later

checked : Option ℤ → Option ℤ → Option (ℕ × ℕ)
checked (some (pos lo)) (some (pos hi)) = if ltb lo 1 || ltb hi lo then none else some (lo, hi)
checked _ _ = none

up_to_24 : Option ℤ → Option ℤ
up_to_24 (some (pos lo)) = some (pos (max lo 24))
up_to_24 o = o

on_dots : (Text → Option ℤ) → Text → Option (Text × Text) → Option (ℕ × ℕ)
unfolding checked up_to_24
on_dots int_of text none = checked (int_of text) (up_to_24 (int_of text))
on_dots int_of text (some (left, right)) = checked (int_of (strip left)) (int_of (strip right))

-- `parse_poll_interval`, for Python's `int` on a text; `none` is a ValueError
unfoldable pub parse_poll_interval : (Text → Option ℤ) → Text → Option (ℕ × ℕ)
unfolding on_dots split_dots
parse_poll_interval int_of raw =
    if text_eq (strip raw) [] then none else on_dots int_of (strip raw) (split_dots (strip raw))

checked-bounds : (a b : Option ℤ) (lo hi : ℕ) → checked a b ≡ some (lo, hi) → (1 ≤ lo) × (lo ≤ hi)
unfolding checked
checked-bounds none b lo hi h = cc
checked-bounds (some (ℤ.negsuc n)) b lo hi h = cc
checked-bounds (some (pos m)) none lo hi h = cc
checked-bounds (some (pos m)) (some (ℤ.negsuc n)) lo hi h = cc
checked-bounds (some (pos m)) (some (pos n)) lo hi h = elim (Bool-cases (ltb m 1 || ltb n m)) [
  | inl e ↦ absurd (ground (arith, h, e))
  | inr e ↦ accepted (some-injective (m, n) (lo, hi) (ground (arith, h, e))) (ground (arith, e))
]
  where
    accepted : ◌≡◌ {A = ℕ × ℕ} (m, n) (lo, hi) → (1 ≤ m) × (m ≤ n) → (1 ≤ lo) × (lo ≤ hi)
    accepted same bounds = subst (λ (x : ℕ × ℕ). (1 ≤ x.0) × (x.0 ≤ x.1)) same bounds

on_dots-bounds :
    (int_of : Text → Option ℤ) (t : Text) (o : Option (Text × Text)) (lo hi : ℕ)
    → on_dots int_of t o ≡ some (lo, hi)
    → (1 ≤ lo) × (lo ≤ hi)
unfolding on_dots
on_dots-bounds int_of t none lo hi h = checked-bounds (int_of t) (up_to_24 (int_of t)) lo hi h
on_dots-bounds int_of t (some (l, r)) lo hi h =
    checked-bounds (int_of (strip l)) (int_of (strip r)) lo hi h

-- an interval that is accepted begins with a second or more and is not empty
pub parse_poll_interval-bounds :
    (int_of : Text → Option ℤ) (raw : Text) (lo hi : ℕ)
    → parse_poll_interval int_of raw ≡ some (lo, hi)
    → (1 ≤ lo) × (lo ≤ hi)
unfolding parse_poll_interval
parse_poll_interval-bounds int_of raw lo hi h = elim (Bool-cases (text_eq (strip raw) [])) [
  | inl e ↦ absurd (ground (arith, h, e))
  | inr e ↦ on_dots-bounds int_of (strip raw) (split_dots (strip raw)) lo hi (ground (arith, h, e))
]
