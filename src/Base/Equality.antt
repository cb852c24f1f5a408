-- ===== src/Base/Equality.antt =====
-- Equality tests: one operator for numbers and texts.
use Prim.Native.Nat.{ℕ}
use Prim.Native.String.{String}
use mathlib.Core.Path.{◌≡◌, refl}
use mathlib.Core.Logic.{◌↔◌, ◌⊎◌, inl, inr}
use mathlib.Core.Bool.{Bool, true, false, not, ◌||◌}
use native.Mathlib.Omega.{arith}
use mathlib.Core.List.{List, [], ◌∷◌}
use text.Mathlib.Text.{◌==◌ as str_eq}
pub use text.Mathlib.TextEquality.{eq_iff}
use ai_ops_runner.Base.Tests.{nat_beq, nat_beq_iff, Bool-cases}
use ai_ops_runner.Base.Lists.{In, here, there, keep, All}

-- a type whose values the program compares with `==`
pub record Comparable {ℓ} (A : Type ℓ) : Type ℓ where
  pub same : A → A → Bool
  pub same_iff : (x y : A) → (same x y ≡ true) ↔ (x ≡ y)

instance abbrev pub string_eq : Comparable String
string_eq = record { same = str_eq; same_iff = eq_iff }

instance abbrev pub nat_eq : Comparable ℕ
nat_eq = record { same = nat_beq; same_iff = nat_beq_iff }

infix 50 ◌==◌
abbrev pub ◌==◌ {ℓ} : {A : Type ℓ} ⦃c : Comparable A⦄ → A → A → Bool
◌==◌ ⦃c⦄ x y = c.same x y

module _ {ℓ} {A : Type ℓ} ⦃c : Comparable A⦄ where
  -- Python's `a in xs`
  abbrev pub contains : List A → A → Bool
  contains [] a = false
  contains (x ∷ xs) a = a == x || contains xs a

  pub contains→In : (xs : List A) (a : A) → contains xs a ≡ true → In a xs
  contains→In [] a h = cc
  contains→In (x ∷ xs) a h = elim (split (a == x) (contains xs a) h) [
    | inl p ↦ here ((c.same_iff a x).0 p)
    | inr q ↦ there (contains→In xs a q)
  ]
    where
      split : (b c : Bool) → (b || c) ≡ true → (b ≡ true) ⊎ (c ≡ true)
      split true c h = inl refl
      split false c h = inr h

  pub beq_refl : (a : A) → (a == a) ≡ true
  beq_refl a = (c.same_iff a a).1 refl

  -- nothing is left when the listed elements are dropped exactly if all are listed
  pub unlisted_none :
      (names ks : List A)
      → keep (λ k. not (contains names k)) ks ≡ []
      → All (λ k. contains names k ≡ true) ks
  unlisted_none names [] h = tt
  unlisted_none names (k ∷ ks) h = elim (Bool-cases (contains names k)) [
    | inl e ↦ (e, unlisted_none names ks (ground (arith, e, h)))
    | inr e ↦ absurd (ground (arith, e, h))
  ]

  pub listed_all :
      (names ks : List A)
      → All (λ k. contains names k ≡ true) ks
      → keep (λ k. not (contains names k)) ks ≡ []
  listed_all names [] h = refl
  listed_all names (k ∷ ks) h = ground (arith, h.0, listed_all names ks h.1)
