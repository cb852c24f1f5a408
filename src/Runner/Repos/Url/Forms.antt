-- ===== src/Runner/Repos/Url/Forms.antt =====
-- Both written forms of a remote have one canonical form.
use ai_ops_runner.Base.{
  nat_beq, Bool-cases, All, ℕ, ◌≡◌, refl, sym, ap, ◌∙◌, ◌≢◌, inl, inr, Bool, true, false, ◌||◌,
  Option, none, some, [], ◌∷◌, ◌++◌, append_assoc,
}
use mathlib.Core.List.{reverse, reverse-cons, reverse-append, reverse-reverse}
use ai_ops_runner.Base.Text.{
  Text, codes, Lacks, lower_code, is_space, strip, strip_left, strip_right,
}
use ai_ops_runner.Runner.Repos.Url.{
  split_at, after, with_host, on_found, on_host, match_ssh, match_https, first_of, canonicalize_url,
}

strip_left-stops :
    (s r : Text) (c : ℕ) → is_space c ≡ false → strip_left (s ++ c ∷ r) ≡ strip_left s ++ c ∷ r
unfolding strip_left
strip_left-stops [] r c e = rw e refl
strip_left-stops (x ∷ s) r c e = elim (Bool-cases (is_space x)) [
  | inl y ↦ rw y (strip_left-stops s r c e)
  | inr y ↦ rw y refl
]

reverse-around : (a p : Text) (c : ℕ) → reverse (a ++ c ∷ p) ≡ reverse p ++ c ∷ reverse a
reverse-around a p c =
    reverse-append a (c ∷ p)
    ∙ ap (λ (t : Text). t ++ reverse a) (reverse-cons c p)
    ∙ append_assoc (reverse p) (c ∷ []) (reverse a)

strip_right-keeps :
    (a p : Text) (c : ℕ) → is_space c ≡ false → strip_right (a ++ c ∷ p) ≡ a ++ c ∷ strip_right p
unfolding strip_right
strip_right-keeps a p c e =
    ap (λ (t : Text). reverse (strip_left t)) (reverse-around a p c)
    ∙ ap reverse (strip_left-stops (reverse p) (reverse a) c e)
    ∙ reverse-around (strip_left (reverse p)) (reverse a) c
    ∙ ap (λ (t : Text). t ++ c ∷ reverse (strip_left (reverse p))) (reverse-reverse a)

split_at-stops :
    (stop : ℕ → Bool) (h s : Text) (c : ℕ)
    → All (λ x. stop x ≡ false) h
    → stop c ≡ true
    → split_at stop (h ++ c ∷ s) ≡ some (h, s)
unfolding split_at
split_at-stops stop [] s c free e = rw e refl
split_at-stops stop (x ∷ h) s c free e = rw (free.0, split_at-stops stop h s c free.1 e) refl

-- a host: nonempty, with neither `:` nor `/`
abbrev pub IsHost : Text → Type 0
IsHost h = (h ≢ []) × Lacks b':' h × Lacks b'/' h

Lacks-both :
    (h : Text)
    → Lacks b':' h
    → Lacks b'/' h
    → All (λ x. (nat_beq x b':' || nat_beq x b'/') ≡ false) h
Lacks-both [] p q = tt
Lacks-both (x ∷ h) p q = (rw (p.0, q.0) refl, Lacks-both h p.1 q.1)

first_of-none : (o : Option Text) → first_of o none ≡ o
unfolding first_of
first_of-none none = refl
first_of-none (some t) = refl

on_ssh : Text → Option Text
on_ssh t = with_host (λ c. nat_beq c b':' || nat_beq c b'/') (some t)

on_https : Text → Option Text
on_https t = with_host (λ c. nat_beq c b'/') (some t)

match-git :
    (t : Text)
    → first_of (match_ssh (codes "git@" ++ t)) (match_https (codes "git@" ++ t)) ≡ on_ssh t
unfolding match_ssh match_https after lower_code on_ssh
match-git t = first_of-none (on_ssh t)

match-https :
    (t : Text)
    → first_of (match_ssh (codes "https://" ++ t)) (match_https (codes "https://" ++ t))
      ≡ on_https t
unfolding match_ssh match_https after lower_code on_https first_of with_host
match-https t = refl

ssh_form :
    (h p : Text)
    → IsHost h
    → canonicalize_url (codes "git@" ++ (h ++ b':' ∷ p)) ≡ on_host (h, strip_right p)
unfolding canonicalize_url strip strip_left is_space on_ssh with_host on_found
ssh_form h p host =
    ap (λ (t : Text). first_of (match_ssh t) (match_https t))
      (strip_right-keeps (codes "git@" ++ h) p b':' refl)
    ∙ match-git (h ++ b':' ∷ strip_right p)
    ∙ ap on_found (
        split_at-stops (λ c. nat_beq c b':' || nat_beq c b'/') h (strip_right p) b':'
          (Lacks-both h host.1 host.2) refl)

https_form :
    (h p : Text)
    → IsHost h
    → canonicalize_url (codes "https://" ++ (h ++ b'/' ∷ p)) ≡ on_host (h, strip_right p)
unfolding canonicalize_url strip strip_left is_space on_https with_host on_found
https_form h p host =
    ap (λ (t : Text). first_of (match_ssh t) (match_https t))
      (strip_right-keeps (codes "https://" ++ h) p b'/' refl)
    ∙ match-https (h ++ b'/' ∷ strip_right p)
    ∙ ap on_found (split_at-stops (λ c. nat_beq c b'/') h (strip_right p) b'/' host.2 refl)

-- The `git@host:path` form and the `https://host/path` form of a remote, on a nonempty host without
-- `:` and `/` and whatever the path, have the same canonical form or are both refused.
pub ssh_agrees_https :
    (h p : Text)
    → IsHost h
    → canonicalize_url (codes "git@" ++ (h ++ b':' ∷ p))
      ≡ canonicalize_url (codes "https://" ++ (h ++ b'/' ∷ p))
ssh_agrees_https h p host = ssh_form h p host ∙ sym (https_form h p host)
