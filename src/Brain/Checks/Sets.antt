-- ===== src/Brain/Checks/Sets.antt =====
-- The failed checks are compared as sets.
use ai_ops_runner.Base.{
  Bool-cases, All, In, here, there, ◌≡◌, refl, sym, ap, ◌∙◌, subst, ◌≢◌, ◌↔◌, ◌⊎◌, inl, inr, true,
  false, List, [], ◌∷◌, arith,
}
use ai_ops_runner.Base.Text.{Text, strip, text_eq, text_eq_iff}
use ai_ops_runner.Brain.Checks.{text_ltb, insert_check, add_check, normalize_failed_checks}

-- a text that is left of some item, once it is stripped
unfoldable pub IsNamed : List Text → Text → Type 0
IsNamed items t = (t ≢ []) × ((item : Text) × In item items × (strip item ≡ t))

-- the same texts are named, whatever their order and number
unfoldable pub SameChecks : List Text → List Text → Type 0
unfolding IsNamed
SameChecks xs ys = (t : Text) → IsNamed xs t ↔ IsNamed ys t

text_ltb_irrefl : (s : Text) → text_ltb s s ≡ false
unfolding text_ltb
text_ltb_irrefl [] = refl
text_ltb_irrefl (c ∷ s) = ground (arith, text_ltb_irrefl s)

text_ltb_trans : (s t u : Text) → text_ltb s t ≡ true → text_ltb t u ≡ true → text_ltb s u ≡ true
unfolding text_ltb
text_ltb_trans s [] u h k = cc
text_ltb_trans s (d ∷ t) [] h k = cc
text_ltb_trans [] (d ∷ t) (e ∷ u) h k = refl
text_ltb_trans (c ∷ s) (d ∷ t) (e ∷ u) h k = ground (arith, h, k, text_ltb_trans s t u)

text_ltb-total : (s t : Text) → text_eq s t ≡ false → text_ltb s t ≡ false → text_ltb t s ≡ true
unfolding text_ltb
text_ltb-total [] [] e h = cc
text_ltb-total [] (d ∷ t) e h = cc
text_ltb-total (c ∷ s) [] e h = refl
text_ltb-total (c ∷ s) (d ∷ t) e h = ground (arith, e, h, text_ltb-total s t)

After : Text → List Text → Type 0
After t us = All (λ u. text_ltb t u ≡ true) us

IsSorted : List Text → Type 0
unfolding After
IsSorted [] = Unit
IsSorted (t ∷ ts) = After t ts × IsSorted ts

After-In : (t u : Text) (us : List Text) → After t us → In u us → text_ltb t u ≡ true
unfolding After
After-In t u [] h m = elim m [ ]
After-In t u (x ∷ us) h (here e) = rw e h.0
After-In t u (x ∷ us) h (there m) = After-In t u us h.1 m

After-trans : (s t : Text) (us : List Text) → text_ltb s t ≡ true → After t us → After s us
unfolding After
After-trans s t [] h k = tt
After-trans s t (u ∷ us) h k = (text_ltb_trans s t u h k.0, After-trans s t us h k.1)

After-insert_check :
    (s t : Text) (us : List Text) → text_ltb s t ≡ true → After s us → After s (insert_check t us)
unfolding After insert_check
After-insert_check s t [] h k = (h, tt)
After-insert_check s t (u ∷ us) h k = elim (Bool-cases (text_eq t u)) [
  | inl e ↦ rw e k
  | inr e ↦ elim (Bool-cases (text_ltb t u)) [
    | inl l ↦ rw (e, l) (h, k)
    | inr l ↦ rw (e, l) (k.0, After-insert_check s t us h k.1)
  ]
]

insert_check-IsSorted : (t : Text) (us : List Text) → IsSorted us → IsSorted (insert_check t us)
unfolding IsSorted insert_check After
insert_check-IsSorted t [] h = (tt, tt)
insert_check-IsSorted t (u ∷ us) h = elim (Bool-cases (text_eq t u)) [
  | inl e ↦ rw e h
  | inr e ↦ elim (Bool-cases (text_ltb t u)) [
    | inl l ↦ rw (e, l) ((l, After-trans t u us l h.0), h)
    | inr l ↦
        rw (e, l)
          (After-insert_check u t us (text_ltb-total t u e l) h.0, insert_check-IsSorted t us h.1)
  ]
]

In-cons : (x t : Text) (ts : List Text) → In x (t ∷ ts) ↔ ((x ≡ t) ⊎ In x ts)
In-cons x t ts = (
  λ m. elim m [ here e ↦ inl e | there k ↦ inr k ],
  λ o. elim o [ inl e ↦ here e | inr k ↦ there k ],
)

-- a text that is there, with a text in front of it, or a new text behind one
In-insert_check : (x t : Text) (us : List Text) → In x (insert_check t us) ↔ ((x ≡ t) ⊎ In x us)
unfolding insert_check
In-insert_check x t [] = In-cons x t []
In-insert_check x t (u ∷ us) = elim (Bool-cases (text_eq t u)) [
  | inl e ↦
      let same = (text_eq_iff t u).0 e in
      rw e (λ m. inr m, λ o. elim o [ inl at ↦ here (at ∙ same) | inr m ↦ m ])
  | inr e ↦ elim (Bool-cases (text_ltb t u)) [
    | inl l ↦ rw (e, l) (In-cons x t (u ∷ us))
    | inr l ↦
        let later = In-insert_check x t us in
        rw (e, l)
          (
            λ m. elim m [
              | here at ↦ inr (here at)
              | there k ↦ elim (later.0 k) [ inl at ↦ inl at | inr j ↦ inr (there j) ]
            ],
            λ o. elim o [
              | inl at ↦ there (later.1 (inl at))
              | inr m ↦ elim m [ here at ↦ here at | there k ↦ there (later.1 (inr k)) ]
            ],
          )
  ]
]

add_check-IsSorted : (t : Text) (us : List Text) → IsSorted us → IsSorted (add_check t us)
unfolding add_check
add_check-IsSorted [] us h = h
add_check-IsSorted (c ∷ s) us h = insert_check-IsSorted (c ∷ s) us h

normalize-IsSorted : (ts : List Text) → IsSorted (normalize_failed_checks ts)
unfolding normalize_failed_checks IsSorted
normalize-IsSorted [] = tt
normalize-IsSorted (t ∷ ts) = add_check-IsSorted (strip t) _ (normalize-IsSorted ts)

In-add_check :
    (x t : Text) (us : List Text) → In x (add_check t us) ↔ (((x ≢ []) × (x ≡ t)) ⊎ In x us)
unfolding add_check
In-add_check x [] us = (λ m. inr m, λ o. elim o [ inl p ↦ absurd (p.0 p.1) | inr m ↦ m ])
In-add_check x (c ∷ s) us =
    let known = In-insert_check x (c ∷ s) us in
    (
      λ m. elim (known.0 m) [ inl e ↦ inl (λ nil. cc (nil, e), e) | inr k ↦ inr k ],
      λ o. elim o [ inl p ↦ known.1 (inl p.1) | inr k ↦ known.1 (inr k) ],
    )

In-normalize-IsNamed :
    (x : Text) (ts : List Text) → In x (normalize_failed_checks ts) → IsNamed ts x
unfolding normalize_failed_checks IsNamed
In-normalize-IsNamed x [] m = elim m [ ]
In-normalize-IsNamed x (t ∷ ts) m =
    elim ((In-add_check x (strip t) (normalize_failed_checks ts)).0 m) [
      | inl p ↦ (p.0, (t, here refl, sym p.1))
      | inr k ↦
          let (ne, (item, listed, same)) = In-normalize-IsNamed x ts k in
          (ne, (item, there listed, same))
    ]

named-In-normalize :
    (x item : Text) (ts : List Text)
    → x ≢ []
    → strip item ≡ x
    → In item ts
    → In x (normalize_failed_checks ts)
unfolding normalize_failed_checks
named-In-normalize x item [] ne same m = elim m [ ]
named-In-normalize x item (t ∷ ts) ne same (here e) =
    (In-add_check x (strip t) (normalize_failed_checks ts)).1 (inl (ne, sym same ∙ ap strip e))
named-In-normalize x item (t ∷ ts) ne same (there m) =
    (In-add_check x (strip t) (normalize_failed_checks ts)).1
      (inr (named-In-normalize x item ts ne same m))

In-normalize_iff : (x : Text) (ts : List Text) → In x (normalize_failed_checks ts) ↔ IsNamed ts x
unfolding IsNamed
In-normalize_iff x ts =
    (In-normalize-IsNamed x ts, λ h. named-In-normalize x h.1.0 ts h.0 h.1.2 h.1.1)

-- a sorted list is known by its members
same_head :
    (t u : Text) (ts us : List Text)
    → After t ts
    → After u us
    → In t (u ∷ us)
    → In u (t ∷ ts)
    → t ≡ u
same_head t u ts us h k (here e) n = e
same_head t u ts us h k (there m) (here e) = sym e
same_head t u ts us h k (there m) (there n) =
    let loop = text_ltb_trans t u t (After-In t u ts h n) (After-In u t us k m) in
    absurd (ground (arith, loop, text_ltb_irrefl t))

tail_member :
    (t u x : Text) (ts us : List Text) → t ≡ u → After t ts → In x ts → In x (u ∷ us) → In x us
tail_member t u x ts us same h m (there n) = n
tail_member t u x ts us same h m (here e) =
    let loop = subst (λ y. text_ltb t y ≡ true) (e ∙ sym same) (After-In t x ts h m) in
    absurd (ground (arith, loop, text_ltb_irrefl t))

canonical :
    (ts us : List Text) → IsSorted ts → IsSorted us → ((x : Text) → In x ts ↔ In x us) → ts ≡ us
unfolding IsSorted
canonical [] [] h k same = refl
canonical [] (u ∷ us) h k same = elim ((same u).1 (here refl)) [ ]
canonical (t ∷ ts) [] h k same = elim ((same t).0 (here refl)) [ ]
canonical (t ∷ ts) (u ∷ us) h k same =
    let head = same_head t u ts us h.0 k.0 ((same t).0 (here refl)) ((same u).1 (here refl)) in
    let tails = canonical ts us h.1 k.1 (λ x. (
      λ m. tail_member t u x ts us head h.0 m ((same x).0 (there m)),
      λ m. tail_member u t x us ts (sym head) k.0 m ((same x).1 (there m)),
    )) in
    ap (λ y. y ∷ ts) head ∙ ap (λ ys. u ∷ ys) tails

-- two lists of items are the same once normalized exactly when they name the same checks
pub normalize_failed_checks_iff :
    (xs ys : List Text)
    → (normalize_failed_checks xs ≡ normalize_failed_checks ys) ↔ SameChecks xs ys
unfolding SameChecks
normalize_failed_checks_iff xs ys = (
  λ e t. (
    λ h. (In-normalize_iff t ys).0 (subst (In t) e ((In-normalize_iff t xs).1 h)),
    λ h. (In-normalize_iff t xs).0 (subst (In t) (sym e) ((In-normalize_iff t ys).1 h)),
  ),
  λ same.
      canonical (normalize_failed_checks xs) (normalize_failed_checks ys) (normalize-IsSorted xs)
        (normalize-IsSorted ys)
        (λ t. (
          λ m. (In-normalize_iff t ys).1 ((same t).0 ((In-normalize_iff t xs).0 m)),
          λ m. (In-normalize_iff t xs).1 ((same t).1 ((In-normalize_iff t ys).0 m)),
        )),
)
