-- ===== src/Gate/Window.antt =====
-- When a gate is open, and that nothing but a write opens it.
use ai_ops_runner.Base.{
  leb, if◌then◌else◌, le→leb, Bool-cases, ℕ, ◌≤◌, String, ◌≡◌, refl, sym, ap, ◌∙◌, subst, ◌↔◌, inl,
  inr, true, Option, none, some, [], ◌∷◌, arith,
}
use ai_ops_runner.Base.Dict
use ai_ops_runner.Base.Dict.{Dict, get-put, get-put_self}
use ai_ops_runner.Base.Int.{ℤ}
use ai_ops_runner.Base.Json.{Json, str, obj, members, truthy, as_dict}
use ai_ops_runner.Gate.{
  aware, Clock, Moment, holds, Files, after_minutes, resolve_ttl_minutes, fields_of, remove,
  clear_gate, active, inactive, Expiry, no_gate, raises, until, on_stamp, on_expires_at, on_json,
  on_file, expiry, read_until, read_gate, new_gate, write_gate, touched, touch_until, touch_gate,
}

members-fields_of : (d : Dict Json) → members (fields_of d) ≡ d
unfolding members fields_of
members-fields_of [] = refl
members-fields_of ((k, v) ∷ d) = ap (λ (r : Dict Json). (k, v) ∷ r) (members-fields_of d)

get-remove_self : (fs : Files) (p : String) → Dict.get (remove fs p) p ≡ none
unfolding remove Dict.get
get-remove_self [] p = refl
get-remove_self ((q, c) ∷ fs) p = ground (arith, get-remove_self fs p)

module _ (k : Clock) where
  -- `fromisoformat` reads what `isoformat` has printed, which is not empty
  abbrev pub IsRoundTrip : Type 0
  IsRoundTrip = (t : ℕ) → (k.parse (str (k.print t)) ≡ aware t) × (truthy (str (k.print t)) ≡ true)

  expiry-put :
      (p : String) (fs : Files) (gate : Dict Json) (t : ℕ)
      → IsRoundTrip
      → Dict.get gate "expires_at" ≡ some (str (k.print t))
      → expiry k p (Dict.put fs p (holds (obj (fields_of gate)))) ≡ until gate t
  unfolding expiry on_file on_json on_expires_at on_stamp as_dict
  expiry-put p fs gate t law e =
      ap (on_file k) (get-put_self fs p (holds (obj (fields_of gate))))
      ∙ ap (λ (d : Dict Json). on_expires_at k d (Dict.get d "expires_at")) (members-fields_of gate)
      ∙ ap (on_expires_at k gate) e
      ∙ on_printed
    where
      on_printed : on_expires_at k gate (some (str (k.print t))) ≡ until gate t
      on_printed =
          ap (λ b. if b then on_stamp gate (k.parse (str (k.print t))) else no_gate) (law t).1
          ∙ ap (on_stamp gate) (law t).0

  get-new_gate :
      (w : Moment) (p run_id url reason : String) (ttl : ℤ)
      → Dict.get (new_gate k w p run_id url reason ttl) "expires_at"
        ≡ some (str (k.print (after_minutes w.now ttl)))
  unfolding new_gate Dict.get
  get-new_gate w p run_id url reason ttl = refl

  -- A gate that has been written is found, with the values that were written, at every time before
  -- its expiry, and from then on reading it finds none and removes its file where it can.
  pub read_gate-write_gate :
      (w v : Moment) (p run_id url reason : String) (ttl : Option ℤ) (fs : Files)
      → IsRoundTrip
      → let written = write_gate k w p run_id url reason ttl fs in
        read_gate k v p written.1 ≡ (
          if leb (after_minutes w.now (resolve_ttl_minutes ttl w.env_ttl)) v.now
          then (inactive, clear_gate v p written.1)
          else (active written.0, written.1))
  unfolding read_gate write_gate read_until
  read_gate-write_gate w v p run_id url reason ttl fs law = ap (read_until v p _) (
      expiry-put p fs _ (after_minutes w.now (resolve_ttl_minutes ttl w.env_ttl)) law
        (get-new_gate w p run_id url reason (resolve_ttl_minutes ttl w.env_ttl)))

  touch_until_iff :
      (w : Moment) (p : String) (ttl : Option ℤ) (fs : Files) (e : Expiry)
      → ((touch_until k w p ttl fs e).0 ≡ touched)
        ↔ ((gate : Dict Json) × ((read_until w p fs e).0 ≡ active gate))
  unfolding touch_until read_until
  touch_until_iff w p ttl fs no_gate = (λ h. cc, λ h. cc (h.1))
  touch_until_iff w p ttl fs raises = (λ h. cc, λ h. cc (h.1))
  touch_until_iff w p ttl fs (until gate t) = elim (Bool-cases (leb t w.now)) [
    | inl e ↦ (λ h. absurd (ground (arith, e, h)), λ h. absurd (ground (arith, e, h.1)))
    | inr e ↦ (λ h. (gate, ground (arith, e)), λ h. ground (arith, e))
  ]

  -- A gate is touched exactly when reading it at that time finds it active.
  touch_gate_iff :
      (w : Moment) (p : String) (ttl : Option ℤ) (fs : Files)
      → ((touch_gate k w p ttl fs).0 ≡ touched)
        ↔ ((gate : Dict Json) × ((read_gate k w p fs).0 ≡ active gate))
  unfolding touch_gate read_gate
  touch_gate_iff w p ttl fs = touch_until_iff w p ttl fs (expiry k p fs)

  touch_until-expiry :
      (w : Moment) (p : String) (ttl : Option ℤ) (fs : Files) (e : Expiry)
      → IsRoundTrip
      → (touch_until k w p ttl fs e).0 ≡ touched
      → (longer : Dict Json) × (expiry k p (touch_until k w p ttl fs e).1
          ≡ until longer (after_minutes w.later (resolve_ttl_minutes ttl w.env_ttl)))
  unfolding touch_until
  touch_until-expiry w p ttl fs no_gate law h = cc
  touch_until-expiry w p ttl fs raises law h = cc
  touch_until-expiry w p ttl fs (until gate t) law h =
      let t' = after_minutes w.later (resolve_ttl_minutes ttl w.env_ttl) in
      let longer = Dict.put gate "expires_at" (str (k.print t')) in
      elim (Bool-cases (leb t w.now)) [
        | inl e ↦ absurd (ground (arith, e, h))
        | inr e ↦ (
          longer,
          rw e (expiry-put p fs longer t' law (get-put_self gate "expires_at" (str (k.print t')))),
        )
      ]

  -- A gate that has been touched is found active before its new expiry, which counts from the time of
  -- the touch, and inactive from then on.
  read_gate-touch_gate :
      (w v : Moment) (p : String) (ttl : Option ℤ) (fs : Files)
      → IsRoundTrip
      → (touch_gate k w p ttl fs).0 ≡ touched
      → (longer : Dict Json) × ((read_gate k v p (touch_gate k w p ttl fs).1).0 ≡ (
          if leb (after_minutes w.later (resolve_ttl_minutes ttl w.env_ttl)) v.now
          then inactive
          else active longer))
  unfolding touch_gate read_gate read_until
  read_gate-touch_gate w v p ttl fs law h =
      let found = touch_until-expiry w p ttl fs (expiry k p fs) law h in
      (
        found.0,
        ap (λ (e : Expiry). (read_until v p (touch_until k w p ttl fs (expiry k p fs)).1 e).0)
              found.1
            ∙ ground arith,
      )

  expiry-remove : (p : String) (fs : Files) → expiry k p (remove fs p) ≡ no_gate
  unfolding expiry on_file
  expiry-remove p fs = ap (on_file k) (get-remove_self fs p)

  -- the gate of a project is closed at this time
  IsClosed : Moment → Expiry → Type 0
  IsClosed w no_gate = Unit {0}
  IsClosed w raises = ⊥
  IsClosed w (until gate t) = t ≤ w.now

  inactive→IsClosed :
      (w : Moment) (p : String) (fs : Files) (e : Expiry)
      → (read_until w p fs e).0 ≡ inactive
      → IsClosed w e
  unfolding IsClosed read_until
  inactive→IsClosed w p fs no_gate h = tt
  inactive→IsClosed w p fs raises h = cc
  inactive→IsClosed w p fs (until gate t) h = ground (arith, h)

  IsClosed→inactive :
      (w v : Moment) (p : String) (fs : Files) (e : Expiry)
      → w.now ≤ v.now
      → IsClosed w e
      → (read_until v p fs e).0 ≡ inactive
  unfolding IsClosed read_until
  IsClosed→inactive w v p fs no_gate le h = refl
  IsClosed→inactive w v p fs raises le h = absurd h
  IsClosed→inactive w v p fs (until gate t) le h = ground (arith, le, h)

  read_until-IsClosed :
      (w : Moment) (p : String) (fs : Files) (e : Expiry)
      → expiry k p fs ≡ e
      → IsClosed w e
      → IsClosed w (expiry k p (read_until w p fs e).1)
  unfolding IsClosed read_until clear_gate
  read_until-IsClosed w p fs no_gate e h = subst (IsClosed w) (sym e) tt
  read_until-IsClosed w p fs raises e h = absurd h
  read_until-IsClosed w p fs (until gate t) e h =
      rw (le→leb t w.now h) (elim (Bool-cases w.removable) [
        | inl r ↦
            let same : clear_gate w p fs ≡ remove fs p = ground (arith, r) in
            subst (λ (f : Files). IsClosed w (expiry k p f)) (sym same)
              (subst (IsClosed w) (sym (expiry-remove p fs)) tt)
        | inr r ↦
            let same : clear_gate w p fs ≡ fs = ground (arith, r) in
            subst (λ (f : Files). IsClosed w (expiry k p f)) (sym same)
              (subst (IsClosed w) (sym e) h)
      ])

  touch_until-IsClosed :
      (w : Moment) (p : String) (ttl : Option ℤ) (fs : Files) (e : Expiry)
      → IsClosed w e
      → (touch_until k w p ttl fs e).1 ≡ fs
  unfolding IsClosed touch_until
  touch_until-IsClosed w p ttl fs no_gate h = refl
  touch_until-IsClosed w p ttl fs raises h = absurd h
  touch_until-IsClosed w p ttl fs (until gate t) h = ground (arith, h)

  -- A gate that reads as inactive stays inactive: no later time, no reading and no touching opens it.
  inactive_stays :
      (w v : Moment) (p : String) (ttl : Option ℤ) (fs : Files)
      → (read_gate k w p fs).0 ≡ inactive
      → w.now ≤ v.now
      → ((read_gate k v p (read_gate k w p fs).1).0 ≡ inactive)
        × ((read_gate k v p (touch_gate k w p ttl fs).1).0 ≡ inactive)
  unfolding read_gate touch_gate
  inactive_stays w v p ttl fs h le =
      let closed = inactive→IsClosed w p fs (expiry k p fs) h in
      let kept = touch_until-IsClosed w p ttl fs (expiry k p fs) closed in
      (
        IsClosed→inactive w v p _ _ le (read_until-IsClosed w p fs (expiry k p fs) refl closed),
        IsClosed→inactive w v p _ _ le
            (subst (λ (f : Files). IsClosed w (expiry k p f)) (sym kept) closed),
      )
