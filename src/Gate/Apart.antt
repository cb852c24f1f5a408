-- ===== src/Gate/Apart.antt =====
-- The gates of two projects do not touch each other.
use ai_ops_runner.Base.{
  leb, Bool-cases, eq_iff, ◌==◌, string_eq, String, ◌≡◌, refl, ◌∙◌, inl, inr, false, Option, [],
  ◌∷◌, arith,
}
use ai_ops_runner.Base.Dict
use ai_ops_runner.Base.Dict.{get-put}
use ai_ops_runner.Base.Int.{ℤ}
use ai_ops_runner.Gate.{
  Clock, Moment, Content, Files, remove, clear_gate, Expiry, no_gate, raises, until, expiry,
  read_until, read_gate, write_gate, touch_until, touch_gate,
}

get-remove_other :
    (fs : Files) (p q : String) → (p == q) ≡ false → Dict.get (remove fs p) q ≡ Dict.get fs q
unfolding remove Dict.get
get-remove_other [] p q e = refl
get-remove_other ((r, c) ∷ fs) p q e =
    ground (arith, e, eq_iff p q, eq_iff r p, eq_iff r q, get-remove_other fs p q e)

get-clear_gate_other :
    (w : Moment) (fs : Files) (p q : String)
    → (p == q) ≡ false
    → Dict.get (clear_gate w p fs) q ≡ Dict.get fs q
unfolding clear_gate
get-clear_gate_other w fs p q e = ground (arith, get-remove_other fs p q e)

get-put_other :
    (fs : Files) (p q : String) (c : Content)
    → (p == q) ≡ false
    → Dict.get (Dict.put fs p c) q ≡ Dict.get fs q
get-put_other fs p q c e = get-put fs p q c ∙ rw e refl

module _ (k : Clock) (w : Moment) (p q : String) (fs : Files) (apart : (p == q) ≡ false) where
  read_until-other : (e : Expiry) → Dict.get (read_until w p fs e).1 q ≡ Dict.get fs q
  unfolding read_until
  read_until-other no_gate = refl
  read_until-other raises = refl
  read_until-other (until gate t) = ground (arith, get-clear_gate_other w fs p q apart)

  touch_until-other :
      (ttl : Option ℤ) (e : Expiry) → Dict.get (touch_until k w p ttl fs e).1 q ≡ Dict.get fs q
  unfolding touch_until
  touch_until-other ttl no_gate = refl
  touch_until-other ttl raises = refl
  touch_until-other ttl (until gate t) = elim (Bool-cases (leb t w.now)) [
    | inl e ↦ rw e refl
    | inr e ↦ rw e (get-put_other fs p q _ apart)
  ]

  -- Reading, writing, touching or clearing the gate of one project leaves the file of every other
  -- project as it is.
  gates_apart :
      (run_id url reason : String) (ttl : Option ℤ)
      → (Dict.get (read_gate k w p fs).1 q ≡ Dict.get fs q)
        × (Dict.get (write_gate k w p run_id url reason ttl fs).1 q ≡ Dict.get fs q)
        × (Dict.get (touch_gate k w p ttl fs).1 q ≡ Dict.get fs q)
        × (Dict.get (clear_gate w p fs) q ≡ Dict.get fs q)
  unfolding read_gate write_gate touch_gate
  gates_apart run_id url reason ttl = (
    read_until-other (expiry k p fs),
    get-put_other fs p q _ apart,
    touch_until-other ttl (expiry k p fs),
    get-clear_gate_other w fs p q apart,
  )
