-- ===== src/Autopilot/Poll/Returns.antt =====
-- The polling loops come to an end, in time.
use ai_ops_runner.Base.{
  leb, leb→le, Bool-cases, ℕ, zero, suc, ◌+◌, ◌*◌, ◌≤◌, ◌<◌, ◌≡◌, refl, sym, subst, inl, inr, true,
  false, Option, some, arith,
}
use ai_ops_runner.Autopilot.Poll.{
  Console, Pace, Polling, Heard, ended, pending, Next, stop, again, limit, rest, after_answer,
  round, poll_loop, poll,
}

-- The interval is a second at least, every round so far has taken a second, and there have been no
-- more rounds than seconds, and one.
record IsPaced {S : Type 0} (p : Pace) (q : Polling S) : Type 0 where
  slow : 1 ≤ q.poll_interval
  spent : 1000 * q.poll_count ≤ q.now
  few : q.poll_count ≤ p.max_seconds + 1

-- where a round leads
Follows : {S : Type 0} → Pace → Polling S → Next S → Type 0
Follows p q (stop r) = r.poll_count ≤ p.max_seconds + 1
Follows p q (again r) = IsPaced p r × (q.now + 1000 ≤ r.now)

module _ {S : Type 0} (c : Console) (p : Pace) (hear : ℕ → S → Heard S) (min_slow : 1 ≤ p.poll_min)
    (max_slow : 1 ≤ p.poll_max) where
  rest-Follows :
      (q : Polling S) (now interval : ℕ) (s : S)
      → IsPaced p q
      → q.now ≤ limit p
      → q.now ≤ now
      → 1 ≤ interval
      → Follows p q (rest c p hear (suc q.poll_count) now interval s)
  unfolding rest Follows
  rest-Follows q now interval s paced early later slow = elim (Bool-cases (leb (limit p) now)) [
    | inl e ↦ rw e (omega (arith, paced.spent, early))
    | inr e ↦ rw e (
      record {
        slow = omega (arith, slow, max_slow);
        spent = omega (arith, paced.spent, later, slow);
        few = omega (arith, paced.spent, early);
      },
      omega (arith, later, slow),
    )
  ]

  after_answer-Follows :
      (q : Polling S) (now : ℕ) (h : Heard S)
      → IsPaced p q
      → q.now ≤ limit p
      → q.now ≤ now
      → Follows p q (after_answer c p hear (suc q.poll_count) now q.poll_interval h)
  unfolding after_answer Follows
  after_answer-Follows q now (ended s) paced early later = omega (arith, paced.spent, early)
  after_answer-Follows q now (pending true s) paced early later =
      rest-Follows q now p.poll_min s paced early later min_slow
  after_answer-Follows q now (pending false s) paced early later =
      rest-Follows q now q.poll_interval s paced early later paced.slow

  next : ℕ → Next S → Option (Polling S)
  next fuel (stop r) = some r
  next fuel (again r) = poll_loop c p hear fuel r

  same_next :
      (fuel : ℕ) (n : Next S)
      → elim n [ stop r ↦ some r | again r ↦ poll_loop c p hear fuel r ] ≡ next fuel n
  unfolding next
  same_next fuel (stop r) = refl
  same_next fuel (again r) = refl

  loop_step :
      (fuel : ℕ) (q : Polling S)
      → leb q.now (limit p) ≡ true
      → poll_loop c p hear (suc fuel) q ≡ next fuel (round c p hear q)
  unfolding poll_loop next
  loop_step fuel q e = rw (poll_loop, e) (same_next fuel (round c p hear q))

  loop_done :
      (fuel : ℕ) (q : Polling S)
      → leb q.now (limit p) ≡ false
      → poll_loop c p hear (suc fuel) q ≡ some q
  unfolding poll_loop
  loop_done fuel q e = rw (poll_loop, e) refl

  -- a result, in the time given
  Ends : Option (Polling S) → Type 0
  Ends o = (r : Polling S) × (o ≡ some r) × (r.poll_count ≤ p.max_seconds + 1)

  round-Follows : (q : Polling S) → IsPaced p q → q.now ≤ limit p → Follows p q (round c p hear q)
  unfolding round
  round-Follows q paced early = after_answer-Follows q _ _ paced early (omega arith)

  next-Ends :
      (fuel : ℕ) (q : Polling S) (n : Next S)
      → ((r : Polling S)
          → IsPaced p r
          → limit p < r.now + 1000 * fuel
          → Ends (poll_loop c p hear fuel r))
      → Follows p q n
      → limit p < q.now + 1000 * suc fuel
      → Ends (next fuel n)
  unfolding next Follows Ends
  next-Ends fuel q (stop r) ih few enough = (r, refl, few)
  next-Ends fuel q (again r) ih (paced, later) enough = ih r paced (omega (arith, later, enough))

  loop-Ends :
      (fuel : ℕ) (q : Polling S)
      → IsPaced p q
      → limit p < q.now + 1000 * fuel
      → Ends (poll_loop c p hear fuel q)
  unfolding Ends poll_loop
  loop-Ends zero q paced enough = (q, ground (arith, enough), paced.few)
  loop-Ends (suc fuel) q paced enough = elim (Bool-cases (leb q.now (limit p))) [
    | inr e ↦ (q, loop_done fuel q e, paced.few)
    | inl e ↦ subst Ends (sym (loop_step fuel q e)) (
        next-Ends fuel q (round c p hear q) (loop-Ends fuel)
          (round-Follows q paced (leb→le q.now (limit p) e)) enough)
  ]

  pub poll-Ends :
      (s : S) → (r : Polling S) × (poll c p hear s ≡ some r) × (r.poll_count ≤ p.max_seconds + 1)
  unfolding poll Ends
  poll-Ends s =
      loop-Ends (suc p.max_seconds) _
        record { slow = min_slow; spent = omega arith; few = omega arith } (omega arith)
