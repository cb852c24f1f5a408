-- ===== src/Autopilot/Poll/Verdicts.antt =====
-- What the polling loops come back with.
use mathlib.Core.Option
use ai_ops_runner.Base.{
  leb, nat_beq, if◌then◌else◌, nat_beq_iff, Bool-cases, ℕ, zero, suc, ◌+◌, ◌≤◌, ◌≡◌, refl, ap,
  subst, ◌≢◌, ◌⊎◌, inl, inr, Bool, Option, none, some, [], arith,
}
use ai_ops_runner.Base.Text.{Text, codes, text_eq, text_eq_iff}
use ai_ops_runner.Autopilot.Remote.{
  RunPoll, parse_run_poll_response, Terminal, success, waiting_for_human, failed, running,
}
use ai_ops_runner.Autopilot.Resolve.{Artifacts, Resolution}
use ai_ops_runner.Autopilot.Resolve.Owned.{IsOwned, resolve_run_to_done_artifacts-IsOwned}
use ai_ops_runner.Autopilot.Poll.{
  Console, Pace, Polling, Heard, ended, pending, Next, stop, again, limit, rest, after_answer,
  round, poll_loop, poll, Generic, is_going, hear_run, hear_generic, GenericResult, generic_result,
  poll_generic_action, Watched, is_unresolved, found_info, by_terminal, watch_run, hear_terminal,
  TerminalResult, settled, final_info, terminal_result, poll_to_terminal,
}
use ai_ops_runner.Autopilot.Interval.{parse_poll_interval, parse_poll_interval-bounds}
use ai_ops_runner.Base.Int.{ℤ}
use ai_ops_runner.Autopilot.Poll.Returns.{poll-Ends}

-- what has been learned, whether the loop goes on or not
Learned : {S : Type 0} → (S → Type 0) → Heard S → Type 0
Learned Q (ended s) = Q s
Learned Q (pending reset s) = Q s

Keeps : {S : Type 0} → (S → Type 0) → Next S → Type 0
Keeps Q (stop r) = Q r.learned
Keeps Q (again r) = Q r.learned

KeepsAll : {S : Type 0} → (S → Type 0) → Option (Polling S) → Type 0
KeepsAll Q none = Unit
KeepsAll Q (some r) = Q r.learned

-- what every answer preserves holds of the result
module _ {S : Type 0} (c : Console) (p : Pace) (hear : ℕ → S → Heard S) (Q : S → Type 0)
    (step : (n : ℕ) (s : S) → Q s → Learned Q (hear n s)) where
  rest-Keeps : (n now interval : ℕ) (s : S) → Q s → Keeps Q (rest c p hear n now interval s)
  unfolding rest Keeps
  rest-Keeps n now interval s h = elim (Bool-cases (leb (limit p) now)) [
    | inl e ↦ rw e h
    | inr e ↦ rw e h
  ]

  after_answer-Keeps :
      (n now interval : ℕ) (x : Heard S)
      → Learned Q x
      → Keeps Q (after_answer c p hear n now interval x)
  unfolding after_answer Learned Keeps
  after_answer-Keeps n now interval (ended s) h = h
  after_answer-Keeps n now interval (pending reset s) h = rest-Keeps n now _ s h

  round-Keeps : (q : Polling S) → Q q.learned → Keeps Q (round c p hear q)
  unfolding round
  round-Keeps q h = after_answer-Keeps _ _ _ _ (step _ q.learned h)

  on_next-Keeps :
      (fuel : ℕ) (n : Next S)
      → ((r : Polling S) → Q r.learned → KeepsAll Q (poll_loop c p hear fuel r))
      → Keeps Q n
      → KeepsAll Q (elim n [ stop r ↦ some r | again r ↦ poll_loop c p hear fuel r ])
  unfolding Keeps KeepsAll
  on_next-Keeps fuel (stop r) ih k = k
  on_next-Keeps fuel (again r) ih k = ih r k

  loop-Keeps : (fuel : ℕ) (q : Polling S) → Q q.learned → KeepsAll Q (poll_loop c p hear fuel q)
  unfolding poll_loop KeepsAll
  loop-Keeps zero q h = elim (Bool-cases (leb q.now (limit p))) [ inl e ↦ rw e tt | inr e ↦ rw e h ]
  loop-Keeps (suc fuel) q h = elim (Bool-cases (leb q.now (limit p))) [
    | inr e ↦ rw (KeepsAll, poll_loop, e) h
    | inl e ↦
        rw (KeepsAll, poll_loop, e)
          (on_next-Keeps fuel (round c p hear q) (loop-Keeps fuel) (round-Keeps q h))
  ]

  poll-Keeps : (s : S) → Q s → KeepsAll Q (poll c p hear s)
  unfolding poll
  poll-Keeps s h = loop-Keeps (suc p.max_seconds) _ h

-- a round of the console told this status
unfoldable pub ToldBy : Console → Text → Type 0
ToldBy c status =
    (n : ℕ) × ((c.answers n).0 ≡ 200)
    × ((parse_run_poll_response c.reader (c.answers n).1).status ≡ status)

-- nothing yet, or what a round told
Told : Console → Generic → Type 0
Told c g = (g.run_status ≡ []) ⊎ ToldBy c g.run_status

hear_run-Told :
    (c : Console) (n : ℕ)
    → (c.answers n).0 ≡ 200
    → Learned (Told c) (hear_run (parse_run_poll_response c.reader (c.answers n).1))
unfolding hear_run Learned Told ToldBy
hear_run-Told c n e =
    elim (Bool-cases (is_going (parse_run_poll_response c.reader (c.answers n).1).status)) [
      | inl h ↦ rw h (inr (n, e, refl))
      | inr h ↦ rw h (inr (n, e, refl))
    ]

hear_generic-Told :
    (c : Console) (n : ℕ) (g : Generic) → Told c g → Learned (Told c) (hear_generic c n g)
unfolding hear_generic Learned
hear_generic-Told c n g h = elim (Bool-cases (nat_beq (c.answers n).0 200)) [
  | inl e ↦ rw e (hear_run-Told c n ((nat_beq_iff (c.answers n).0 200).0 e))
  | inr e ↦ rw e h
]

-- What is known of a result, if there is one.
module _ {S R : Type 0} (c : Console) (p : Pace) (hear : ℕ → S → Heard S) (Q : S → Type 0)
    (step : (n : ℕ) (s : S) → Q s → Learned Q (hear n s)) (min_slow : 1 ≤ p.poll_min)
    (max_slow : 1 ≤ p.poll_max) where
  poll-Returns :
      (f : Polling S → R) (s : S)
      → Q s
      → (q : Polling S) × (Option.map f (poll c p hear s) ≡ some (f q))
        × (q.poll_count ≤ p.max_seconds + 1)
        × Q q.learned
  unfolding KeepsAll
  poll-Returns f s h =
      let (q, same, few) = poll-Ends c p hear min_slow max_slow s in
      (q, ap (Option.map f) same, few, subst (KeepsAll Q) same (poll-Keeps c p hear Q step s h))

success_told :
    (t : Text)
    → (if text_eq t (codes "success") then success else failed) ≡ success
    → t ≡ codes "success"
success_told t h = ground (arith, h, text_eq_iff t (codes "success"))

success_heard :
    (c : Console) (g : Generic)
    → Told c g
    → g.run_status ≡ codes "success"
    → ToldBy c (codes "success")
unfolding Told
success_heard c g (inl e) h = absurd (ground (arith, e, h))
success_heard c g (inr t) h = subst (ToldBy c) h t

-- With intervals of a second or more the poll returns, after no more rounds than there are seconds
-- and one; and it calls the run a success only if a round was answered, with 200, that it was.
poll_generic_action-success :
    (c : Console) (p : Pace)
    → 1 ≤ p.poll_min
    → 1 ≤ p.poll_max
    → (r : GenericResult) × (poll_generic_action c p ≡ some r)
      × (r.poll_count ≤ p.max_seconds + 1)
      × (r.terminal ≡ success → ToldBy c (codes "success"))
unfolding poll_generic_action Told
poll_generic_action-success c p min_slow max_slow =
    let (q, same, few, told) =
      poll-Returns c p (hear_generic c) (Told c) (hear_generic-Told c) min_slow max_slow
        generic_result record { run_status = []; run = [] } (inl refl) in
    (
      generic_result q,
      same,
      few,
      λ h. success_heard c q.learned told (success_told q.learned.run_status h),
    )

-- With an interval that the command line accepts the poll returns, after no more rounds than there are
-- seconds and one; and it calls the run a success only if a round was answered, with 200, that it was.
pub poll_generic_action-parse_poll_interval :
    (int_of : Text → Option ℤ) (interval : Text) (c : Console) (p : Pace)
    → parse_poll_interval int_of interval ≡ some (p.poll_min, p.poll_max)
    → (r : GenericResult) × (poll_generic_action c p ≡ some r)
      × (r.poll_count ≤ p.max_seconds + 1)
      × (r.terminal ≡ success → ToldBy c (codes "success"))
poll_generic_action-parse_poll_interval int_of interval c p accepted =
    let bounds = parse_poll_interval-bounds int_of interval p.poll_min p.poll_max accepted in
    poll_generic_action-success c p (omega (arith, bounds)) (omega (arith, bounds))

-- what has been found, if anything, belongs to the run
AllOwned : (ℕ → Artifacts) → Text → Option Resolution → Type 0
AllOwned world id none = Unit
AllOwned world id (some r) = (n : ℕ) × IsOwned (world n) id r

found_info-IsOwned :
    (world : ℕ → Artifacts) (id : Text) (n : ℕ) (o : Option Resolution)
    → AllOwned world id o
    → AllOwned world id (some (found_info (world n) id o))
unfolding found_info AllOwned
found_info-IsOwned world id n none h = (n, resolve_run_to_done_artifacts-IsOwned (world n) id)
found_info-IsOwned world id n (some r) h = elim (Bool-cases (is_unresolved r.method)) [
  | inl e ↦ rw e (n, resolve_run_to_done_artifacts-IsOwned (world n) id)
  | inr e ↦ rw e h
]

by_terminal-Learned :
    (Q : Watched → Type 0) (changed : Bool) (w : Watched) (t : Terminal)
    → Q w
    → Learned Q (by_terminal changed w t)
unfolding by_terminal Learned
by_terminal-Learned Q changed w success h = h
by_terminal-Learned Q changed w waiting_for_human h = h
by_terminal-Learned Q changed w failed h = h
by_terminal-Learned Q changed w running h = h

module _ (c : Console) (world : ℕ → Artifacts) (id : Text) where
  Found : Watched → Type 0
  Found w = AllOwned world id w.info

  watch_run-Found :
      (n : ℕ) (w : Watched) (r : RunPoll) → Found w → Learned Found (watch_run c (world n) id w r)
  unfolding watch_run Found
  watch_run-Found n w r h = by_terminal-Learned Found _ _ _ (found_info-IsOwned world id n w.info h)

  hear_terminal-Found :
      (n : ℕ) (w : Watched) → Found w → Learned Found (hear_terminal c world id n w)
  unfolding hear_terminal Learned
  hear_terminal-Found n w h = elim (Bool-cases (nat_beq (c.answers n).0 200)) [
    | inl e ↦ rw e (watch_run-Found n w (parse_run_poll_response c.reader (c.answers n).1) h)
    | inr e ↦ rw e h
  ]

settled_lem : (t : Terminal) → settled t ≢ running
unfolding settled
settled_lem success h = cc
settled_lem waiting_for_human h = cc
settled_lem failed h = cc
settled_lem running h = cc

final_info-IsOwned :
    (world : ℕ → Artifacts) (id : Text) (n : ℕ) (o : Option Resolution)
    → AllOwned world id o
    → (m : ℕ) × IsOwned (world m) id (final_info (world n) id o)
unfolding final_info AllOwned
final_info-IsOwned world id n none h = (n, resolve_run_to_done_artifacts-IsOwned (world n) id)
final_info-IsOwned world id n (some r) h = h

-- With intervals of a second or more the poll returns, after no more rounds than there are seconds
-- and one; its verdict is never that the run goes on; and the directory and the proof that it shows
-- belong to the run polled, as the search has it, among the artifacts of one moment.
pub poll_to_terminal-IsOwned :
    (c : Console) (world : ℕ → Artifacts) (id : Text) (p : Pace)
    → 1 ≤ p.poll_min
    → 1 ≤ p.poll_max
    → (r : TerminalResult) × (poll_to_terminal c world id p ≡ some r)
      × (r.poll_count ≤ p.max_seconds + 1)
      × (r.terminal ≢ running)
      × ((n : ℕ) × IsOwned (world n) id r.info)
unfolding poll_to_terminal Found AllOwned
poll_to_terminal-IsOwned c world id p min_slow max_slow =
    let (q, same, few, found) =
      poll-Returns c p (hear_terminal c world id) (Found c world id)
        (hear_terminal-Found c world id) min_slow max_slow (terminal_result world id) _ tt in
    (
      terminal_result world id q,
      same,
      few,
      settled_lem q.learned.terminal,
      final_info-IsOwned world id (suc q.poll_count) q.learned.info found,
    )
