-- ===== src/Autopilot/Poll/Frozen.antt =====
-- The proof that the autopilot has found once is not read again.
use mathlib.Core.Option
use mathlib.Core.Option.{some-injective}
use ai_ops_runner.Base.{
  leb, nat_beq, nat_beq_iff, Bool-cases, ℕ, zero, suc, ◌+◌, ◌≡◌, refl, sym, ap, subst, ◌≢◌, inl,
  inr, Bool, false, Option, none, some,
}
use ai_ops_runner.Base.Text.{Text}
use ai_ops_runner.Autopilot.Remote.{
  RunPoll, parse_run_poll_response, Terminal, success, waiting_for_human, failed, running,
}
use ai_ops_runner.Autopilot.Resolve.{
  Artifacts, unresolved, fs_scan, pointer, Method, Resolution, resolve_run_to_done_artifacts,
}
use ai_ops_runner.Autopilot.Poll.{
  Console, Pace, Polling, Heard, ended, pending, Next, stop, again, limit, rest, after_answer,
  round, poll_loop, poll, Watched, is_unresolved, found_info, by_terminal, watch_run, hear_terminal,
  final_info, terminal_result, poll_to_terminal,
}

-- what has been learned by the end of a round
LearnedAt : {S : Type 0} → (ℕ → S → Type 0) → ℕ → Heard S → Type 0
LearnedAt Q n (ended s) = Q n s
LearnedAt Q n (pending reset s) = Q n s

KeepsAt : {S : Type 0} → (ℕ → S → Type 0) → Next S → Type 0
KeepsAt Q (stop r) = Q r.poll_count r.learned
KeepsAt Q (again r) = Q r.poll_count r.learned

-- two ways to hear that agree on what can have been learned
module _ {S R : Type 0} (c : Console) (p : Pace) (hear heed : ℕ → S → Heard S) (f g : Polling S → R)
    (Q : ℕ → S → Type 0) (agree : (n : ℕ) (s : S) → Q n s → hear (suc n) s ≡ heed (suc n) s)
    (step : (n : ℕ) (s : S) → Q n s → LearnedAt Q (suc n) (hear (suc n) s))
    (same : (q : Polling S) → Q q.poll_count q.learned → f q ≡ g q) where
  rest-KeepsAt : (n now interval : ℕ) (s : S) → Q n s → KeepsAt Q (rest c p hear n now interval s)
  unfolding rest KeepsAt
  rest-KeepsAt n now interval s h = elim (Bool-cases (leb (limit p) now)) [
    | inl e ↦ rw e h
    | inr e ↦ rw e h
  ]

  after_answer-KeepsAt :
      (n now interval : ℕ) (x : Heard S)
      → LearnedAt Q n x
      → KeepsAt Q (after_answer c p hear n now interval x)
  unfolding after_answer LearnedAt KeepsAt
  after_answer-KeepsAt n now interval (ended s) h = h
  after_answer-KeepsAt n now interval (pending reset s) h = rest-KeepsAt n now _ s h

  after_answer_same :
      (n now interval : ℕ) (x : Heard S)
      → after_answer c p hear n now interval x ≡ after_answer c p heed n now interval x
  unfolding after_answer rest
  after_answer_same n now interval (ended s) = refl
  after_answer_same n now interval (pending reset s) = refl

  round_same : (q : Polling S) → Q q.poll_count q.learned → round c p hear q ≡ round c p heed q
  unfolding round
  round_same q h = rw (sym (agree q.poll_count q.learned h)) (
      after_answer_same (suc q.poll_count) (q.now + c.took (suc q.poll_count)) q.poll_interval
        (hear (suc q.poll_count) q.learned))

  round-KeepsAt : (q : Polling S) → Q q.poll_count q.learned → KeepsAt Q (round c p hear q)
  unfolding round
  round-KeepsAt q h = after_answer-KeepsAt _ _ _ _ (step q.poll_count q.learned h)

  next_same :
      (fuel : ℕ) (n : Next S)
      → ((r : Polling S)
          → Q r.poll_count r.learned
          → Option.map f (poll_loop c p hear fuel r) ≡ Option.map g (poll_loop c p heed fuel r))
      → KeepsAt Q n
      → Option.map f (elim n [ stop r ↦ some r | again r ↦ poll_loop c p hear fuel r ])
        ≡ Option.map g (elim n [ stop r ↦ some r | again r ↦ poll_loop c p heed fuel r ])
  unfolding KeepsAt
  next_same fuel (stop r) ih k = ap some (same r k)
  next_same fuel (again r) ih k = ih r k

  loop_same :
      (fuel : ℕ) (q : Polling S)
      → Q q.poll_count q.learned
      → Option.map f (poll_loop c p hear fuel q) ≡ Option.map g (poll_loop c p heed fuel q)
  unfolding poll_loop
  loop_same zero q h = elim (Bool-cases (leb q.now (limit p))) [
    | inl e ↦ rw e refl
    | inr e ↦ rw e (ap some (same q h))
  ]
  loop_same (suc fuel) q h = elim (Bool-cases (leb q.now (limit p))) [
    | inr e ↦ rw (poll_loop, e) (ap some (same q h))
    | inl e ↦
        rw (poll_loop, e, sym (round_same q h))
          (next_same fuel (round c p hear q) (loop_same fuel) (round-KeepsAt q h))
  ]

-- the proof has been found
IsFrozen : Option Resolution → Type 0
IsFrozen none = ⊥
IsFrozen (some r) = is_unresolved r.method ≡ false

found_info_frozen :
    (a : Artifacts) (id : Text) (o : Option Resolution) → IsFrozen o → some (found_info a id o) ≡ o
unfolding found_info IsFrozen
found_info_frozen a id none h = absurd h
found_info_frozen a id (some r) h = rw h refl

by_terminal-LearnedAt :
    (Q : ℕ → Watched → Type 0) (n : ℕ) (changed : Bool) (w : Watched) (t : Terminal)
    → Q n w
    → LearnedAt Q n (by_terminal changed w t)
unfolding by_terminal LearnedAt
by_terminal-LearnedAt Q n changed w success h = h
by_terminal-LearnedAt Q n changed w waiting_for_human h = h
by_terminal-LearnedAt Q n changed w failed h = h
by_terminal-LearnedAt Q n changed w running h = h

watch_run_same :
    (c : Console) (a b : Artifacts) (id : Text) (w : Watched) (r : RunPoll)
    → found_info a id w.info ≡ found_info b id w.info
    → watch_run c a id w r ≡ watch_run c b id w r
unfolding watch_run
watch_run_same c a b id w r h = rw h refl

hear_terminal_same :
    (c : Console) (before after : ℕ → Artifacts) (id : Text) (n : ℕ) (w : Watched)
    → found_info (before n) id w.info ≡ found_info (after n) id w.info
    → hear_terminal c before id n w ≡ hear_terminal c after id n w
unfolding hear_terminal
hear_terminal_same c before after id n w h =
    rw
      (watch_run_same c (before n) (after n) id w (parse_run_poll_response c.reader (c.answers n).1)
        h)
      refl

is_unresolved_lem : (m : Method) → m ≢ unresolved → is_unresolved m ≡ false
unfolding is_unresolved
is_unresolved_lem unresolved h = absurd (h refl)
is_unresolved_lem fs_scan h = refl
is_unresolved_lem pointer h = refl

final_info_frozen :
    (a b : Artifacts) (id : Text) (o : Option Resolution)
    → IsFrozen o
    → final_info a id o ≡ final_info b id o
unfolding final_info IsFrozen
final_info_frozen a b id none h = absurd h
final_info_frozen a b id (some r) h = refl

-- artifacts that are the same in the first round, which is answered and finds the proof
module _ (c : Console) (before after : ℕ → Artifacts) (id : Text) (first : before 1 ≡ after 1)
    (answered : (c.answers 1).0 ≡ 200)
    (found : (resolve_run_to_done_artifacts (before 1) id).method ≢ unresolved) where
  FrozenAt : ℕ → Watched → Type 0
  FrozenAt zero w = w.info ≡ none
  FrozenAt (suc n) w = IsFrozen w.info

  kept_from_start : IsFrozen (some (found_info (before 1) id none))
  unfolding IsFrozen found_info
  kept_from_start = is_unresolved_lem _ found

  agree_frozen :
      (n : ℕ) (w : Watched)
      → FrozenAt n w
      → hear_terminal c before id (suc n) w ≡ hear_terminal c after id (suc n) w
  unfolding FrozenAt
  agree_frozen zero w h =
      hear_terminal_same c before after id 1 w (ap (λ a. found_info a id w.info) first)
  agree_frozen (suc n) w h = hear_terminal_same c before after id (suc (suc n)) w (
      some-injective _ _ (
        rw (found_info_frozen (before (suc (suc n))) id w.info h)
          (sym (found_info_frozen (after (suc (suc n))) id w.info h))))

  watch_run-FrozenAt :
      (n : ℕ) (w : Watched) (r : RunPoll)
      → IsFrozen (some (found_info (before (suc n)) id w.info))
      → LearnedAt FrozenAt (suc n) (watch_run c (before (suc n)) id w r)
  unfolding watch_run FrozenAt
  watch_run-FrozenAt n w r h = by_terminal-LearnedAt FrozenAt (suc n) _ _ _ h

  step_frozen :
      (n : ℕ) (w : Watched)
      → FrozenAt n w
      → LearnedAt FrozenAt (suc n) (hear_terminal c before id (suc n) w)
  unfolding hear_terminal FrozenAt LearnedAt
  step_frozen zero w h = rw ((nat_beq_iff (c.answers 1).0 200).1 answered) (
      watch_run-FrozenAt 0 w (parse_run_poll_response c.reader (c.answers 1).1)
        (subst (λ o. IsFrozen (some (found_info (before 1) id o))) (sym h) kept_from_start))
  step_frozen (suc n) w h = elim (Bool-cases (nat_beq (c.answers (suc (suc n))).0 200)) [
    | inl e ↦ rw e (
        watch_run-FrozenAt (suc n) w (parse_run_poll_response c.reader (c.answers (suc (suc n))).1)
          (subst IsFrozen (sym (found_info_frozen (before (suc (suc n))) id w.info h)) h))
    | inr e ↦ rw e h
  ]

  final_info_same :
      (n : ℕ) (w : Watched)
      → FrozenAt n w
      → final_info (before (suc n)) id w.info ≡ final_info (after (suc n)) id w.info
  unfolding FrozenAt
  final_info_same zero w h = ap (λ a. final_info a id w.info) first
  final_info_same (suc n) w h =
      final_info_frozen (before (suc (suc n))) (after (suc (suc n))) id w.info h

  result_same :
      (q : Polling Watched)
      → FrozenAt q.poll_count q.learned
      → terminal_result before id q ≡ terminal_result after id q
  unfolding terminal_result
  result_same q h = rw (final_info_same q.poll_count q.learned h) refl

  -- When the first round is answered and finds the run's proof, nothing that is written to the proof
  -- later has any effect: whatever the later artifacts are, the result is the same.
  pub poll_to_terminal_frozen :
      (p : Pace) → poll_to_terminal c before id p ≡ poll_to_terminal c after id p
  unfolding poll_to_terminal poll FrozenAt
  poll_to_terminal_frozen p =
      loop_same c p (hear_terminal c before id) (hear_terminal c after id)
        (terminal_result before id) (terminal_result after id) FrozenAt agree_frozen step_frozen
        result_same (suc p.max_seconds) _ refl
