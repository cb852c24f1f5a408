-- ===== src/Autopilot/Poll.antt =====
-- The polling loops of ops/system/project_autopilot.py. Times are milliseconds since the loop began,
-- intervals seconds; a round takes the time of its request, and a sleep its interval at least.
pub mod Returns
pub mod Verdicts
pub mod Frozen
use mathlib.Core.Option
use ai_ops_runner.Base.{
  leb, nat_beq, if◌then◌else◌, ℕ, zero, suc, ◌+◌, ◌*◌, min, Bool, true, false, not, ◌||◌, Option,
  none, some, [], map,
}
use ai_ops_runner.Base.Dict
use ai_ops_runner.Base.Dict.{Dict}
use ai_ops_runner.Base.Int.{ℤ, pos, negsuc}
use ai_ops_runner.Base.Json.{Json, str}
use ai_ops_runner.Base.Text.{Text, codes, strip, text_eq, text_starts_with}
use ai_ops_runner.Autopilot.Remote.{
  Reader, RunPoll, parse_run_poll_response, Terminal, success, waiting_for_human, failed, running,
  classify_soma_terminal_status,
}
use ai_ops_runner.Autopilot.Resolve.{
  Artifacts, Method, unresolved, fs_scan, pointer, Resolution, resolve_run_to_done_artifacts,
}

-- The console as a loop meets it: by the number of the round, the answer to the poll, the
-- milliseconds that it took, and those that the sleep took beyond its interval.
pub record Console : Type 0 where
  pub reader : Reader
  pub answers : ℕ → ℕ × Text
  pub took : ℕ → ℕ
  pub overslept : ℕ → ℕ

pub record Pace : Type 0 where
  pub max_seconds : ℕ
  pub poll_min : ℕ
  pub poll_max : ℕ

-- the loop's clock and counters, and what it has learned
pub record Polling (S : Type 0) : Type 0 where
  pub now : ℕ
  pub poll_interval : ℕ
  pub poll_count : ℕ
  pub learned : S

-- an answer ends the loop, or leaves it to go on, perhaps with the interval set back
pub data Heard (S : Type 0) : Type 0 where
  ended : S → Heard S
  pending : Bool → S → Heard S

pub data Next (S : Type 0) : Type 0 where
  stop : Polling S → Next S
  again : Polling S → Next S

abbrev pub limit : Pace → ℕ
limit p = 1000 * p.max_seconds

module _ {S : Type 0} (c : Console) (p : Pace) (hear : ℕ → S → Heard S) where
  -- the end of a round that goes on: out of time, or a sleep, after which the interval doubles
  rest : ℕ → ℕ → ℕ → S → Next S
  rest n now interval s =
      if leb (limit p) now
      then stop record { now = now; poll_interval = interval; poll_count = n; learned = s }
      else again record {
        now = now + 1000 * interval + c.overslept n;
        poll_interval = min (interval * 2) p.poll_max;
        poll_count = n;
        learned = s;
      }

  after_answer : ℕ → ℕ → ℕ → Heard S → Next S
  unfolding rest
  after_answer n now interval (ended s) =
      stop record { now = now; poll_interval = interval; poll_count = n; learned = s }
  after_answer n now interval (pending reset s) =
      rest n now (if reset then p.poll_min else interval) s

  round : Polling S → Next S
  unfolding after_answer
  round q =
      after_answer (suc q.poll_count) (q.now + c.took (suc q.poll_count)) q.poll_interval
        (hear (suc q.poll_count) q.learned)

  -- `while elapsed <= max_seconds`; `none` when the fuel is spent
  unfoldable poll_loop : ℕ → Polling S → Option (Polling S)
  unfolding round
  poll_loop zero q = if leb q.now (limit p) then none else some q
  poll_loop (suc fuel) q = elim (leb q.now (limit p)) [
    | false ↦ some q
    | true ↦ elim (round q) [ stop r ↦ some r | again r ↦ poll_loop fuel r ]
  ]

  -- the loop from its beginning, with a round for every second and one more
  unfoldable pub poll : S → Option (Polling S)
  unfolding poll_loop
  poll s =
      poll_loop (suc p.max_seconds)
        record { now = 0; poll_interval = p.poll_min; poll_count = 0; learned = s }

-- what `poll_generic_action` learns of the run
pub record Generic : Type 0 where
  pub run_status : Text
  pub run : Dict Json

is_going : Text → Bool
is_going s = text_eq s (codes "running") || text_eq s (codes "queued")

hear_run : RunPoll → Heard Generic
unfolding is_going
hear_run r =
    let learned : Generic = record { run_status = r.status; run = r.run } in
    if is_going r.status then pending false learned else ended learned

unfoldable pub hear_generic : Console → ℕ → Generic → Heard Generic
unfolding hear_run
hear_generic c n g =
    if nat_beq (c.answers n).0 200
    then hear_run (parse_run_poll_response c.reader (c.answers n).1)
    else pending false g

pub record GenericResult : Type 0 where
  pub terminal : Terminal
  pub run_status : Text
  pub run_obj : Dict Json
  pub poll_count : ℕ
  pub elapsed : ℕ

unfoldable pub generic_result : Polling Generic → GenericResult
generic_result q = record {
  terminal = if text_eq q.learned.run_status (codes "success") then success else failed;
  run_status = q.learned.run_status;
  run_obj = q.learned.run;
  poll_count = q.poll_count;
  elapsed = q.now;
}

-- `poll_generic_action`
unfoldable pub poll_generic_action : Console → Pace → Option GenericResult
unfolding generic_result
poll_generic_action c p =
    Option.map generic_result (poll c p (hear_generic c) record { run_status = []; run = [] })

-- what `poll_to_terminal` learns of the run
pub record Watched : Type 0 where
  pub run_status : Text
  pub run : Dict Json
  pub run_artifact_dir : Option Text
  pub terminal : Terminal
  pub info : Option Resolution
  pub previous_status : Option Text

is_unresolved : Method → Bool
is_unresolved unresolved = true
is_unresolved fs_scan = false
is_unresolved pointer = false

-- the proof is looked for until it has been found
found_info : Artifacts → Text → Option Resolution → Resolution
unfolding is_unresolved
found_info a id none = resolve_run_to_done_artifacts a id
found_info a id (some r) = if is_unresolved r.method then resolve_run_to_done_artifacts a id else r

differs : Text → Option Text → Bool
differs s none = true
differs s (some t) = not (text_eq s t)

or_older : Option Text → Option Text → Option Text
or_older none older = older
or_older (some d) older = some d

by_terminal : Bool → Watched → Terminal → Heard Watched
by_terminal changed w running = pending changed w
by_terminal changed w success = ended w
by_terminal changed w failed = ended w
by_terminal changed w waiting_for_human = ended w

watch_run : Console → Artifacts → Text → Watched → RunPoll → Heard Watched
unfolding found_info differs or_older by_terminal
watch_run c a id w r =
    let info = found_info a id w.info in
    let terminal = classify_soma_terminal_status c.reader r.status info.proof in
    by_terminal (differs r.status w.previous_status)
      record {
        run_status = r.status;
        run = r.run;
        run_artifact_dir = or_older r.artifact_dir w.run_artifact_dir;
        terminal = terminal;
        info = some info;
        previous_status = some r.status;
      }
      terminal

-- the artifacts are those that the round meets
unfoldable pub hear_terminal : Console → (ℕ → Artifacts) → Text → ℕ → Watched → Heard Watched
unfolding watch_run
hear_terminal c world id n w =
    if nat_beq (c.answers n).0 200
    then watch_run c (world n) id w (parse_run_poll_response c.reader (c.answers n).1)
    else pending false w

-- a `PollResult`: `info` has the fields that the search for the proof gives
pub record TerminalResult : Type 0 where
  pub terminal : Terminal
  pub run_status : Text
  pub run_obj : Dict Json
  pub poll_count : ℕ
  pub elapsed : ℕ
  pub info : Resolution

-- a run that is still running has failed
settled : Terminal → Terminal
settled running = failed
settled t = t

final_info : Artifacts → Text → Option Resolution → Resolution
final_info a id none = resolve_run_to_done_artifacts a id
final_info a id (some r) = r

unfoldable pub terminal_result : (ℕ → Artifacts) → Text → Polling Watched → TerminalResult
unfolding settled final_info
terminal_result world id q = record {
  terminal = settled q.learned.terminal;
  run_status = q.learned.run_status;
  run_obj = q.learned.run;
  poll_count = q.poll_count;
  elapsed = q.now;
  info = final_info (world (suc q.poll_count)) id q.learned.info;
}

-- `poll_to_terminal`
unfoldable pub poll_to_terminal : Console → (ℕ → Artifacts) → Text → Pace → Option TerminalResult
unfolding terminal_result
poll_to_terminal c world id p = Option.map (terminal_result world id) (
    poll c p (hear_terminal c world id) record {
      run_status = [];
      run = [];
      run_artifact_dir = none;
      terminal = running;
      info = none;
      previous_status = none;
    })
