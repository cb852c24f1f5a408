-- ===== src/Lib.antt =====
-- ai-ops-runner: the deterministic core of the repository's Python.
--
-- The repository runs operations for its owner. A policy names what may be done and by whom; a
-- privileged daemon executes the few commands that need root; a runner executes allowlisted jobs for
-- a repository in throw-away worktrees; a router sends questions to language models under a budget
-- and a spending guard; a gate keeps automation away while a person logs in. A host executor runs the
-- actions of a registry for the console, the brain loop watches the doctors and alerts, and the project
-- autopilot polls a run to its end.
--
-- How the files follow the code:
--   Policy    ops/policy/policy_evaluator.py. `Action`, `Permissions` and the allowlist are the
--             content of its two configuration files; `evaluate`, `validate_rootd_command` and the
--             tier queries are the methods of `PolicyEvaluator`. Rootd asks it before it acts.
--   Rootd     ops/openclaw_rootd.py. Rootd/Server has the HTTP handler and the signature check,
--             Rootd/Command has `handle_command` with its audits, Rootd/Exec the executors. A
--             request goes through them in this order; its effects are written down in a `World`.
--   Llm       src/llm. Types is types.py, Budget is budget.py, Guard is cost_tracker.py (the usage
--             log and the guard over it), Transient and Router are router.py. The router asks the
--             budget and the guard before it calls a provider, and logs the usage after.
--   Runner    services/test_runner/test_runner. Allowlist is allowlist.py, Repos is
--             repo_allowlist.py (Repos/Url has its two regular expressions), Store is db.py over
--             migrations/001_init.sql, Api is api.py, Executor is executor.py with the tree check
--             of security.py, Worker is worker.py. Api writes rows and queues ids, the worker takes
--             the ids and gives each row to the executor.
--   Hostd     ops/openclaw_hostd.py, and ops/rootd_client.py in Hostd/Client. Hostd/Token has the admin
--             token, Hostd/Registry the registry of actions, Hostd/Secrets the upload of secrets,
--             Hostd/Action the run of an action with its artifacts, Hostd/Backtest and
--             Hostd/Service the work for a job, Hostd/Server the handler. It asks rootd through the
--             client, whose signature is the one that Rootd/Server checks.
--   Brain     ops/system/brain_loop.py in Checks, Matrix and Loop, ops/lib/notification_router.py in
--             Router, ops/lib/notifier.py in Notifier, ops/lib/autonomy_mode.py in Autonomy. The loop
--             compares the verdict of the doctors with the one before and sends a change through
--             the router, and the router through the webhook.
--   Autopilot ops/system/project_autopilot.py: the polling loops in Poll, `parse_poll_interval` in
--             Interval, `resolve_run_to_done_artifacts` in Resolve, `send_terminal_alert` in Alert,
--             which goes through Brain's router; Remote is ops/lib/aiops_remote_helpers.py, the
--             reading of the console's answers.
--   StatePack ops/lib/state_pack_contract.py: whether the latest state pack is complete and fresh. The
--             files are those of one moment, in a `Store`.
--   Gate      ops/lib/human_gate.py: the file that says that a person is logging in.
--   Kajabi    services/soma_kajabi/ui_action_schema.py: which actions of a model's answer the browser
--             may take. Kajabi/Payload is `_extract_json`.
--   Base      what these share: Boolean tests, lists, dictionaries, JSON values, texts, integers.
--
-- Representation. A text that the code takes apart is a list of code points, and case and blanks are
-- those of ASCII; other texts are strings. A JSON value is a `Json`, a dictionary an association
-- list in insertion order. The reason of a refusal is a constructor with the values that the message
-- shows. Money is counted in units of 10^-8 dollars and prices in cents for a million tokens, so
-- that products are exact; times are counts of hours for the spending guard, of microseconds for the
-- gate and the state pack, and of milliseconds for the autopilot. An exception is a value: `none`,
-- or a constructor of its own. Most loops recur on a list, the worker's on the turns until the
-- signal to shut down. The polling loop of the autopilot recurs on fuel: a round for every second it
-- has and one more, which is enough since every round sleeps for a second or more; `none` would be
-- its fuel spent.
--
-- Parameters. What the code calls and does not contain is an argument of the definitions: the
-- providers of the router, the HMAC, the processes and files of rootd (`Host`, `Daemon`), SHA-256
-- and the YAML reader (`Loader`), `json.loads`, the printing and parsing of times (`Clock`,
-- `Store`), git, the clock and the command of a job (`Machine`, `Surroundings`), the files,
-- processes and sockets of hostd and its client (`Station`, `Vault`, `Link`), base64, `urlparse`,
-- SHA-256 and the quoting of a text in JSON for the hashes of alerts (`Hasher`), the doctors and the
-- webhook of the brain loop (`Doctor`, `Turn`, `Webhook`), the
-- answers of the console and the files that the autopilot meets (`Console`, `Artifacts`). The SQL
-- statements of db.py are read as what they say of the table, and RPUSH and BLPOP as the two ends of
-- a list.
--
-- Taken for granted: the end of a gate stays in the range of datetime.
--
-- Not modelled: the console in TypeScript and the shell scripts; browser automation, noVNC and
-- network glue; key stores and OAuth flows; reports that only format what they read. Of the project
-- autopilot the trigger, the preflight and its alerts, the mock client and the summaries are left
-- out, and so are the programs of ops/system and ops/scripts that are not named above, which are
-- sequences of calls of other programs.
pub mod Base
pub mod Policy
pub mod Rootd
pub mod Llm
pub mod Runner
pub mod Gate
pub mod Hostd
pub mod Brain
pub mod Autopilot
pub mod StatePack
pub mod Kajabi
