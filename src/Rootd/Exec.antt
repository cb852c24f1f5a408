-- ===== src/Rootd/Exec.antt =====
-- The executors of ops/openclaw_rootd.py. Each returns the effects it attempts with its outcome.
pub mod Timers
use ai_ops_runner.Base.{
  if◌then◌else◌, get_or, any, ◌==◌, string_eq, contains, String, Bool, true, false, not, ◌||◌,
  Option, none, some, List, [], ◌∷◌, ◌++◌,
}
use ai_ops_runner.Base.Dict
use ai_ops_runner.Base.Dict.{Dict}
use ai_ops_runner.Base.Int.{ℤ, pos}
use ai_ops_runner.Base.Json.{Json, truthy, is_text, as_text, as_dict, items}
use ai_ops_runner.Base.Text.{Text, codes, strip, find_line, text_contains, basename}

-- one word of a command line
pub data Word : Type 0 where
  word : String → Word
  value : Json → Word
  tcp : Json → Word
  name : Text → Word

pub data Effect : Type 0 where
  process : List Word → Effect
  write : Json → Json → Effect
  install : Text → Text → Effect

-- what `subprocess.run` does: it returns, its timeout expires, or it raises
pub data Ran : Type 0 where
  exited : ℤ → Text → Text → Ran
  expired : Ran
  raised : Text → Ran

-- The host: processes, a file write that may raise, and which files of the repository exist.
pub record Host : Type 0 where
  pub run : List Word → Ran
  pub write : Json → Json → Option Text
  pub is_file : Text → Bool
  pub install : Text → Text → Option Text

-- exit code, stdout, stderr
abbrev pub Outcome : Type 0
Outcome = ℤ × Text × Text

abbrev pub Executed : Type 0
Executed = List Effect × Outcome

abbrev fail : Text → Outcome
fail e = (pos 1, [], e)

outcome : Text → Ran → Outcome
outcome late (exited c out err) = (c, out, err)
outcome late expired = fail late
outcome late (raised e) = fail e

abbrev subcommands : List String
subcommands = "restart" ∷ "enable" ∷ "start" ∷ "stop" ∷ "status" ∷ []

-- `_exec_systemctl`
unfoldable pub exec_systemctl : Host → String → Word → Executed
unfolding outcome
exec_systemctl h subcmd unit =
    let args =
      if subcmd == "enable"
      then word "systemctl" ∷ word "enable" ∷ word "--now" ∷ unit ∷ []
      else word "systemctl" ∷ word subcmd ∷ unit ∷ [] in
    if contains subcommands subcmd
    then (process args ∷ [], outcome (codes "systemctl timed out (30s)") (h.run args))
    else ([], fail (codes "systemctl subcommand not allowed"))

-- `_exec_systemctl_daemon_reload`: every exception, the timeout included, is caught
unfoldable pub exec_daemon_reload : Host → Executed
unfolding outcome
exec_daemon_reload h =
    let args = word "systemctl" ∷ word "daemon-reload" ∷ [] in
    (process args ∷ [], outcome (codes "timed out after 15 seconds") (h.run args))

tailscale : Host → List Word → Executed
unfolding outcome
tailscale h args =
    (process args ∷ [], outcome (codes "tailscale serve timed out (30s)") (h.run args))

-- `_exec_tailscale_serve`
unfoldable pub exec_tailscale_serve : Host → Json → Dict Json → Executed
unfolding tailscale
exec_tailscale_serve h subcmd args =
    let target = get_or (Dict.get args "target") (Json.str "") in
    let tcp_port = get_or (Dict.get args "tcp_port") (Json.str "443") in
    if is_text subcmd "reset"
    then tailscale h (word "tailscale" ∷ word "serve" ∷ word "reset" ∷ [])
    else if is_text subcmd "apply"
    then (if truthy target
        then tailscale h
            (word "tailscale" ∷ word "serve" ∷ word "--bg" ∷ tcp tcp_port ∷ value target ∷ [])
        else ([], fail (codes "Missing target for tailscale serve apply")))
    else if is_text subcmd "status"
    then tailscale h (word "tailscale" ∷ word "serve" ∷ word "status" ∷ word "--json" ∷ [])
    else ([], fail (codes "tailscale serve subcommand not allowed"))

written : Option Text → Outcome
written none = (pos 0, codes "Wrote", [])
written (some e) = fail e

-- `_exec_write_etc_config`
unfoldable pub exec_write_etc_config : Host → Json → Json → Executed
unfolding written
exec_write_etc_config h path content =
    (Effect.write path content ∷ [], written (h.write path content))

on_443 : Text → Bool
on_443 line = text_contains line (codes ":443 ") || text_contains line (codes ":443\t")

bound : Ran → Outcome
unfolding on_443
bound (exited c out err) = elim (find_line on_443 (strip out)) [
  | none ↦ fail (codes "Nothing listening on port 443")
  | some line ↦ (pos 0, codes "Port 443 is bound:\n" ++ line, [])
]
bound expired = fail (codes "timed out after 5 seconds")
bound (raised e) = fail e

-- `_exec_bind_verify_443`
unfoldable pub exec_bind_verify_443 : Host → Executed
unfolding bound
exec_bind_verify_443 h =
    let args = word "ss" ∷ word "-tlnp" ∷ [] in (process args ∷ [], bound (h.run args))

-- `".." in value`: `none` is the TypeError of a value that holds nothing
unfoldable pub has_dots : Json → Option Bool
has_dots (Json.str s) = some (text_contains (codes s) (codes ".."))
has_dots (Json.arr vs) = some (any (λ v. is_text v "..") (items vs))
has_dots (Json.obj fs) = some (Dict.has (get_or (as_dict (Json.obj fs)) []) "..")
has_dots _ = none

either : Option Bool → Option Bool → Option Bool
either none b = none
either (some true) b = some true
either (some false) b = b

-- the rest of the installation, once the timer file is written or its writing has raised
timer_written : Host → Text → Text → Option Text → Executed
unfolding exec_systemctl exec_daemon_reload
timer_written h service timer (some e) =
    (install service (basename service) ∷ install timer (basename timer) ∷ [], fail e)
timer_written h service timer none =
    let enabled = exec_systemctl h "enable" (name (basename timer)) in
    (
      install service (basename service) ∷ install timer (basename timer) ∷ (exec_daemon_reload h).0
          ++ enabled.0,
      (enabled.1.0, codes "Installed\n" ++ enabled.1.1, enabled.1.2),
    )

-- the same for the service file, which is written first
service_written : Host → Text → Text → Option Text → Executed
unfolding timer_written
service_written h service timer (some e) = (install service (basename service) ∷ [], fail e)
service_written h service timer none =
    timer_written h service timer (h.install timer (basename timer))

installed : Host → Text → Text → Executed
unfolding service_written
installed h service timer = service_written h service timer (h.install service (basename service))

install_files : Host → Option String → Option String → Option Executed
unfolding installed
install_files h (some service) (some timer) =
    if not (h.is_file (codes service))
    then some ([], fail (codes "Service file not found"))
    else if not (h.is_file (codes timer))
    then some ([], fail (codes "Timer file not found"))
    else some (installed h (codes service) (codes timer))
install_files h _ _ = none

after_dots : Host → Json → Json → Option Bool → Option Executed
unfolding install_files
after_dots h service timer none = none
after_dots h service timer (some true) = some ([], fail (codes "Path traversal rejected"))
after_dots h service timer (some false) = install_files h (as_text service) (as_text timer)

-- `_exec_install_timer`; `none` is the TypeError that `in` or `os.path.join` raises on a file name
-- that is no text
unfoldable pub exec_install_timer : Host → Json → Json → Option Executed
unfolding either after_dots
exec_install_timer h service timer =
    after_dots h service timer (either (has_dots service) (has_dots timer))
