-- ===== src/Rootd/Exec/Timers.antt =====
-- Where `install_timer` writes.
use ai_ops_runner.Base.{
  Bool-cases, All, String, ◌≡◌, inl, inr, Bool, true, false, Option, none, some, List, [], arith,
}
use ai_ops_runner.Base.Json.{Json, as_text}
use ai_ops_runner.Base.Text.{Text, codes, Lacks, Lacks-basename}
use ai_ops_runner.Rootd.Exec.{
  Host, Effect, process, write, install, Executed, exec_systemctl, exec_daemon_reload,
  timer_written, service_written, installed, install_files, has_dots, after_dots,
  exec_install_timer,
}

-- The target of an installation is a name in /etc/systemd/system: one path component.
abbrev pub IsConfined : Effect → Type 0
IsConfined (process args) = Unit {0}
IsConfined (write path content) = ⊥
IsConfined (install source target) = Lacks b'/' target

abbrev pub WritesConfined : Option Executed → Type 0
WritesConfined none = Unit {0}
WritesConfined (some e) = All IsConfined e.0

timer_written-WritesConfined :
    (h : Host) (service timer : Text) (r : Option Text)
    → WritesConfined (some (timer_written h service timer r))
unfolding timer_written exec_systemctl exec_daemon_reload
timer_written-WritesConfined h service timer none =
    (Lacks-basename service, (Lacks-basename timer, (tt, (tt, tt))))
timer_written-WritesConfined h service timer (some e) =
    (Lacks-basename service, (Lacks-basename timer, tt))

service_written-WritesConfined :
    (h : Host) (service timer : Text) (r : Option Text)
    → WritesConfined (some (service_written h service timer r))
unfolding service_written
service_written-WritesConfined h service timer none = timer_written-WritesConfined h service timer _
service_written-WritesConfined h service timer (some e) = (Lacks-basename service, tt)

install_files-WritesConfined :
    (h : Host) (service timer : Option String) → WritesConfined (install_files h service timer)
unfolding install_files installed
install_files-WritesConfined h (some s) (some t) = elim (Bool-cases (h.is_file (codes s))) [
  | inr e ↦ rw e tt
  | inl e ↦ elim (Bool-cases (h.is_file (codes t))) [
    | inr e' ↦ rw (e, e') tt
    | inl e' ↦ rw (e, e') (service_written-WritesConfined h (codes s) (codes t) _)
  ]
]
install_files-WritesConfined h none _ = tt
install_files-WritesConfined h (some s) none = tt

abbrev pub effects_of : Option Executed → List Effect
effects_of none = []
effects_of (some e) = e.0

after_dots-WritesConfined :
    (h : Host) (service timer : Json) (dots : Option Bool)
    → WritesConfined (after_dots h service timer dots)
unfolding after_dots
after_dots-WritesConfined h service timer none = tt
after_dots-WritesConfined h service timer (some true) = tt
after_dots-WritesConfined h service timer (some false) =
    install_files-WritesConfined h (as_text service) (as_text timer)

-- Whatever the file names of the request, `install_timer` writes only files that stand directly in
-- the systemd directory; a service file name with `..` has no effect at all.
pub exec_install_timer-WritesConfined :
    (h : Host) (service timer : Json)
    → WritesConfined (exec_install_timer h service timer)
      × (has_dots service ≡ some true → effects_of (exec_install_timer h service timer) ≡ [])
unfolding exec_install_timer after_dots
exec_install_timer-WritesConfined h service timer =
    (after_dots-WritesConfined h service timer _, λ e. ground (arith, e))
