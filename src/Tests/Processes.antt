-- ===== src/Tests/Processes.antt =====
-- Daemons that start, stop and clean up.
use merge_ready.Prelude.{
  ℕ, zero, suc, Text, codes, eqb, Bool, true, false, none, some, [], ◌∷◌, ◌++◌, ◌≡◌, ◌≤◌, ◌↔◌, refl,
  arith, length, Member, parse_unsigned, digits, trim_start, trim_end, is_blank, whitespace_len,
  is_utf8,
}
use merge_ready.Daemon.Files.{Files, write_file, socket_path, pid_path, is_old_pid_file}
use merge_ready.Daemon.Pid
use merge_ready.Daemon.Pid.{
  Signalled, delivered, no_such_process, Poll, is_alive, to_pid, wait_until_gone,
}
use merge_ready.Daemon.Listener.{TryBind, bound, in_use, Startup, bind, bind_with_retry}
use merge_ready.Daemon.Listener.OneDaemon.{Daemons, Step, here, next, started, one_daemon}
use merge_ready.Daemon.Lifecycle.{Stop, stop, get_pid}
use merge_ready.Daemon.Lifecycle.Stopped.{seen_gone, stop_lem}
use merge_ready.Daemon.Command.{Child, line_read, exited, exit_code, launch}
use merge_ready.Daemon.Command.ExitCodes.{IsUp, launch_lem}
use merge_ready.Daemon.Restart.{OldDaemon, old_socket, cleanup_old_versions}
use merge_ready.Daemon.Restart.Cleanup.{cleanup_old_versions_lem}

abbrev version : Text
version = codes "1.0.0"

abbrev no_files : Files
no_files name = none

-- Every process is alive, or none is.
abbrev all_alive : ℕ → Signalled
all_alive p = delivered

abbrev all_gone : ℕ → Signalled
all_gone p = no_such_process

-- The address is in use at the first attempt.
abbrev second_try : ℕ → TryBind
second_try i = elim i [ zero ↦ in_use | suc k ↦ bound ]

abbrev startup : Startup
startup = record {
  own_pid = 42;
  lock_opens = true;
  locks = true;
  test_kill = all_gone;
  try_bind = second_try;
  mode_set = true;
}

-- A daemon that has started.
abbrev one_started : Daemons
one_started = record { files = (bind startup version no_files).1; running = 42 ∷ [] }

first_start : Step version (record { files = no_files; running = [] }) one_started
unfolding bind bind_with_retry Pid.read write_file eqb pid_path
first_start = started (record { files = no_files; running = [] }) startup tt (omega arith) refl

one_daemon_example :
    (length one_started.running ≤ 1)
    × ((p : ℕ)
        → one_started.running ≡ p ∷ []
        → Pid.read (pid_path version) one_started.files ≡ some p)
one_daemon_example = one_daemon version no_files (next here first_start)

abbrev recorded : Files
recorded = write_file (pid_path version) (codes "42") no_files

-- The daemon answers a stop request and ends at the second round.
abbrev stopping : Stop
stopping = record {
  test_kill = all_alive;
  answered = true;
  test_kill_later = all_alive;
  polls =
      record { test_kill = all_alive; at_deadline = false }
      ∷ record { test_kill = all_gone; at_deadline = false }
      ∷ [];
  kill = all_alive;
  polls_later = [];
}

recorded_pid : get_pid all_alive version recorded ≡ some 42
unfolding get_pid Pid.read write_file eqb pid_path is_utf8 trim_start trim_end is_blank
    whitespace_len parse_unsigned digits is_alive to_pid
recorded_pid = refl

stopped : (stop stopping version recorded).0 ≡ true
unfolding stop get_pid Pid.read write_file eqb pid_path is_utf8 trim_start trim_end is_blank
    whitespace_len parse_unsigned digits is_alive to_pid wait_until_gone
stopped = refl

stop_lem_example :
    (seen_gone 42 stopping.polls ≡ true)
    × ((stop stopping version recorded).1 (pid_path version) ≡ none)
stop_lem_example = stop_lem stopping version recorded 42 recorded_pid stopped

-- The inner process says that it is ready.
abbrev up : Child
up = record {
  spawn_error = none;
  event = line_read (some (codes "ready" ++ 10 ∷ [])) (exited none);
  stderr = [];
}

launch_lem_example :
    (exit_code (launch true up 2).0 ≤ 255)
    × ((exit_code (launch true up 2).0 ≡ 0) ↔ ((◌≡◌ {A = Bool} true true) × IsUp up))
launch_lem_example = launch_lem true up 2

abbrev old_name : Text
old_name = codes "daemon-0.9.0.pid"

abbrev nothing_runs : Text → OldDaemon
nothing_runs name = record { test_kill = all_gone; polls = [] }

cleanup_old_versions_lem_example :
    ((n : Text)
      → Member n (old_name ∷ pid_path version ∷ [])
      → is_old_pid_file version n ≡ true
      → (cleanup_old_versions nothing_runs version (old_name ∷ pid_path version ∷ []) recorded n
          ≡ none)
        × (cleanup_old_versions nothing_runs version
              (old_name ∷ pid_path version ∷ [])
              recorded
              (old_socket n)
            ≡ none))
    × ((cleanup_old_versions nothing_runs version
            (old_name ∷ pid_path version ∷ [])
            recorded
            (pid_path version)
          ≡ recorded (pid_path version))
        × (cleanup_old_versions nothing_runs version
              (old_name ∷ pid_path version ∷ [])
              recorded
              (socket_path version)
            ≡ recorded (socket_path version)))
cleanup_old_versions_lem_example =
    cleanup_old_versions_lem nothing_runs version (old_name ∷ pid_path version ∷ []) recorded
