-- ===== src/Daemon/Command.antt =====
-- src/contexts/daemon/interface/cli/daemon.rs: the commands `daemon start`, `stop` and `status`.
pub mod ExitCodes
use merge_ready.Prelude.{
  ℕ, zero, suc, Text, codes, eqb, Bool, true, false, Option, none, some, [], ◌∷◌, ◌++◌, leb,
  if◌then◌else◌, is_empty, decimal, ℤ, pos, negsuc, Result, ok, err,
}
use merge_ready.Daemon.Listener.{DaemonError}
use merge_ready.Daemon.Client.{DaemonStatus}

-- What `wait()` gives: an exit code, none for a process that a signal has ended, or an error.
pub data Waited : Type 0 where
  exited : Option ℤ → Waited
  wait_failed : Waited

pub data ExitInfo : Type 0 where
  success : ExitInfo
  failure : Option ℤ → ExitInfo
  wait_error : ExitInfo

-- `from_wait`: code 0 is success.
unfoldable pub from_wait : Waited → ExitInfo
from_wait (exited (some (pos zero))) = success
from_wait (exited (some (pos (suc n)))) = failure (some (pos (suc n)))
from_wait (exited (some (negsuc n))) = failure (some (negsuc n))
from_wait (exited none) = failure none
from_wait wait_failed = wait_error

pub data Exit : Type 0 where
  success failure : Exit
  code : ℕ → Exit

-- `From<Exit> for ExitCode`, by the number that the system sees.
unfoldable pub exit_code : Exit → ℕ
exit_code Exit.success = 0
exit_code Exit.failure = 1
exit_code (code c) = c

pub data StartResult : Type 0 where
  ready exe_not_found : StartResult
  spawn_failed : Text → StartResult
  early_exit : ExitInfo → Text → StartResult
  timeout : ℕ → StartResult

-- What the watch over the inner process meets first: a line of its output, or an error or the end
-- of that output, and then how it ends; its end; or the timeout.
pub data StartOutcome : Type 0 where
  line_read : Option Text → Waited → StartOutcome
  ended : Waited → StartOutcome
  timed_out : StartOutcome

-- How the inner process comes up: an error of `spawn`, or an event, with its text on stderr.
pub record Child : Type 0 where
  pub spawn_error : Option Text
  pub event : StartOutcome
  pub stderr : Text

supervise_event : StartOutcome → Text → ℕ → StartResult
supervise_event (line_read none waited) stderr secs = early_exit (from_wait waited) stderr
supervise_event (line_read (some line) waited) stderr secs =
    if eqb line (codes "ready" ++ 10 ∷ []) then ready else early_exit (from_wait waited) stderr
supervise_event (ended waited) stderr secs = early_exit (from_wait waited) stderr
supervise_event timed_out stderr secs = timeout secs

supervise_spawned : Option Text → StartOutcome → Text → ℕ → StartResult
unfolding supervise_event
supervise_spawned (some e) event stderr secs = spawn_failed e
supervise_spawned none event stderr secs = supervise_event event stderr secs

-- `supervise`, with a timeout of whole seconds
unfoldable pub supervise : Child → ℕ → StartResult
unfolding supervise_spawned
supervise child secs = supervise_spawned child.spawn_error child.event child.stderr secs

-- `u8::try_from`
abbrev as_u8 : ℤ → Option ℕ
as_u8 (pos n) = if leb n 255 then some n else none
as_u8 (negsuc n) = none

abbrev unwrap_or_one : Option ℕ → ℕ
unwrap_or_one none = 1
unwrap_or_one (some n) = n

abbrev code_or_one : Option ℤ → ℤ
code_or_one none = pos 1
code_or_one (some c) = c

unfoldable pub exit_of : ExitInfo → Exit
exit_of success = code 1
exit_of (failure c) = code (unwrap_or_one (as_u8 (code_or_one c)))
exit_of wait_error = Exit.failure

-- What a command prints.
pub record Printed : Type 0 where
  pub stdout : Text
  pub stderr : Text

abbrev pub line : Text → Text
line t = t ++ 10 ∷ []

abbrev pub on_stdout : Text → Printed
on_stdout t = record { stdout = t; stderr = [] }

abbrev pub on_stderr : Text → Printed
on_stderr t = record { stdout = []; stderr = t }

unfoldable pub interpret : StartResult → Exit × Printed
unfolding exit_of
interpret ready = (Exit.success, on_stdout (line (codes "daemon started")))
interpret exe_not_found =
    (Exit.failure, on_stderr (line (codes "merge-ready: failed to locate executable")))
interpret (spawn_failed e) =
    (Exit.failure, on_stderr (line (codes "merge-ready: failed to spawn daemon: " ++ e)))
interpret (early_exit exit stderr) = (exit_of exit, on_stderr stderr)
interpret (timeout secs) = (
  Exit.failure,
  on_stderr
      (line (codes "merge-ready: daemon did not start within " ++ (decimal secs ++ codes "s"))),
)

-- `launch`: whether the executable is found, and how its process comes up.
unfoldable pub launch : Bool → Child → ℕ → Exit × Printed
unfolding supervise interpret
launch exe_found child secs = interpret (if exe_found then supervise child secs else exe_not_found)

abbrev pub start_timeout_secs : ℕ
start_timeout_secs = 2

abbrev run_inner : Result DaemonError (Unit {0}) → Exit × Printed
run_inner (ok _) = (Exit.success, on_stdout [])
run_inner (err _) = (Exit.failure, on_stdout [])

-- `start`: the inner process runs the daemon, whose result is given; any other launches it.
unfoldable pub start : Bool → Result DaemonError (Unit {0}) → Bool → Child → Exit × Printed
unfolding launch
start is_inner served exe_found child =
    if is_inner then run_inner served else launch exe_found child start_timeout_secs

-- `stop`
unfoldable pub stop : Bool → Exit × Printed
stop stopped = (
  Exit.success,
  if stopped
      then on_stdout (line (codes "daemon stopped"))
      else on_stderr (line (codes "daemon is not running")),
)

abbrev pid_text : Option ℕ → Text
pid_text none = codes "-"
pid_text (some p) = decimal p

-- `format_status`; `format_duration` is that of the humantime package.
unfoldable pub format_status : (ℕ → Text) → DaemonStatus → Option ℕ → Text
format_status format_duration s pid =
    codes "running  pid="
    ++ (pid_text pid
        ++ (codes "  entries="
            ++ (decimal s.entries
                ++ (codes "  uptime="
                    ++ (format_duration s.uptime_secs ++ (codes "  version=" ++ s.version))))))

status_line : (ℕ → Text) → Option DaemonStatus → Option ℕ → Text
unfolding format_status
status_line format_duration none pid = codes "not running"
status_line format_duration (some s) pid = format_status format_duration s pid

-- `status`
unfoldable pub status : (ℕ → Text) → Option DaemonStatus → Option ℕ → Exit × Printed
unfolding status_line
status format_duration s pid = (Exit.success, on_stdout (line (status_line format_duration s pid)))
