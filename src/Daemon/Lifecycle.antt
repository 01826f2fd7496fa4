-- ===== src/Daemon/Lifecycle.antt =====
-- src/contexts/daemon/infrastructure/daemon_lifecycle.rs: how a command line stops the daemon and
-- asks for its process number.
pub mod Stopped
use merge_ready.Prelude.{
  ℕ, Text, Bool, true, false, Option, none, some, List, if◌then◌else◌, or_else,
}
use merge_ready.Daemon.Files.{Files, pid_path}
use merge_ready.Daemon.Pid
use merge_ready.Daemon.Pid.{Signalled, Poll, is_alive, terminate, wait_until_gone}

-- The process number in the pid file, if that process is alive.
live_pid : (ℕ → Signalled) → Option ℕ → Option ℕ
live_pid test_kill none = none
live_pid test_kill (some p) = if is_alive test_kill p then some p else none

-- `get_pid`
unfoldable pub get_pid : (ℕ → Signalled) → Text → Files → Option ℕ
unfolding live_pid
get_pid test_kill version fs = live_pid test_kill (Pid.read (pid_path version) fs)

-- What a stop meets, in the order in which it asks: the processes at first, whether the daemon
-- answers the stop request, the processes after that, the rounds of the first wait, how SIGTERM is
-- answered, and the rounds of the wait after it.
pub record Stop : Type 0 where
  pub test_kill : ℕ → Signalled
  pub answered : Bool
  pub test_kill_later : ℕ → Signalled
  pub polls : List Poll
  pub kill : ℕ → Signalled
  pub polls_later : List Poll

unfoldable pub terminate_and_wait : Stop → ℕ → Text → Files → Bool × Files
terminate_and_wait w p path fs =
    if terminate w.kill p then wait_until_gone p path w.polls_later fs else (false, fs)

waited : Stop → ℕ → Text → Bool × Files → Bool × Files
unfolding terminate_and_wait
waited w p path (true, fs) = (true, fs)
waited w p path (false, fs) = terminate_and_wait w p path fs

unfoldable pub wait_or_terminate : Stop → ℕ → Text → Files → Bool × Files
unfolding waited
wait_or_terminate w p path fs = waited w p path (wait_until_gone p path w.polls fs)

after_answer : Stop → Text → Files → Option ℕ → Bool × Files
unfolding wait_or_terminate
after_answer w path fs none = (true, fs)
after_answer w path fs (some p) = wait_or_terminate w p path fs

without_answer : Stop → Text → Files → Option ℕ → Bool × Files
unfolding terminate_and_wait
without_answer w path fs none = (false, fs)
without_answer w path fs (some p) =
    if is_alive w.test_kill_later p
    then terminate_and_wait w p path fs
    else (false, Pid.remove path fs)

-- `stop`
unfoldable pub stop : Stop → Text → Files → Bool × Files
unfolding after_answer without_answer
stop w version fs =
    let path = pid_path version in
    let running_pid = get_pid w.test_kill version fs in
    if w.answered
    then after_answer w path fs running_pid
    else without_answer w path fs (or_else running_pid (Pid.read path fs))
