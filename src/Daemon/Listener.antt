-- ===== src/Daemon/Listener.antt =====
-- src/contexts/daemon/infrastructure/socket_listener.rs: how a new daemon takes the socket, and
-- src/contexts/daemon/infrastructure/restart.rs: how it gives its files up (`cleanup`).
pub mod Exclusion
pub mod OneDaemon
use merge_ready.Prelude.{
  ℕ, zero, suc, ◌+◌, Text, Bool, true, false, Option, none, some, [], if◌then◌else◌, Result, ok,
  err,
}
use merge_ready.Daemon.Files.{Files, write_file, remove_file, socket_path, pid_path, lock_path}
use merge_ready.Daemon.Pid
use merge_ready.Daemon.Pid.{Signalled, is_alive}

pub data DaemonError : Type 0 where
  already_running failure : DaemonError

-- What one attempt to bind the socket gives.
pub data TryBind : Type 0 where
  bound in_use refused : TryBind

-- The loop of `bind_with_retry` from attempt `i` on, with `left` retries: the result, and the
-- number of attempts made.
unfoldable pub bind_loop : (ℕ → TryBind) → ℕ → ℕ → Result DaemonError (Unit {0}) × ℕ
bind_loop try_bind zero i = elim (try_bind i) [
  | bound ↦ (ok tt, i + 1)
  | in_use ↦ (err already_running, i + 1)
  | refused ↦ (err failure, i + 1)
]
bind_loop try_bind (suc left) i = elim (try_bind i) [
  | bound ↦ (ok tt, i + 1)
  | in_use ↦ bind_loop try_bind left (i + 1)
  | refused ↦ (err failure, i + 1)
]

unfoldable pub bind_with_retry : (ℕ → TryBind) → ℕ → Result DaemonError (Unit {0}) × ℕ
unfolding bind_loop
bind_with_retry try_bind retry_max = bind_loop try_bind retry_max 0

abbrev pub bind_retry_max : ℕ
bind_retry_max = 10

-- What a starting daemon meets: whether the lock file opens and locks, which processes answer, how
-- the attempts to bind end, and whether the socket's mode can be set.
pub record Startup : Type 0 where
  pub own_pid : ℕ
  pub lock_opens : Bool
  pub locks : Bool
  pub test_kill : ℕ → Signalled
  pub try_bind : ℕ → TryBind
  pub mode_set : Bool

-- `OpenOptions::create(true)`, which leaves a file that there is.
pub create_lock : Files → Files
create_lock fs = elim (fs lock_path) [ none ↦ write_file lock_path [] fs | some _ ↦ fs ]

-- What is left of the files of an earlier daemon; `none` where that daemon runs.
unfoldable pub claim : (ℕ → Signalled) → Text → Files → Option Files
claim test_kill version fs = elim (Pid.read (pid_path version) fs) [
  | none ↦ some (remove_file (socket_path version) fs)
  | some p ↦
      if is_alive test_kill p
      then none
      else some (remove_file (socket_path version) (Pid.remove (pid_path version) fs))
]

-- After the socket is bound.
unfoldable pub publish : Startup → Text → Files → Result DaemonError (Unit {0}) × Files
publish w version fs =
    let with_socket = write_file (socket_path version) [] fs in
    if w.mode_set
    then (ok tt, Pid.write w.own_pid (pid_path version) with_socket)
    else (err failure, remove_file (socket_path version) with_socket)

bound_as :
    Startup → Text → Files → Result DaemonError (Unit {0}) → Result DaemonError (Unit {0}) × Files
unfolding publish
bound_as w version fs (ok _) = publish w version fs
bound_as w version fs (err e) = (err e, fs)

listen : Startup → Text → Files → Option Files → Result DaemonError (Unit {0}) × Files
unfolding bound_as bind_with_retry
listen w version before none = (err already_running, before)
listen w version before (some fs) =
    bound_as w version fs (bind_with_retry w.try_bind bind_retry_max).0

-- `bind`
unfoldable pub bind : Startup → Text → Files → Result DaemonError (Unit {0}) × Files
unfolding create_lock listen claim
bind w version fs =
    let locked = create_lock fs in
    if w.lock_opens
    then if w.locks
      then listen w version locked (claim w.test_kill version locked)
      else (err failure, locked)
    else (err failure, fs)

-- `restart::cleanup`
unfoldable pub cleanup : Text → Files → Files
cleanup version fs = Pid.remove (pid_path version) (remove_file (socket_path version) fs)
