-- ===== src/Daemon/Server/Clean.antt =====
-- The files of a daemon that has cleaned up, and the events of a run in which no other starts.
use merge_ready.Prelude.{◌≡◌, Text, false, none, arith}
use merge_ready.Daemon.Files.{Files, remove_file, socket_path, pid_path}
use merge_ready.Daemon.Files.Names.{get-remove_self}
use merge_ready.Daemon.Pid
use merge_ready.Daemon.Listener.{cleanup}
use merge_ready.Daemon.Server.{
  Server, Accept, ServerEvent, polled, served, slept, scheduler_ticked, fetched, watcher_ticked,
  signalled, joined, started_elsewhere, removed_elsewhere, poll, accept,
}

-- There are no files of a daemon.
abbrev pub IsClean : Text → Files → Type 0
IsClean version fs = (fs (socket_path version) ≡ none) × (fs (pid_path version) ≡ none)

pub cleanup-IsClean : (version : Text) (fs : Files) → IsClean version (cleanup version fs)
unfolding cleanup Pid.remove remove_file
cleanup-IsClean version fs = (
  ground (arith, get-remove_self (socket_path version) fs),
  ground (arith, get-remove_self (pid_path version) fs),
)

pub remove_file-IsClean :
    (version name : Text) (fs : Files) → IsClean version fs → IsClean version (remove_file name fs)
unfolding remove_file
remove_file-IsClean version name fs c = (ground (arith, c.0), ground (arith, c.1))

-- No other daemon starts.
abbrev pub IsAlone : ServerEvent → Type 0
IsAlone (started_elsewhere w) = ⊥
IsAlone (removed_elsewhere name) = Unit
IsAlone (polled a) = Unit
IsAlone (served world stream) = Unit
IsAlone slept = Unit
IsAlone (scheduler_ticked now now_wall) = Unit
IsAlone (fetched event) = Unit
IsAlone watcher_ticked = Unit
IsAlone signalled = Unit
IsAlone joined = Unit

pub poll_awake :
    (a : Accept) (s : Server) → s.exits ≡ 0 → s.cancelled ≡ false → poll a s ≡ accept a s
unfolding poll
poll_awake a s e c = ground arith
