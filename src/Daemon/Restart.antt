-- ===== src/Daemon/Restart.antt =====
-- src/contexts/daemon/infrastructure/restart.rs: a new daemon ends those of other versions and
-- removes their files.
pub mod Cleanup
use merge_ready.Prelude.{
  Text, codes, Bool, true, false, Option, none, some, List, [], ◌∷◌, ◌++◌, ℕ, if◌then◌else◌,
}
use merge_ready.Daemon.Files.{Files, remove_file, file_stem, old_daemon_pid_files}
use merge_ready.Daemon.Pid
use merge_ready.Daemon.Pid.{Signalled, Poll, is_alive, wait_until_gone}

-- What the clean-up of one version meets: the processes, and the rounds of the wait for its end,
-- after it has been asked to stop.
pub record OldDaemon : Type 0 where
  pub test_kill : ℕ → Signalled
  pub polls : List Poll

abbrev pub old_socket : Text → Text
old_socket name = file_stem name ++ codes ".sock"

abbrev remove_both : Text → Files → Files
remove_both name fs = remove_file name (remove_file (old_socket name) fs)

ended : OldDaemon → Text → Files → Option ℕ → Files
ended w name fs none = remove_both name fs
ended w name fs (some p) =
    if is_alive w.test_kill p
    then remove_both name (wait_until_gone p name w.polls fs).1
    else remove_both name fs

unfoldable pub cleanup_one : OldDaemon → Text → Files → Files
unfolding ended
cleanup_one w name fs = ended w name fs (Pid.read name fs)

cleanup_all : (Text → OldDaemon) → List Text → Files → Files
cleanup_all world [] fs = fs
cleanup_all world (n ∷ names) fs = cleanup_all world names (cleanup_one (world n) n fs)

-- `cleanup_old_versions`, of the names in the base directory, with what each meets.
unfoldable pub cleanup_old_versions : (Text → OldDaemon) → Text → List Text → Files → Files
unfolding cleanup_all
cleanup_old_versions world version names fs =
    cleanup_all world (old_daemon_pid_files version names) fs
