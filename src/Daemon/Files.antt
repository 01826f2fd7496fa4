-- ===== src/Daemon/Files.antt =====
-- The files of the daemon's base directory, each by its name there, and the names that
-- src/contexts/daemon/infrastructure/paths.rs gives them.
pub mod Names
use merge_ready.Prelude.{
  ℕ, ◌+◌, ◌-◌, Text, codes, eqb, starts_with, Bool, true, false, not, ◌&&◌, Option, none, some,
  List, [], ◌∷◌, ◌++◌, ◌==◌, leb, if◌then◌else◌, filter, length, drop, decimal,
}

-- The content of each file that there is.
abbrev pub Files : Type 0
Files = Text → Option Text

-- `fs::write`
unfoldable pub write_file : Text → Text → Files → Files
write_file name content fs n = if eqb name n then some content else fs n

-- `fs::remove_file`, whose error the daemon ignores.
unfoldable pub remove_file : Text → Files → Files
remove_file name fs n = if eqb name n then none else fs n

abbrev socket_prefix : Text
socket_prefix = codes "daemon-"

unfoldable pub socket_path : Text → Text
socket_path version = socket_prefix ++ (version ++ codes ".sock")

unfoldable pub pid_path : Text → Text
pid_path version = socket_prefix ++ (version ++ codes ".pid")

abbrev pub lock_path : Text
lock_path = codes "daemon.lock"

-- `str::ends_with`
unfoldable pub ends_with : Text → Text → Bool
ends_with s suffix =
    leb (length suffix) (length s) && eqb (drop (length s - length suffix) s) suffix

-- Whether a name is that of a pid file of another version.
unfoldable pub is_old_pid_file : Text → Text → Bool
unfolding ends_with
is_old_pid_file version n =
    starts_with socket_prefix n && ends_with n (codes ".pid") && not (eqb n (pid_path version))

-- `old_daemon_pid_files`, of the names that `read_dir` gives.
unfoldable pub old_daemon_pid_files : Text → List Text → List Text
unfolding is_old_pid_file
old_daemon_pid_files version names = filter (is_old_pid_file version) names

-- What stands before the last dot of a name.
unfoldable pub before_last_dot : Text → Option Text
before_last_dot [] = none
before_last_dot (c ∷ s) = elim (before_last_dot s) [
  | some t ↦ some (c ∷ t)
  | none ↦ if c == b'.' then some [] else none
]

pub stem_of : Text → Option Text → Text
stem_of name none = name
stem_of name (some []) = name
stem_of name (some (c ∷ t)) = c ∷ t

-- `Path::file_stem`: a name whose only dot is its first character is its own stem.
unfoldable pub file_stem : Text → Text
unfolding stem_of before_last_dot
file_stem name = stem_of name (before_last_dot name)

-- `dir_name_for`
unfoldable pub dir_name_for : Option ℕ → Text
dir_name_for none = codes "merge-ready"
dir_name_for (some uid) = codes "merge-ready-" ++ decimal uid

-- `Paths::default`: the directory named by `MERGE_READY_BASE_DIR`, or else the one of the user in
-- the directory for temporary files, whose path `join` makes.
unfoldable pub default_base_dir : (Text → Text → Text) → Option Text → Text → Option ℕ → Text
unfolding dir_name_for
default_base_dir join none temp_dir uid = join temp_dir (dir_name_for uid)
default_base_dir join (some base) temp_dir uid = base
