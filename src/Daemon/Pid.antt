-- ===== src/Daemon/Pid.antt =====
-- src/contexts/daemon/infrastructure/pid.rs: the file with the daemon's process number, and what
-- is asked of that process.
pub mod RoundTrip
use merge_ready.Prelude.{
  ℕ, Text, Bool, true, false, Option, none, some, List, [], ◌∷◌, ◌==◌, leb, if◌then◌else◌, decimal,
  parse_unsigned, trim, is_utf8, u32_max,
}
use merge_ready.Daemon.Files.{Files, write_file, remove_file}

unfoldable pub write : ℕ → Text → Files → Files
write pid path fs = write_file path (decimal pid) fs

parse_pid : Option Text → Option ℕ
parse_pid none = none
parse_pid (some s) = if is_utf8 s then parse_unsigned u32_max (trim s) else none

unfoldable pub read : Text → Files → Option ℕ
unfolding parse_pid
read path fs = parse_pid (fs path)

unfoldable pub remove : Text → Files → Files
remove path fs = remove_file path fs

abbrev pub i32_max : ℕ
i32_max = 2147483647

-- `i32::try_from` and `Pid::from_raw`, which takes no 0.
unfoldable pub to_pid : ℕ → Option ℕ
to_pid pid = if leb pid i32_max then if pid == 0 then none else some pid else none

-- How the system answers a signal to a process.
pub data Signalled : Type 0 where
  delivered not_permitted no_such_process : Signalled

abbrev pub answers_probe : Signalled → Bool
answers_probe delivered = true
answers_probe not_permitted = true
answers_probe no_such_process = false

-- `is_alive`; `test_kill` is the answer to the null signal.
unfoldable pub is_alive : (ℕ → Signalled) → ℕ → Bool
is_alive test_kill pid = elim (to_pid pid) [ none ↦ false | some p ↦ answers_probe (test_kill p) ]

abbrev pub is_delivered : Signalled → Bool
is_delivered delivered = true
is_delivered not_permitted = false
is_delivered no_such_process = false

-- `terminate`; `kill` is the answer to SIGTERM.
unfoldable pub terminate : (ℕ → Signalled) → ℕ → Bool
terminate kill pid = elim (to_pid pid) [ none ↦ false | some p ↦ is_delivered (kill p) ]

-- One round of `wait_until_gone`: what the process answers, and whether the deadline has come.
pub record Poll : Type 0 where
  pub test_kill : ℕ → Signalled
  pub at_deadline : Bool

-- `wait_until_gone` over the rounds up to the deadline, at which the list ends at the latest.
unfoldable pub wait_until_gone : ℕ → Text → List Poll → Files → Bool × Files
wait_until_gone pid path [] fs = (false, fs)
wait_until_gone pid path (p ∷ polls) fs =
    let more = wait_until_gone pid path polls fs in
    if is_alive p.test_kill pid
    then if p.at_deadline then (false, fs) else more
    else (true, remove path fs)
