-- ===== src/Evaluation/Logger/Rotation.antt =====
-- src/contexts/evaluation/infrastructure/logger.rs: the writer of the log, which rotates its file.
-- The log's files are known by their number: 0 is the active file, and `k` the backup `k`.
pub mod Shift
pub mod Represented
pub mod AbstractLog
pub mod Faults
use merge_ready.Prelude.{
  ℕ, zero, suc, ◌+◌, ◌-◌, Text, Bool, true, false, ◌||◌, Option, none, some, List, [], ◌∷◌, ◌++◌,
  ◌==◌, ltb, if◌then◌else◌, is_empty, length, take, saturating_add,
}
use merge_ready.Evaluation.Logger.{LogRotationPolicy}

abbrev pub LogFiles : Type 0
LogFiles = ℕ → Option Text

unfoldable pub put : ℕ → Option Text → LogFiles → LogFiles
put i content fs k = if k == i then content else fs k

-- The result of a file operation, `false` for an error, and the files after it.
abbrev pub Done : Type 0
Done = Bool × LogFiles

-- Which files the system refuses to remove or to rename.
module _ (refuses : ℕ → Bool) where
  -- `remove_if_exists`
  unfoldable pub remove_if_exists : ℕ → LogFiles → Done
  remove_if_exists i fs = elim (fs i) [
    | none ↦ (true, fs)
    | some _ ↦ if refuses i then (false, fs) else (true, put i none fs)
  ]

  -- `std::fs::rename` of a file that there is
  unfoldable pub rename : ℕ → ℕ → Text → LogFiles → Done
  rename from to content fs =
      if refuses from || refuses to
      then (false, fs)
      else (true, put from none (put to (some content) fs))

  -- `rename_if_exists`
  unfoldable pub rename_if_exists : ℕ → ℕ → LogFiles → Done
  unfolding rename
  rename_if_exists from to fs = elim (fs from) [
    | none ↦ (true, fs)
    | some content ↦ rename from to content fs
  ]

  -- The loop `for index in (1..max_backups).rev()`, from `index` down to 1.
  unfoldable pub shift : ℕ → LogFiles → Done
  shift zero fs = (true, fs)
  shift (suc k) fs =
      let (done, gs) = rename_if_exists (suc k) (suc (suc k)) fs in
      elim done [ true ↦ shift k gs | false ↦ (false, gs) ]

  retire_active : Option Text → LogFiles → Done
  unfolding rename remove_if_exists
  retire_active none fs = (true, fs)
  retire_active (some []) fs = remove_if_exists 0 fs
  retire_active (some (c ∷ s)) fs = rename 0 1 (c ∷ s) fs

  after_shift : Done → Done
  unfolding retire_active
  after_shift (false, fs) = (false, fs)
  after_shift (true, fs) = retire_active (fs 0) fs

  after_removal : ℕ → Done → Done
  unfolding after_shift
  after_removal max_backups (false, fs) = (false, fs)
  after_removal max_backups (true, fs) = after_shift (shift (max_backups - 1) fs)

  unfoldable pub rotate_files : ℕ → LogFiles → Done
  unfolding after_removal remove_if_exists
  rotate_files max_backups fs = after_removal max_backups (remove_if_exists max_backups fs)

pub record RotatingLogWriter : Type 0 where
  pub is_open : Bool
  pub current_size : ℕ
  pub policy : LogRotationPolicy

-- How the system answers: which files it refuses to move, whether it opens the active file, and how
-- many bytes a write takes.
pub record Answers : Type 0 where
  pub refuses : ℕ → Bool
  pub opens : Bool
  pub takes : Option ℕ

create : Option Text → LogFiles → LogFiles
create none fs = put 0 (some []) fs
create (some _) fs = fs

-- `open_active_log`
unfoldable pub open_active_log : Bool → LogFiles → Done
unfolding create
open_active_log opens fs = if opens then (true, create (fs 0) fs) else (false, fs)

-- The writer and its files.
pub record Log : Type 0 where
  pub writer : RotatingLogWriter
  pub files : LogFiles

abbrev pub with_writer : LogRotationPolicy → Bool → ℕ → LogFiles → Log
with_writer policy is_open size fs = record {
  writer = record { is_open = is_open; current_size = size; policy = policy };
  files = fs;
}

opened : Log → Done → Bool × Log
opened s (false, fs) = (false, with_writer s.writer.policy false s.writer.current_size fs)
opened s (true, fs) = (true, with_writer s.writer.policy true 0 fs)

moved : Answers → Log → Done → Bool × Log
unfolding opened open_active_log
moved io s (false, fs) = (false, with_writer s.writer.policy false s.writer.current_size fs)
moved io s (true, fs) = opened s (open_active_log io.opens fs)

-- `RotatingLogWriter::rotate`: the file is given up first, and taken again at the end.
unfoldable pub rotate : Answers → Log → Bool × Log
unfolding moved
rotate io s = moved io s (rotate_files io.refuses s.writer.policy.max_backups s.files)

abbrev content_of : Option Text → Text
content_of none = []
content_of (some t) = t

abbrev pub append_active : Text → LogFiles → LogFiles
append_active t fs = put 0 (some (content_of (fs 0) ++ t)) fs

-- The rotation after a write, whose result then counts.
settled : ℕ → Bool × Log → Option ℕ × Log
settled n (false, s) = (none, s)
settled n (true, s) = (some n, s)

written : Answers → Text → Log → Option ℕ × Log
unfolding settled
written io part s =
    let size = saturating_add s.writer.current_size (length part) in
    let s' = with_writer s.writer.policy s.writer.is_open size (append_active part s.files) in
    if ltb s.writer.policy.max_bytes size
    then settled (length part) (rotate io s')
    else (some (length part), s')

pub to_file : Answers → Text → Option ℕ → Log → Option ℕ × Log
unfolding written
to_file io buf none s = (none, s)
to_file io buf (some n) s = if s.writer.is_open then written io (take n buf) s else (none, s)

after_rotation : Answers → Text → Bool × Log → Option ℕ × Log
unfolding to_file
after_rotation io buf (false, s) = (none, s)
after_rotation io buf (true, s) = to_file io buf io.takes s

-- `write`: the number of bytes written, or `none` for an error.
unfoldable pub write : Answers → Text → Log → Option ℕ × Log
unfolding after_rotation
write io [] s = (some 0, s)
write io (c ∷ buf) s =
    let incoming = saturating_add s.writer.current_size (length (c ∷ buf)) in
    after_rotation io (c ∷ buf)
      (if ltb s.writer.policy.max_bytes incoming then rotate io s else (true, s))

size_of : Option Text → ℕ
size_of none = 0
size_of (some t) = length t

is_over : ℕ → Option Text → Bool
is_over max_bytes none = false
is_over max_bytes (some t) = ltb max_bytes (length t)

open_with : LogRotationPolicy → ℕ → Done → Option Log
open_with policy size (false, fs) = none
open_with policy size (true, fs) = some (with_writer policy true size fs)

open_rotated : Answers → LogRotationPolicy → Done → Option Log
unfolding size_of open_with open_active_log
open_rotated io policy (false, fs) = none
open_rotated io policy (true, fs) = open_with policy (size_of (fs 0)) (open_active_log io.opens fs)

-- `RotatingLogWriter::open`: a file that is over its limit is rotated first.
unfoldable pub open_log : Answers → LogRotationPolicy → LogFiles → Option Log
unfolding is_over open_rotated
open_log io policy fs = open_rotated io policy (
    if is_over policy.max_bytes (fs 0)
    then rotate_files io.refuses policy.max_backups fs
    else (true, fs))
