-- ===== src/Evaluation/Logger/Rotation/Faults.antt =====
-- Rotations that fail, and rotations for a buffer that is longer than the limit.
use merge_ready.Prelude.{
  ℕ, zero, suc, ◌-◌, ◌≤◌, ◌<◌, ◌≡◌, ◌∙◌, refl, ap, inl, inr, Text, Bool, true, false, Option, none,
  some, [], ◌∷◌, ◌==◌, leb, ltb, if◌then◌else◌, length, take-all, saturating_add, u64_max,
  Bool-cases, arith,
}
use mathlib.Core.Path.{fun_ext}
use merge_ready.Evaluation.Logger.Rotation.{
  LogFiles, put, Done, remove_if_exists, rename_if_exists, shift, retire_active, after_shift,
  after_removal, rotate_files, create, Log, with_writer, moved, rotate, append_active, settled,
  written, to_file, after_rotation, write,
}
use merge_ready.Evaluation.Logger.Rotation.Shift.{rotated, rotate_files_lem}
use merge_ready.Evaluation.Logger.Rotation.Represented.{taking}

module _ (refuses : ℕ → Bool) where
  remove_keeps : (i : ℕ) (fs : LogFiles) → 0 < i → (remove_if_exists refuses i fs).1 0 ≡ fs 0
  unfolding remove_if_exists put
  remove_keeps i fs pos = ground arith

  rename_keeps :
      (i : ℕ) (fs : LogFiles) → (rename_if_exists refuses (suc i) (suc (suc i)) fs).1 0 ≡ fs 0
  unfolding rename_if_exists put
  rename_keeps i fs = ground arith

  shift_keeps : (k : ℕ) (fs : LogFiles) → (shift refuses k fs).1 0 ≡ fs 0
  unfolding shift
  shift_keeps zero fs = refl
  shift_keeps (suc k) fs = elim (Bool-cases (rename_if_exists refuses (suc k) (suc (suc k)) fs).0) [
    | inl done ↦
        rw (done, shift)
          (shift_keeps k (rename_if_exists refuses (suc k) (suc (suc k)) fs).1 ∙ rename_keeps k fs)
    | inr stuck ↦ rw (stuck, shift) (rename_keeps k fs)
  ]

  retire_failed :
      (active : Option Text) (fs : LogFiles)
      → (retire_active refuses active fs).0 ≡ false
      → (retire_active refuses active fs).1 0 ≡ fs 0
  unfolding retire_active put
  retire_failed none fs h = refl
  retire_failed (some []) fs h = ground arith
  retire_failed (some (c ∷ s)) fs h = ground arith

  after_shift_failed :
      (d : Done) → (after_shift refuses d).0 ≡ false → (after_shift refuses d).1 0 ≡ d.1 0
  unfolding after_shift
  after_shift_failed (false, fs) h = refl
  after_shift_failed (true, fs) h = retire_failed (fs 0) fs h

  after_removal_failed :
      (max_backups : ℕ) (d : Done)
      → (after_removal refuses max_backups d).0 ≡ false
      → (after_removal refuses max_backups d).1 0 ≡ d.1 0
  unfolding after_removal
  after_removal_failed max_backups (false, fs) h = refl
  after_removal_failed max_backups (true, fs) h =
      after_shift_failed (shift refuses (max_backups - 1) fs) h ∙ shift_keeps (max_backups - 1) fs

  -- A rotation that fails, whatever file the system refuses to move, leaves the active file as it
  -- is.
  pub rotate_files_failed :
      (max_backups : ℕ) (fs : LogFiles)
      → 0 < max_backups
      → (rotate_files refuses max_backups fs).0 ≡ false
      → (rotate_files refuses max_backups fs).1 0 ≡ fs 0
  unfolding rotate_files
  rotate_files_failed max_backups fs pos h =
      after_removal_failed max_backups (remove_if_exists refuses max_backups fs) h
      ∙ remove_keeps max_backups fs pos

-- The files after a rotation that succeeds, with the new active file.
abbrev renewed : ℕ → LogFiles → LogFiles
renewed max_backups fs m = if m == 0 then some [] else rotated max_backups fs m

rotate-renewed :
    (n : ℕ) (s : Log)
    → 0 < s.writer.policy.max_backups
    → rotate (taking n) s
      ≡ (true, with_writer s.writer.policy true 0 (renewed s.writer.policy.max_backups s.files))
unfolding rotate
rotate-renewed n s pos =
    let (done, at) = rotate_files_lem s.writer.policy.max_backups s.files pos in
    moved_as (rotate_files (λ i. false) s.writer.policy.max_backups s.files) done (fun_ext at)
  where
    moved_as :
        (d : Done)
        → d.0 ≡ true
        → d.1 ≡ rotated s.writer.policy.max_backups s.files
        → moved (taking n) s d
          ≡ (true, with_writer s.writer.policy true 0 (renewed s.writer.policy.max_backups s.files))
    moved_as (false, gs) done at = absurd (cc done)
    moved_as (true, gs) done at =
        let made : create none (rotated s.writer.policy.max_backups s.files)
            ≡ renewed s.writer.policy.max_backups s.files =
          unfold create put in fun_ext (λ m. refl) in
        ap (λ fs. (true, with_writer s.writer.policy true 0 fs))
          (ap (λ (fs : LogFiles). create (fs 0) fs) at ∙ made)

-- The files of a log whose active file is empty, after a buffer that is longer than the limit: two
-- rotations, of which the first one finds nothing to keep.
abbrev pub oversized : ℕ → Text → LogFiles → LogFiles
oversized max_backups buf fs m =
    if m == 0
    then some []
    else if m == 1
    then some buf
    else if m == 2
    then none
    else if leb m max_backups
    then fs (m - 2)
    else fs m

module _ (c : ℕ) (buf : Text) (s : Log) (is_open : s.writer.is_open ≡ true)
    (empty_active : s.files 0 ≡ some []) (long : s.writer.policy.max_bytes < length (c ∷ buf))
    (two_backups : 2 ≤ s.writer.policy.max_backups)
    (small : s.writer.policy.max_bytes < u64_max) where
  first_files : LogFiles
  first_files = renewed s.writer.policy.max_backups s.files

  full : LogFiles
  unfolding first_files
  full = append_active (c ∷ buf) first_files

  twice_files :
      (m : ℕ)
      → renewed s.writer.policy.max_backups full m
        ≡ oversized s.writer.policy.max_backups (c ∷ buf) s.files m
  unfolding full put
  twice_files m = rw empty_active (ground arith)

  -- The writer after the first rotation, and after the bytes are appended.
  emptied : Log
  unfolding first_files
  emptied = with_writer s.writer.policy true 0 first_files

  filled : Log
  unfolding full
  filled = with_writer s.writer.policy true (saturating_add 0 (length (c ∷ buf))) full

  over : (size : ℕ) → ltb s.writer.policy.max_bytes (saturating_add size (length (c ∷ buf))) ≡ true
  unfolding saturating_add
  over size = ground (arith, long, small)

  written_over :
      written (taking (length (c ∷ buf))) (c ∷ buf) emptied
      ≡ settled (length (c ∷ buf)) (rotate (taking (length (c ∷ buf))) filled)
  unfolding written emptied filled
  written_over = simp (over 0) refl

  write_twice : write (taking (length (c ∷ buf))) (c ∷ buf) s ≡ (
    some (length (c ∷ buf)),
    with_writer s.writer.policy true 0 (renewed s.writer.policy.max_backups full),
  )
  unfolding emptied filled first_files
  write_twice =
      let io = taking (length (c ∷ buf)) in
      let first : write io (c ∷ buf) s ≡ after_rotation io (c ∷ buf) (rotate io s) =
        unfold write in simp (over s.writer.current_size) refl in
      let second : after_rotation io (c ∷ buf) (true, emptied) ≡ written io (c ∷ buf) emptied =
        unfold after_rotation to_file in
        ap (λ t. written io t emptied) (take-all (length (c ∷ buf)) (c ∷ buf) (omega arith)) in
      first
      ∙ ap (after_rotation io (c ∷ buf)) (rotate-renewed (length (c ∷ buf)) s (omega arith))
      ∙ second
      ∙ written_over
      ∙ ap (settled (length (c ∷ buf))) (rotate-renewed (length (c ∷ buf)) filled (omega arith))
      ∙ (unfold settled in refl)

  -- A buffer that is longer than the limit, written to an empty log, is kept as the backup 1; the
  -- backup 2 is then missing, and the two oldest backups are dropped.
  pub write-oversized :
      ((write (taking (length (c ∷ buf))) (c ∷ buf) s).0 ≡ some (length (c ∷ buf)))
      × ((m : ℕ)
          → (write (taking (length (c ∷ buf))) (c ∷ buf) s).1.files m
            ≡ oversized s.writer.policy.max_backups (c ∷ buf) s.files m)
  write-oversized =
      (ap (λ r. r.0) write_twice, λ m. ap (λ r. r.1.files m) write_twice ∙ twice_files m)
