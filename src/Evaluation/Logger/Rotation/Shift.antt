-- ===== src/Evaluation/Logger/Rotation/Shift.antt =====
-- `rotate_files`: each backup goes up by one, the oldest is dropped, and the active file becomes
-- the backup 1.
use merge_ready.Prelude.{
  ℕ, zero, suc, ◌-◌, ◌<◌, ◌≡◌, ◌∙◌, refl, ap, inl, inr, Text, Bool, true, false, Option, none, some,
  [], ◌∷◌, ◌==◌, leb, if◌then◌else◌, Option-cases, arith,
}
use mathlib.Core.Path.{fun_ext}
use merge_ready.Evaluation.Logger.Rotation.{
  LogFiles, put, Done, remove_if_exists, rename_if_exists, shift, retire_active, after_shift,
  after_removal, rotate_files,
}

-- The system refuses nothing.
abbrev pub willing : ℕ → Bool
willing i = false

abbrev renamed : ℕ → LogFiles → LogFiles
renamed k fs m = if m == k then none else if m == suc k then fs k else fs m

rename_if_exists_lem :
    (k : ℕ) (fs : LogFiles)
    → fs (suc k) ≡ none
    → ((rename_if_exists willing k (suc k) fs).0 ≡ true)
      × ((m : ℕ) → (rename_if_exists willing k (suc k) fs).1 m ≡ renamed k fs m)
unfolding rename_if_exists put
rename_if_exists_lem k fs free = elim (Option-cases (fs k)) [
  | inl missing ↦
      (rw (missing, rename_if_exists) refl, λ m. rw (missing, rename_if_exists) (ground arith))
  | inr (content, there) ↦
      (rw (there, rename_if_exists) refl, λ m. rw (there, rename_if_exists) (ground arith))
]

abbrev shifted : ℕ → LogFiles → LogFiles
shifted k fs m =
    if m == 0 then fs 0 else if m == 1 then none else if leb m (suc k) then fs (m - 1) else fs m

shifted-renamed :
    (k : ℕ) (fs : LogFiles) (m : ℕ)
    → fs (suc (suc k)) ≡ none
    → shifted k (renamed (suc k) fs) m ≡ shifted (suc k) fs m
shifted-renamed k fs m free = ground arith

shift_lem :
    (k : ℕ) (fs : LogFiles)
    → fs (suc k) ≡ none
    → ((shift willing k fs).0 ≡ true) × ((m : ℕ) → (shift willing k fs).1 m ≡ shifted k fs m)
unfolding shift
shift_lem zero fs free = (refl, λ m. ground arith)
shift_lem (suc k) fs free =
    let (moved, at) = rename_if_exists_lem (suc k) fs free in
    let gs : LogFiles = (rename_if_exists willing (suc k) (suc (suc k)) fs).1 in
    let (done, later) = shift_lem k gs (at (suc k) ∙ ground arith) in
    rw (moved, shift)
      (
        done,
        λ m.
            later m
            ∙ ap (λ (t : LogFiles). shifted k t m) (fun_ext at)
            ∙ shifted-renamed k fs m free,
      )

-- What an active file becomes as a backup: an empty one is none.
abbrev pub kept : Option Text → Option Text
kept none = none
kept (some []) = none
kept (some (c ∷ s)) = some (c ∷ s)

abbrev pub rotated : ℕ → LogFiles → LogFiles
rotated max_backups fs m =
    if m == 0
    then none
    else if m == 1
    then kept (fs 0)
    else if leb m max_backups
    then fs (m - 1)
    else fs m

remove_if_exists_lem :
    (i : ℕ) (fs : LogFiles)
    → ((remove_if_exists willing i fs).0 ≡ true)
      × ((m : ℕ) → (remove_if_exists willing i fs).1 m ≡ (if m == i then none else fs m))
unfolding remove_if_exists put
remove_if_exists_lem i fs = elim (Option-cases (fs i)) [
  | inl missing ↦
      (rw (missing, remove_if_exists) refl, λ m. rw (missing, remove_if_exists) (ground arith))
  | inr (content, there) ↦
      (rw (there, remove_if_exists) refl, λ m. rw (there, remove_if_exists) (ground arith))
]

abbrev retired : Option Text → LogFiles → LogFiles
retired active fs m = if m == 0 then none else if m == 1 then kept active else fs m

retire_active_lem :
    (active : Option Text) (fs : LogFiles)
    → fs 0 ≡ active
    → fs 1 ≡ none
    → ((retire_active willing active fs).0 ≡ true)
      × ((m : ℕ) → (retire_active willing active fs).1 m ≡ retired active fs m)
unfolding retire_active put
retire_active_lem none fs e free = (refl, λ m. ground arith)
retire_active_lem (some []) fs e free =
    let (done, at) = remove_if_exists_lem 0 fs in (done, λ m. at m ∙ ground arith)
retire_active_lem (some (c ∷ s)) fs e free = (refl, λ m. ground arith)

after_shift_lem :
    (max_backups : ℕ) (d : Done) (fs : LogFiles)
    → 0 < max_backups
    → d.0 ≡ true
    → ((m : ℕ) → d.1 m ≡ shifted (max_backups - 1) (λ k. if k == max_backups then none else fs k) m)
    → ((after_shift willing d).0 ≡ true)
      × ((m : ℕ) → (after_shift willing d).1 m ≡ rotated max_backups fs m)
unfolding after_shift
after_shift_lem max_backups (false, gs) fs pos d at = absurd (cc d)
after_shift_lem max_backups (true, gs) fs pos d at =
    let active : gs 0 ≡ fs 0 = at 0 ∙ ground arith in
    let (done, later) = retire_active_lem (gs 0) gs refl (at 1 ∙ ground arith) in
    (done, λ m. later m ∙ rw active (ground (arith, at m)))

after_removal_lem :
    (max_backups : ℕ) (d : Done) (fs : LogFiles)
    → 0 < max_backups
    → d.0 ≡ true
    → d.1 ≡ (λ k. if k == max_backups then none else fs k)
    → ((after_removal willing max_backups d).0 ≡ true)
      × ((m : ℕ) → (after_removal willing max_backups d).1 m ≡ rotated max_backups fs m)
unfolding after_removal
after_removal_lem max_backups (false, gs) fs pos d at = absurd (cc d)
after_removal_lem max_backups (true, gs) fs pos d at =
    let free : gs (suc (max_backups - 1)) ≡ none =
      ap (λ f. f (suc (max_backups - 1))) at ∙ ground arith in
    let (done, later) = shift_lem (max_backups - 1) gs free in
    after_shift_lem max_backups (shift willing (max_backups - 1) gs) fs pos done
      (λ m. later m ∙ ap (λ (t : LogFiles). shifted (max_backups - 1) t m) at)

-- Where the system refuses nothing, a rotation succeeds and leaves just the files described.
pub rotate_files_lem :
    (max_backups : ℕ) (fs : LogFiles)
    → 0 < max_backups
    → ((rotate_files willing max_backups fs).0 ≡ true)
      × ((m : ℕ) → (rotate_files willing max_backups fs).1 m ≡ rotated max_backups fs m)
unfolding rotate_files
rotate_files_lem max_backups fs pos =
    let (done, at) = remove_if_exists_lem max_backups fs in
    after_removal_lem max_backups (remove_if_exists willing max_backups fs) fs pos done (fun_ext at)
