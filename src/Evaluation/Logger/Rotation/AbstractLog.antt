-- ===== src/Evaluation/Logger/Rotation/AbstractLog.antt =====
-- What the log promises: the active text and the backups, the newest first, of which the last ones
-- are dropped. The writer and its files keep to it.
use merge_ready.Prelude.{
  ℕ, ◌+◌, ◌≤◌, ◌<◌, ◌≡◌, ◌∙◌, refl, ap, subst, inl, inr, Text, Bool, true, false, some, List, [],
  ◌∷◌, ◌++◌, ltb, length, take, saturating_add, u64_max, All, Bool-cases, arith,
}
use merge_ready.Evaluation.Logger.{LogRotationPolicy}
use merge_ready.Evaluation.Logger.Rotation.{Answers, Log, rotate, to_file, after_rotation, write}
use merge_ready.Evaluation.Logger.Rotation.Represented.{
  AbstractLog, append, Represents, taking, to_file-Represents, rotate-Represents,
}

after_rotation_ok :
    (io : Answers) (buf : Text) (d : Bool × Log)
    → d.0 ≡ true
    → after_rotation io buf d ≡ to_file io buf io.takes d.1
unfolding after_rotation
after_rotation_ok io buf (true, s) h = refl
after_rotation_ok io buf (false, s) h = absurd (cc h)

-- What is to be shown of a write.
abbrev Written : ℕ → Text → Log → AbstractLog → Type 0
Written n buf s l =
    ((write (taking n) buf s).0 ≡ some (length (take n buf)))
    × ((write (taking n) buf s).1.writer.policy ≡ s.writer.policy)
    × Represents (write (taking n) buf s).1 l

module _ (n c : ℕ) (buf : Text) (s : Log) (l : AbstractLog) (r : Represents s l)
    (whole : length (c ∷ buf) ≤ s.writer.policy.max_bytes)
    (some_backup : 0 < s.writer.policy.max_backups)
    (small : s.writer.policy.max_bytes < u64_max) where
  size : ℕ
  size = saturating_add s.writer.current_size (length (c ∷ buf))

  write_within :
      ltb s.writer.policy.max_bytes size ≡ false
      → Written n
          (c ∷ buf)
          s
          (record { active = l.active ++ take n (c ∷ buf); backups = l.backups })
  unfolding size
  write_within under =
      let e : write (taking n) (c ∷ buf) s ≡ to_file (taking n) (c ∷ buf) (some n) s =
        unfold write in simp under refl in
      let room : length l.active + length (c ∷ buf) ≤ s.writer.policy.max_bytes =
        unfold saturating_add in ground (arith, r.sized) in
      rw e (to_file-Represents n (c ∷ buf) s l r room small)

  write_over :
      ltb s.writer.policy.max_bytes size ≡ true
      → Written n (c ∷ buf) s (record {
        active = take n (c ∷ buf);
        backups = take s.writer.policy.max_backups (l.active ∷ l.backups);
      })
  unfolding size
  write_over over = by_active l.active l.backups r
    where
      by_active :
          (a : Text) (bs : List Text)
          → Represents s (record { active = a; backups = bs })
          → Written n (c ∷ buf) s (record {
            active = take n (c ∷ buf);
            backups = take s.writer.policy.max_backups (a ∷ bs);
          })
      by_active [] bs empty =
          absurd (unfold saturating_add in ground (arith, empty.sized, whole, over))
      by_active (d ∷ t) bs full =
          let (done, same, after) = rotate-Represents n s d t bs full some_backup in
          let first : write (taking n) (c ∷ buf) s
              ≡ after_rotation (taking n) (c ∷ buf) (rotate (taking n) s) =
            unfold write in simp over refl in
          let e : write (taking n) (c ∷ buf) s
              ≡ to_file (taking n) (c ∷ buf) (some n) (rotate (taking n) s).1 =
            first ∙ after_rotation_ok (taking n) (c ∷ buf) (rotate (taking n) s) done in
          let bytes : (rotate (taking n) s).1.writer.policy.max_bytes ≡ s.writer.policy.max_bytes =
            ap (λ p. p.max_bytes) same in
          let (result, policy, represents) =
            to_file-Represents n (c ∷ buf) (rotate (taking n) s).1
              (record { active = []; backups = take s.writer.policy.max_backups ((d ∷ t) ∷ bs) })
              after (omega (arith, bytes, whole)) (omega (arith, bytes, small)) in
          rw e (result, policy ∙ same, represents)

-- One write keeps to the abstract log: it reports the bytes that the system takes, and appends them
-- to the active text, which becomes the newest backup first if the buffer would take it past its
-- limit.
pub write-Represents :
    (n : ℕ) (buf : Text) (s : Log) (l : AbstractLog)
    → Represents s l
    → 0 < length buf
    → length buf ≤ s.writer.policy.max_bytes
    → 0 < s.writer.policy.max_backups
    → s.writer.policy.max_bytes < u64_max
    → Written n buf s (append s.writer.policy n buf l)
write-Represents n [] s l r pos whole some_backup small = absurd (omega arith)
write-Represents n (c ∷ buf) s l r pos whole some_backup small =
    elim (Bool-cases (ltb s.writer.policy.max_bytes (length l.active + length (c ∷ buf)))) [
      | inl over ↦ rw over (
          write_over n c buf s l r whole some_backup small
            (unfold saturating_add size in ground (arith, r.sized)))
      | inr under ↦ rw under (
          write_within n c buf s l r whole some_backup small
            (unfold saturating_add size in ground (arith, r.sized)))
    ]

-- A run of writes, each with the number of bytes that the system takes of it.
abbrev pub run_writes : List (ℕ × Text) → Log → Log
run_writes [] s = s
run_writes ((n, buf) ∷ rest) s = run_writes rest (write (taking n) buf s).1

abbrev pub run_appends : LogRotationPolicy → List (ℕ × Text) → AbstractLog → AbstractLog
run_appends policy [] l = l
run_appends policy ((n, buf) ∷ rest) l = run_appends policy rest (append policy n buf l)

-- Over any run of writes, none of them empty or longer than the limit, on a system that refuses
-- nothing, the writer and its files represent the abstract log of the same writes.
pub run_writes-Represents :
    (policy : LogRotationPolicy) (ws : List (ℕ × Text)) (s : Log) (l : AbstractLog)
    → Represents s l
    → s.writer.policy ≡ policy
    → All (λ w. (0 < length w.1) × (length w.1 ≤ policy.max_bytes)) ws
    → 0 < policy.max_backups
    → policy.max_bytes < u64_max
    → Represents (run_writes ws s) (run_appends policy ws l)
run_writes-Represents policy [] s l r same h some_backup small = r
run_writes-Represents policy ((n, buf) ∷ rest) s l r same h some_backup small =
    let bytes : s.writer.policy.max_bytes ≡ policy.max_bytes = ap (λ p. p.max_bytes) same in
    let backups : s.writer.policy.max_backups ≡ policy.max_backups = ap (λ p. p.max_backups) same in
    let (result, kept_policy, represents) =
      write-Represents n buf s l r h.0.0 (omega (arith, bytes, h.0.1))
        (omega (arith, backups, some_backup)) (omega (arith, bytes, small)) in
    run_writes-Represents policy rest (write (taking n) buf s).1 (append policy n buf l)
      (subst (λ p. Represents (write (taking n) buf s).1 (append p n buf l)) same represents)
      (kept_policy ∙ same) h.1 some_backup small
