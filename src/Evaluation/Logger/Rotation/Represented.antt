-- ===== src/Evaluation/Logger/Rotation/Represented.antt =====
-- The log as its active text and its backups, and how the steps of a write keep to it.
use merge_ready.Prelude.{
  ℕ, zero, suc, ◌+◌, ◌≤◌, ◌<◌, ◌≡◌, refl, inl, inr, Text, true, false, none, some, List, [], ◌∷◌,
  ◌++◌, leb, ltb, if◌then◌else◌, length, length-append, take, get_elem?, get_elem?-none,
  get_elem?-take_lt, length-take_le, saturating_add, u64_max, Bool-cases, arith,
}
use merge_ready.Evaluation.Logger.{LogRotationPolicy}
use merge_ready.Evaluation.Logger.Rotation.{
  LogFiles, put, Done, rotate_files, create, Answers, Log, with_writer, moved, rotate,
  append_active, to_file,
}
use merge_ready.Evaluation.Logger.Rotation.Shift.{willing, rotated, rotate_files_lem}

pub record AbstractLog : Type 0 where
  pub active : Text
  pub backups : List Text

-- A write of `buf`, of which the system takes `n` bytes.
abbrev pub append : LogRotationPolicy → ℕ → Text → AbstractLog → AbstractLog
append policy n buf l =
    if ltb policy.max_bytes (length l.active + length buf)
    then record { active = take n buf; backups = take policy.max_backups (l.active ∷ l.backups) }
    else record { active = l.active ++ take n buf; backups = l.backups }

pub record Represents (s : Log) (l : AbstractLog) : Type 0 where
  pub is_open : s.writer.is_open ≡ true
  pub sized : s.writer.current_size ≡ length l.active
  pub active : s.files 0 ≡ some l.active
  pub backups : (k : ℕ) → s.files (suc k) ≡ get_elem? l.backups k
  pub fits : length l.active ≤ s.writer.policy.max_bytes
  pub few : length l.backups ≤ s.writer.policy.max_backups

-- A system that refuses nothing, opens the file, and takes `n` bytes of a write.
abbrev pub taking : ℕ → Answers
taking n = record { refuses = willing; opens = true; takes = some n }

-- The state after a part is appended.
abbrev appended : Text → Log → Log
appended part s =
    with_writer s.writer.policy s.writer.is_open
      (saturating_add s.writer.current_size (length part)) (append_active part s.files)

-- A write that needs no rotation after it.
to_file_within :
    (n : ℕ) (buf : Text) (s : Log)
    → s.writer.is_open ≡ true
    → saturating_add s.writer.current_size (length (take n buf)) ≤ s.writer.policy.max_bytes
    → to_file (taking n) buf (some n) s ≡ (some (length (take n buf)), appended (take n buf) s)
unfolding to_file
to_file_within n buf s is_open small =
    let under : ltb s.writer.policy.max_bytes
          (saturating_add s.writer.current_size (length (take n buf)))
        ≡ false =
      ground arith in
    simp (is_open, under) refl

appended-Represents :
    (part : Text) (s : Log) (l : AbstractLog)
    → Represents s l
    → length l.active + length part ≤ s.writer.policy.max_bytes
    → s.writer.policy.max_bytes < u64_max
    → Represents (appended part s) (record { active = l.active ++ part; backups = l.backups })
unfolding saturating_add put
appended-Represents part s l r room small = record {
  is_open = r.is_open;
  sized = omega (arith, r.sized, length-append {0} l.active part);
  active = rw r.active refl;
  backups = λ k. ground (arith, r.backups k);
  fits = omega (arith, length-append {0} l.active part);
  few = r.few;
}

pub to_file-Represents :
    (n : ℕ) (buf : Text) (s : Log) (l : AbstractLog)
    → Represents s l
    → length l.active + length buf ≤ s.writer.policy.max_bytes
    → s.writer.policy.max_bytes < u64_max
    → ((to_file (taking n) buf (some n) s).0 ≡ some (length (take n buf)))
      × ((to_file (taking n) buf (some n) s).1.writer.policy ≡ s.writer.policy)
      × Represents
          (to_file (taking n) buf (some n) s).1
          (record { active = l.active ++ take n buf; backups = l.backups })
to_file-Represents n buf s l r room small =
    let shorter = length-take_le n buf in
    let size : saturating_add s.writer.current_size (length (take n buf))
        ≤ s.writer.policy.max_bytes =
      unfold saturating_add in omega (arith, r.sized, shorter) in
    rw (to_file_within n buf s r.is_open size)
      (refl, refl, appended-Represents (take n buf) s l r (omega (arith, shorter)) small)

-- The files after a rotation hold the retired text and the backups before it.
rotated-get_elem? :
    (max_backups : ℕ) (fs : LogFiles) (c : ℕ) (t : Text) (bs : List Text) (k : ℕ)
    → fs 0 ≡ some (c ∷ t)
    → ((i : ℕ) → fs (suc i) ≡ get_elem? bs i)
    → length bs ≤ max_backups
    → 0 < max_backups
    → rotated max_backups fs (suc k) ≡ get_elem? (take max_backups ((c ∷ t) ∷ bs)) k
rotated-get_elem? max_backups fs c t bs zero active at few pos =
    rw (active, get_elem?-take_lt max_backups ((c ∷ t) ∷ bs) 0 pos) refl
rotated-get_elem? max_backups fs c t bs (suc k) active at few pos =
    elim (Bool-cases (leb (suc (suc k)) max_backups)) [
      | inl inside ↦
          let within : suc k < max_backups = ground arith in
          rw inside
            (ground (arith, at k, get_elem?-take_lt max_backups ((c ∷ t) ∷ bs) (suc k) within))
      | inr outside ↦
          let beyond : max_backups ≤ suc k = ground arith in
          let size = length-take_le max_backups ((c ∷ t) ∷ bs) in
          rw outside (
            ground (
              arith,
              at (suc k),
              get_elem?-none bs (suc k) (omega arith),
              get_elem?-none (take max_backups ((c ∷ t) ∷ bs)) (suc k) (omega arith),
            ))
    ]

-- A rotation of a log whose active text is not empty.
pub rotate-Represents :
    (n : ℕ) (s : Log) (c : ℕ) (t : Text) (bs : List Text)
    → Represents s (record { active = c ∷ t; backups = bs })
    → 0 < s.writer.policy.max_backups
    → ((rotate (taking n) s).0 ≡ true)
      × ((rotate (taking n) s).1.writer.policy ≡ s.writer.policy)
      × Represents
          (rotate (taking n) s).1
          (record { active = []; backups = take s.writer.policy.max_backups ((c ∷ t) ∷ bs) })
unfolding rotate
rotate-Represents n s c t bs r pos =
    let (done, at) = rotate_files_lem s.writer.policy.max_backups s.files pos in
    moved_as (rotate_files willing s.writer.policy.max_backups s.files) done at
  where
    moved_as :
        (d : Done)
        → d.0 ≡ true
        → ((m : ℕ) → d.1 m ≡ rotated s.writer.policy.max_backups s.files m)
        → ((moved (taking n) s d).0 ≡ true)
          × ((moved (taking n) s d).1.writer.policy ≡ s.writer.policy)
          × Represents
              (moved (taking n) s d).1
              (record { active = []; backups = take s.writer.policy.max_backups ((c ∷ t) ∷ bs) })
    moved_as (false, gs) done at = absurd (cc done)
    moved_as (true, gs) done at =
        let gone : gs 0 ≡ none = at 0 in
        let made : create (gs 0) gs ≡ put 0 (some []) gs = unfold create in rw gone refl in
        (
          refl,
          refl,
          rw made (record {
            is_open = refl;
            sized = refl;
            active = unfold put in refl;
            backups = λ k.
                unfold put in
                ground (
                  arith,
                  at (suc k),
                  rotated-get_elem? s.writer.policy.max_backups s.files c t bs k r.active r.backups
                      r.few pos,
                );
            fits = omega arith;
            few = (length-take_le s.writer.policy.max_backups ((c ∷ t) ∷ bs)).0;
          }),
        )
