-- ===== src/Tests/Logging.antt =====
-- Writes to the log.
use merge_ready.Prelude.{
  ℕ, zero, suc, Text, codes, Bool, true, none, some, List, [], ◌∷◌, ◌≡◌, refl, arith, ◌==◌,
}
use merge_ready.Evaluation.Logger.{LogRotationPolicy}
use merge_ready.Evaluation.Logger.Rotation.{LogFiles, Log, with_writer, write}
use merge_ready.Evaluation.Logger.Rotation.Represented.{AbstractLog, Represents, taking}
use merge_ready.Evaluation.Logger.Rotation.AbstractLog.{run_writes, run_writes-Represents}
use merge_ready.Evaluation.Logger.Rotation.Faults.{oversized, write-oversized}

abbrev policy : LogRotationPolicy
policy = record { max_bytes = 4; max_backups = 2 }

abbrev fresh_files : LogFiles
fresh_files zero = some []
fresh_files (suc k) = none

abbrev fresh : Log
fresh = with_writer policy true 0 fresh_files

abbrev nothing_written : AbstractLog
nothing_written = record { active = []; backups = [] }

fresh-Represents : Represents fresh nothing_written
fresh-Represents = record {
  is_open = refl;
  sized = refl;
  active = refl;
  backups = λ k. refl;
  fits = omega arith;
  few = omega arith;
}

abbrev four_writes : List (ℕ × Text)
four_writes = (4, codes "1111") ∷ (4, codes "2222") ∷ (4, codes "3333") ∷ (4, codes "4444") ∷ []

run_writes-Represents_example :
    Represents
      (run_writes four_writes fresh)
      (record { active = codes "4444"; backups = codes "3333" ∷ codes "2222" ∷ [] })
run_writes-Represents_example =
    run_writes-Represents policy four_writes fresh nothing_written fresh-Represents refl
      (omega arith) (omega arith) (omega arith)

-- The system refuses to move the backup 1.
abbrev stubborn : ℕ → Bool
stubborn k = k == 1

abbrev used_files : LogFiles
used_files zero = some (codes "new")
used_files (suc zero) = some (codes "old")
used_files (suc (suc k)) = none

write-oversized_example :
    ((write (taking 6) (codes "abcdef") fresh).0 ≡ some 6)
    × ((m : ℕ)
        → (write (taking 6) (codes "abcdef") fresh).1.files m
          ≡ oversized 2 (codes "abcdef") fresh_files m)
write-oversized_example =
    write-oversized b'a' (codes "bcdef") fresh refl refl (omega arith) (omega arith) (omega arith)
