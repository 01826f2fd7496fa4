-- ===== src/Tests/Watching.antt =====
-- A run of the table of `watch`.
use merge_ready.Prelude.{ℕ, codes, [], ◌∷◌, ◌++◌, All, ◌≡◌, refl}
use merge_ready.Daemon.Watch.{
  TableRow, in_escape, display_width, header, widths_from_rows, table_lines,
}
use merge_ready.Daemon.Watch.Alignment.{IsClosed, total, table_lines_aligned}

abbrev one_column : ℕ → ℕ
one_column c = 1

-- The status is green, by an escape sequence and its reset.
abbrev row : TableRow
row = record {
  cwd = codes "/repo";
  branch = codes "main";
  pr = codes "#7";
  status = 27 ∷ codes "[32mready" ++ (27 ∷ codes "[0m");
  cached_at = codes "5s ago";
}

row-IsClosed : IsClosed row
unfolding in_escape
row-IsClosed = record { cwd = refl; branch = refl; pr = refl; status = refl; cached_at = refl }

table_lines_aligned_example :
    All
      (λ line.
        display_width one_column line ≡ total (widths_from_rows one_column header (row ∷ [])))
      (table_lines one_column (row ∷ []))
table_lines_aligned_example = table_lines_aligned one_column refl (row ∷ []) (row-IsClosed, tt)
