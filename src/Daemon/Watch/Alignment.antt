-- ===== src/Daemon/Watch/Alignment.antt =====
-- Every line of the table has the same width.
use merge_ready.Prelude.{
  ℕ, zero, suc, ◌+◌, ◌-◌, ◌≤◌, Bool, true, false, List, [], ◌∷◌, ◌++◌, map, All, ◌≡◌, refl, ◌∙◌,
  arith, Member, inl, inr,
}
use merge_ready.Daemon.Watch.{
  Chars, TableRow, TableWidths, left, right, spaces, in_escape, measure, display_width, push_padded,
  write_row, max_width, widths_from_rows, header, table_lines,
}

-- Every cell of a row closes its escape sequences.
pub record IsClosed (row : TableRow) : Type 0 where
  pub cwd : in_escape false row.cwd ≡ false
  pub branch : in_escape false row.branch ≡ false
  pub pr : in_escape false row.pr ≡ false
  pub status : in_escape false row.status ≡ false
  pub cached_at : in_escape false row.cached_at ≡ false

header-IsClosed : IsClosed header
unfolding in_escape
header-IsClosed = record { cwd = refl; branch = refl; pr = refl; status = refl; cached_at = refl }

-- The width of a line: that of its columns, and two spaces between each.
abbrev pub total : TableWidths → ℕ
total w = w.cwd + 2 + (w.branch + 2 + (w.pr + 2 + (w.status + 2 + w.cached_at)))

module _ (char_width : ℕ → ℕ) (space_width : char_width b' ' ≡ 1) where
  measure-append :
      (inside : Bool) (s t : Chars)
      → measure char_width inside (s ++ t)
        ≡ measure char_width inside s + measure char_width (in_escape inside s) t
  unfolding measure in_escape
  measure-append inside [] t = omega arith
  measure-append inside (c ∷ s) t =
      ground (arith, measure-append true s t, measure-append false s t)

  in_escape-append :
      (inside : Bool) (s t : Chars) → in_escape inside (s ++ t) ≡ in_escape (in_escape inside s) t
  unfolding in_escape
  in_escape-append inside [] t = refl
  in_escape-append inside (c ∷ s) t =
      ground
        (arith, in_escape-append true s t, in_escape-append inside s t, in_escape-append false s t)

  measure-spaces : (n : ℕ) → measure char_width false (spaces n) ≡ n
  unfolding measure spaces
  measure-spaces zero = refl
  measure-spaces (suc n) = omega (arith, space_width, measure-spaces n)

  in_escape-spaces : (n : ℕ) → in_escape false (spaces n) ≡ false
  unfolding in_escape spaces
  in_escape-spaces zero = refl
  in_escape-spaces (suc n) = in_escape-spaces n

  -- A text of some width whose escape sequences are closed.
  abbrev IsWide : ℕ → Chars → Type 0
  IsWide n s = (measure char_width false s ≡ n) × (in_escape false s ≡ false)

  append-IsWide : (n m : ℕ) (s t : Chars) → IsWide n s → IsWide m t → IsWide (n + m) (s ++ t)
  append-IsWide n m s t h k =
      ground (arith, measure-append false s t, in_escape-append false s t, h.0, h.1, k.0, k.1)

  spaces-IsWide : (n : ℕ) → IsWide n (spaces n)
  spaces-IsWide n = (measure-spaces n, in_escape-spaces n)

  pad_left-IsWide :
      (cell : Chars) (w : ℕ)
      → display_width char_width cell ≤ w
      → in_escape false cell ≡ false
      → IsWide w (push_padded char_width cell w left)
  unfolding push_padded display_width
  pad_left-IsWide cell w fits closed =
      let pad = w - measure char_width false cell in
      let joined = append-IsWide _ pad cell (spaces pad) (refl, closed) (spaces-IsWide pad) in
      (joined.0 ∙ omega (arith, fits), joined.1)

  pad_right-IsWide :
      (cell : Chars) (w : ℕ)
      → display_width char_width cell ≤ w
      → in_escape false cell ≡ false
      → IsWide w (push_padded char_width cell w right)
  unfolding push_padded display_width
  pad_right-IsWide cell w fits closed =
      let pad = w - measure char_width false cell in
      let joined = append-IsWide pad _ (spaces pad) cell (spaces-IsWide pad) (refl, closed) in
      (joined.0 ∙ omega (arith, fits), joined.1)

  column-IsWide :
      (cell rest : Chars) (w n : ℕ)
      → display_width char_width cell ≤ w
      → in_escape false cell ≡ false
      → IsWide n rest
      → IsWide (w + 2 + n) (push_padded char_width cell w left ++ spaces 2 ++ rest)
  column-IsWide cell rest w n fits closed h =
      append-IsWide (w + 2) n _ rest
        (append-IsWide w 2 _ (spaces 2) (pad_left-IsWide cell w fits closed) (spaces-IsWide 2)) h

  -- Every cell of a row fits its column.
  record Fits (row : TableRow) (widths : TableWidths) : Type 0 where
    cwd : display_width char_width row.cwd ≤ widths.cwd
    branch : display_width char_width row.branch ≤ widths.branch
    pr : display_width char_width row.pr ≤ widths.pr
    status : display_width char_width row.status ≤ widths.status
    cached_at : display_width char_width row.cached_at ≤ widths.cached_at

  write_row-IsWide :
      (row : TableRow) (widths : TableWidths)
      → Fits row widths
      → IsClosed row
      → IsWide (total widths) (write_row char_width row widths)
  unfolding write_row
  write_row-IsWide row widths f c = column-IsWide row.cwd _ widths.cwd _ f.cwd c.cwd (
      column-IsWide row.branch _ widths.branch _ f.branch c.branch (
        column-IsWide row.pr _ widths.pr _ f.pr c.pr (
          column-IsWide row.status _ widths.status _ f.status c.status
            (pad_right-IsWide row.cached_at widths.cached_at f.cached_at c.cached_at))))

  header_le :
      (cell : TableRow → Chars) (rows : List TableRow) (n : ℕ)
      → n ≤ max_width char_width cell rows n
  unfolding max_width
  header_le cell [] n = omega arith
  header_le cell (row ∷ rows) n = omega (arith, header_le cell rows n)

  header-Fits : (rows : List TableRow) → Fits header (widths_from_rows char_width header rows)
  unfolding widths_from_rows
  header-Fits rows = record {
    cwd = header_le (λ r. r.cwd) rows _;
    branch = header_le (λ r. r.branch) rows _;
    pr = header_le (λ r. r.pr) rows _;
    status = header_le (λ r. r.status) rows _;
    cached_at = header_le (λ r. r.cached_at) rows _;
  }

  -- Columns that are as wide as the widest of some rows.
  row_le :
      (cell : TableRow → Chars) (rows : List TableRow) (n : ℕ) (row : TableRow)
      → Member row rows
      → display_width char_width (cell row) ≤ max_width char_width cell rows n
  unfolding max_width
  row_le cell [] n row m = absurd m
  row_le cell (first ∷ rows) n row (inl e) = rw e (omega arith)
  row_le cell (first ∷ rows) n row (inr m) = omega (arith, row_le cell rows n row m)

  row-Fits :
      (rows : List TableRow) (row : TableRow)
      → Member row rows
      → Fits row (widths_from_rows char_width header rows)
  unfolding widths_from_rows
  row-Fits rows row m = record {
    cwd = row_le (λ r. r.cwd) rows _ row m;
    branch = row_le (λ r. r.branch) rows _ row m;
    pr = row_le (λ r. r.pr) rows _ row m;
    status = row_le (λ r. r.status) rows _ row m;
    cached_at = row_le (λ r. r.cached_at) rows _ row m;
  }

  rows_aligned :
      (all rows : List TableRow)
      → All (λ row. Member row all × IsClosed row) rows
      → All
          (λ line. display_width char_width line ≡ total (widths_from_rows char_width header all))
          (map (λ row. write_row char_width row (widths_from_rows char_width header all)) rows)
  unfolding display_width
  rows_aligned all [] h = tt
  rows_aligned all (row ∷ rows) h =
      ((write_row-IsWide row _ (row-Fits all row h.0.0) h.0.1).0, rows_aligned all rows h.1)

  weaken :
      (first : TableRow) (all rows : List TableRow)
      → All (λ row. Member row all × IsClosed row) rows
      → All (λ row. Member row (first ∷ all) × IsClosed row) rows
  weaken first all [] h = tt
  weaken first all (row ∷ rows) h = ((inr h.0.0, h.0.1), weaken first all rows h.1)

  members :
      (rows : List TableRow) → All IsClosed rows → All (λ row. Member row rows × IsClosed row) rows
  members [] h = tt
  members (row ∷ rows) h = ((inl refl, h.0), weaken row rows rows (members rows h.1))

  -- If a space is one column wide and every cell closes its escape sequences, then every line of
  -- the table, the header's too, has the width of the columns and of two spaces between each.
  pub table_lines_aligned :
      (rows : List TableRow)
      → All IsClosed rows
      → All
          (λ line. display_width char_width line ≡ total (widths_from_rows char_width header rows))
          (table_lines char_width rows)
  unfolding table_lines display_width
  table_lines_aligned rows h = (
    (write_row-IsWide header _ (header-Fits rows) header-IsClosed).0,
    rows_aligned rows rows (members rows h),
  )
