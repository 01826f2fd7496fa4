-- ===== src/Daemon/Watch.antt =====
-- src/contexts/daemon/interface/cli/watch.rs: the table that `watch` prints. Its texts are lists of
-- characters here, since the table measures and pads by characters.
pub mod Alignment
use merge_ready.Prelude.{
  ℕ, zero, suc, ◌+◌, ◌-◌, Bool, true, false, ◌&&◌, ◌||◌, Option, none, some, List, [], ◌∷◌, ◌++◌,
  map, max, codes, decimal, ltb, leb, ◌==◌, if◌then◌else◌,
}

abbrev pub Chars : Type 0
Chars = List ℕ

pub record EntryView : Type 0 where
  pub cwd : Chars
  pub branch : Chars
  pub pr_id : Option ℕ
  pub output : Chars
  pub cached_at_secs : ℕ

pub data Align : Type 0 where
  left right : Align

pub record TableRow : Type 0 where
  pub cwd : Chars
  pub branch : Chars
  pub pr : Chars
  pub status : Chars
  pub cached_at : Chars

pub record TableWidths : Type 0 where
  pub cwd : ℕ
  pub branch : ℕ
  pub pr : ℕ
  pub status : ℕ
  pub cached_at : ℕ

unfoldable pub spaces : ℕ → Chars
spaces zero = []
spaces (suc n) = b' ' ∷ spaces n

unfoldable pub format_pr_id : Option ℕ → Chars
format_pr_id none = []
format_pr_id (some id) = b'#' ∷ decimal id

-- Whether a text ends inside an escape sequence, if it begins inside one or not.
unfoldable pub in_escape : Bool → Chars → Bool
in_escape inside [] = inside
in_escape inside (c ∷ s) =
    if c == 27
    then in_escape true s
    else if inside && c == b'm'
    then in_escape false s
    else in_escape inside s

-- `char_width` is the width of a character on a terminal, 0 if it has none.
module _ (char_width : ℕ → ℕ) where
  -- The loop of `display_width`.
  unfoldable pub measure : Bool → Chars → ℕ
  measure inside [] = 0
  measure inside (c ∷ s) =
      if c == 27
      then measure true s
      else if inside
      then (if c == b'm' then measure false s else measure true s)
      else char_width c + measure false s

  unfoldable pub display_width : Chars → ℕ
  display_width s = measure false s

  unfoldable pub push_padded : Chars → ℕ → Align → Chars
  push_padded cell width left = cell ++ spaces (width - display_width cell)
  push_padded cell width right = spaces (width - display_width cell) ++ cell

  -- `write_row`, without the line's end
  unfoldable pub write_row : TableRow → TableWidths → Chars
  write_row row widths =
      push_padded row.cwd widths.cwd left
      ++ spaces 2
      ++ (push_padded row.branch widths.branch left
          ++ spaces 2
          ++ (push_padded row.pr widths.pr left
              ++ spaces 2
              ++ (push_padded row.status widths.status left
                  ++ spaces 2
                  ++ push_padded row.cached_at widths.cached_at right)))

  -- `max_width` over the cells of a column
  unfoldable pub max_width : (TableRow → Chars) → List TableRow → ℕ → ℕ
  max_width cell [] header = header
  max_width cell (row ∷ rows) header = max (display_width (cell row)) (max_width cell rows header)

  unfoldable pub widths_from_rows : TableRow → List TableRow → TableWidths
  widths_from_rows header rows = record {
    cwd = max_width (λ r. r.cwd) rows (display_width header.cwd);
    branch = max_width (λ r. r.branch) rows (display_width header.branch);
    pr = max_width (λ r. r.pr) rows (display_width header.pr);
    status = max_width (λ r. r.status) rows (display_width header.status);
    cached_at = max_width (λ r. r.cached_at) rows (display_width header.cached_at);
  }

abbrev pub header : TableRow
header = record {
  cwd = codes "CWD";
  branch = codes "BRANCH";
  pr = codes "PR";
  status = codes "STATUS";
  cached_at = codes "CACHED AT";
}

-- `from_entry` at a number of seconds since the epoch; `format_duration` is the library's.
unfoldable pub from_entry : (ℕ → Chars) → ℕ → EntryView → TableRow
from_entry format_duration now e = record {
  cwd = e.cwd;
  branch = e.branch;
  pr = format_pr_id e.pr_id;
  status = e.output;
  cached_at = format_duration (now - e.cached_at_secs) ++ codes " ago";
}

-- `cmp` of two texts, of two optional numbers, and of two entries, as "not after".
unfoldable pub chars_leb : Chars → Chars → Bool → Bool
chars_leb [] [] rest = rest
chars_leb [] (_ ∷ _) rest = true
chars_leb (_ ∷ _) [] rest = false
chars_leb (a ∷ s) (b ∷ t) rest = let later = chars_leb s t rest in ltb a b || (a == b && later)

unfoldable pub option_leb : Option ℕ → Option ℕ → Bool
option_leb none o = true
option_leb (some a) none = false
option_leb (some a) (some b) = leb a b

unfoldable pub view_leb : EntryView → EntryView → Bool
view_leb a b = chars_leb a.cwd b.cwd (chars_leb a.branch b.branch (option_leb a.pr_id b.pr_id))

unfoldable pub insert_view : EntryView → List EntryView → List EntryView
insert_view e [] = e ∷ []
insert_view e (f ∷ es) =
    let rest = insert_view e es in if view_leb e f then e ∷ f ∷ es else f ∷ rest

-- `sort_by`, a stable sort
unfoldable pub sort_views : List EntryView → List EntryView
sort_views [] = []
sort_views (e ∷ es) = insert_view e (sort_views es)

unfoldable pub table_rows : (ℕ → Chars) → ℕ → List EntryView → List TableRow
table_rows format_duration now entries = map (from_entry format_duration now) (sort_views entries)

abbrev end_lines : List Chars → Chars
end_lines [] = []
end_lines (l ∷ ls) = l ++ (b'\n' ∷ end_lines ls)

-- The lines of the table: the header, and one for each row.
unfoldable pub table_lines : (ℕ → ℕ) → List TableRow → List Chars
table_lines char_width rows =
    let widths = widths_from_rows char_width header rows in
    write_row char_width header widths ∷ map (λ row. write_row char_width row widths) rows

unfoldable pub format_table : (ℕ → ℕ) → (ℕ → Chars) → ℕ → List EntryView → Chars
format_table char_width format_duration now [] = codes "no entries cached" ++ (b'\n' ∷ [])
format_table char_width format_duration now (e ∷ es) =
    end_lines (table_lines char_width (table_rows format_duration now (e ∷ es)))
