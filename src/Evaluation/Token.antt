-- ===== src/Evaluation/Token.antt =====
-- src/contexts/evaluation/domain/format_parser.rs (compile_segments) and display_config/render.rs:
-- formats compiled once, and tokens rendered from them.
pub mod Fuel
use merge_ready.Prelude.{
  ℕ, zero, suc, ◌+◌, Text, codes, eqb, Bool, true, false, not, ◌&&◌, ◌||◌, Option, none, some, List,
  [], ◌∷◌, ◌++◌, ◌==◌, leb, if◌then◌else◌, is_empty, length, Result, ok, err, Panic, ◌>>=◌,
}
use merge_ready.Evaluation.Format.{Segment, Segments, parse_segments}
use merge_ready.Evaluation.Style
use merge_ready.Evaluation.Style.{StyleSpec}

mutual
  pub data CompiledSegment : Type 0 where
    text : Text → CompiledSegment
    styled : CompiledSegments → StyleSpec → CompiledSegment
    conditional : CompiledSegments → CompiledSegment

  pub data CompiledSegments : Type 0 where
    nil : CompiledSegments
    cons : CompiledSegment → CompiledSegments → CompiledSegments

abbrev styled_with :
    Result Panic CompiledSegments → Result Panic StyleSpec → Result Panic CompiledSegment
styled_with content style = do c ← content; s ← style; ok (styled c s)

abbrev cons_with :
    Result Panic CompiledSegment → Result Panic CompiledSegments → Result Panic CompiledSegments
cons_with segment rest = do s ← segment; r ← rest; ok (cons s r)

-- `compile_segment` over the segments of a format; `again` compiles the content of a styled one.
unfoldable mutual
  pub compile_segment :
      (Text → Result Panic CompiledSegments) → Segment → Result Panic CompiledSegment
  compile_segment again (Segment.text t) = ok (text t)
  compile_segment again (Segment.styled content style_str) =
      styled_with (again content) (Style.parse style_str)
  compile_segment again (Segment.conditional inner) = do
    c ← compile_all again inner
    ok (conditional c)

  pub compile_all :
      (Text → Result Panic CompiledSegments) → Segments → Result Panic CompiledSegments
  compile_all again Segments.nil = ok nil
  compile_all again (Segments.cons s rest) =
      cons_with (compile_segment again s) (compile_all again rest)

-- `compile_segments` with fuel for the nesting of styles: a content is shorter than its format, so
-- that one unit for each byte, and one more, suffice.
unfoldable pub compile_fuel : ℕ → Text → Result Panic CompiledSegments
compile_fuel zero format = ok nil
compile_fuel (suc fuel) format = compile_all (compile_fuel fuel) (parse_segments format)

unfoldable pub compile_segments : Text → Result Panic CompiledSegments
compile_segments format = compile_fuel (length format + 1) format

abbrev pub Vars : Type 0
Vars = List (Text × Text)

abbrev pub dollar : ℕ
dollar = b'$'

-- `is_ascii_alphanumeric` or `_`
unfoldable pub is_name_byte : ℕ → Bool
is_name_byte c =
    leb b'0' c && leb c b'9' || leb b'A' c && leb c b'Z' || leb b'a' c && leb c b'z' || c == b'_'

-- The bytes of a name at the head of a text.
unfoldable pub name_prefix : Text → Text
name_prefix [] = []
name_prefix (c ∷ s) = let rest = name_prefix s in if is_name_byte c then c ∷ rest else []

-- `extract_var_names`: the names behind `$`. `skip` bytes of a name are still to be passed over.
unfoldable pub extract_var_names : Text → ℕ → List Text
extract_var_names [] skip = []
extract_var_names (c ∷ s) (suc skip) = extract_var_names s skip
extract_var_names (c ∷ s) zero =
    if c == dollar
    then (let var = name_prefix s in
        let rest = extract_var_names s (length var) in if is_empty var then rest else var ∷ rest)
    else extract_var_names s 0

-- `vars.iter().find(…)`
unfoldable pub find_var : Text → Vars → Option Text
find_var name [] = none
find_var name ((k, v) ∷ vars) = if eqb k name then some v else find_var name vars

abbrev replacement : Text → Option Text → Text
replacement name (some v) = v
replacement name none = dollar ∷ name

-- `substitute_vars`
unfoldable pub substitute_vars : Vars → Text → ℕ → Text
substitute_vars vars [] skip = []
substitute_vars vars (c ∷ s) (suc skip) = substitute_vars vars s skip
substitute_vars vars (c ∷ s) zero =
    let rest = substitute_vars vars s 0 in
    let beyond = substitute_vars vars s (length (name_prefix s)) in
    if c == dollar
    then if is_empty (name_prefix s)
      then c ∷ rest
      else replacement (name_prefix s) (find_var (name_prefix s) vars) ++ beyond
    else c ∷ rest

-- The variables that a tree of segments names.
unfoldable mutual
  pub segment_refs : CompiledSegment → List Text
  segment_refs (text t) = extract_var_names t 0
  segment_refs (styled content style) = collect_var_refs content
  segment_refs (conditional inner) = collect_var_refs inner

  pub collect_var_refs : CompiledSegments → List Text
  collect_var_refs nil = []
  collect_var_refs (cons s rest) = segment_refs s ++ collect_var_refs rest

abbrev is_blank : Option Text → Bool
is_blank none = true
is_blank (some v) = is_empty v

-- Every variable of the list is empty or unknown.
unfoldable pub all_empty : Vars → List Text → Bool
all_empty vars [] = true
all_empty vars (name ∷ names) = is_blank (find_var name vars) && all_empty vars names

-- `eval_segments`; `paint` is `to_ansi_style().paint(…).to_string()`, which Style/Ansi.antt makes of
-- the terminal library's operations.
module _ (paint : StyleSpec → Text → Text) where
  unfoldable mutual
    pub eval_segment : Vars → CompiledSegment → Text
    eval_segment vars (text t) = substitute_vars vars t 0
    eval_segment vars (styled content style) = paint style (eval_segments vars content)
    eval_segment vars (conditional inner) =
        if is_empty (collect_var_refs inner) || all_empty vars (collect_var_refs inner)
        then []
        else eval_segments vars inner

    pub eval_segments : Vars → CompiledSegments → Text
    eval_segments vars nil = []
    eval_segments vars (cons s rest) = eval_segment vars s ++ eval_segments vars rest
