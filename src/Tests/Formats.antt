-- ===== src/Tests/Formats.antt =====
-- Runs of the parsers of formats and styles.
use merge_ready.Prelude.{Text, codes, true, not, [], ◌∷◌, ◌≡◌, arith}
use merge_ready.Evaluation.Format.{parse_segments}
use merge_ready.Evaluation.Format.RoundTrip.{print_segments, print-parse_segments}
use merge_ready.Evaluation.Style.{parse, parse_color_value}
use merge_ready.Evaluation.Style.Ascii.{
  is_ok, cuts_character, parse-ascii_is_ok, parse_color_value-panics,
}
use merge_ready.Evaluation.Token.{compile_all, compile_segments}
use merge_ready.Evaluation.Token.Fuel.{compile_segments-unfold}

abbrev format : Text
format = codes "[$symbol](bold)( $pr_ids)"

print-parse_segments_example : print_segments (parse_segments format) ≡ format
print-parse_segments_example = print-parse_segments format

compile_segments-unfold_example :
    compile_segments format ≡ compile_all compile_segments (parse_segments format)
compile_segments-unfold_example = compile_segments-unfold format

parse-ascii_is_ok_example : is_ok (parse (codes "bold")) ≡ true
parse-ascii_is_ok_example =
    parse-ascii_is_ok (codes "bold") (omega arith, (omega arith, (omega arith, (omega arith, tt))))

-- `#aé123`: the third byte of six is the second of a character.
abbrev cut_color : Text
cut_color = b'#' ∷ b'a' ∷ 195 ∷ 169 ∷ b'1' ∷ b'2' ∷ b'3' ∷ []

parse_color_value-panics_example :
    is_ok (parse_color_value cut_color) ≡ not (cuts_character cut_color)
parse_color_value-panics_example = parse_color_value-panics cut_color
