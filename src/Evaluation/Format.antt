-- ===== src/Evaluation/Format.antt =====
-- src/contexts/evaluation/domain/format_parser.rs: the parser of token formats, such as
-- `[$symbol $label](bold green)( $pr_ids)`. Positions count bytes; the four delimiters are ASCII.
pub mod RoundTrip
use merge_ready.Prelude.{
  ℕ, zero, suc, ◌+◌, Text, Option, none, some, List, [], ◌∷◌, ◌++◌, ◌==◌, leb, if◌then◌else◌, take,
  drop, length,
}

mutual
  pub data Segment : Type 0 where
    text : Text → Segment
    styled : Text → Text → Segment
    conditional : Segments → Segment

  pub data Segments : Type 0 where
    nil : Segments
    cons : Segment → Segments → Segments

-- `str::find` of an ASCII character
unfoldable pub find : ℕ → Text → Option ℕ
find c [] = none
find c (a ∷ s) = if a == c then some 0 else elim (find c s) [ none ↦ none | some i ↦ some (suc i) ]

-- `str::strip_prefix` of an ASCII character
unfoldable pub strip_prefix : ℕ → Text → Option Text
strip_prefix c [] = none
strip_prefix c (a ∷ s) = if a == c then some s else none

pub data Either : Type 0 where
  left right : ℕ → Either

-- The delimiter that comes first.
unfoldable pub next_delimiter : Option ℕ → Option ℕ → Option Either
next_delimiter none none = none
next_delimiter (some b) none = some (left b)
next_delimiter none (some p) = some (right p)
next_delimiter (some b) (some p) = some (if leb b p then left b else right p)

-- What follows a `[` at position `b`: the content, the style and the rest, if it is `…](…)`.
style_after : Text → Text → Option ℕ → Option (Text × Text × Text)
style_after content after_paren none = none
style_after content after_paren (some close) =
    some (content, take close after_paren, drop (suc close) after_paren)

paren_after : Text → Option Text → Option (Text × Text × Text)
unfolding style_after
paren_after content none = none
paren_after content (some after_paren) = style_after content after_paren (find b')' after_paren)

bracket_after : Text → Option ℕ → Option (Text × Text × Text)
unfolding paren_after
bracket_after after_open none = none
bracket_after after_open (some close) =
    paren_after (take close after_open) (strip_prefix b'(' (drop (suc close) after_open))

unfoldable pub try_styled : Text → ℕ → Option (Text × Text × Text)
unfolding bracket_after
try_styled remaining b =
    let after_open = drop (suc b) remaining in bracket_after after_open (find b']' after_open)

-- What follows a `(` at position `p`: the inner text and the rest, if there is a `)`.
inner_after : Text → Option ℕ → Option (Text × Text)
inner_after after_paren none = none
inner_after after_paren (some close) = some (take close after_paren, drop (suc close) after_paren)

unfoldable pub try_conditional : Text → ℕ → Option (Text × Text)
unfolding inner_after
try_conditional remaining p =
    let after_paren = drop (suc p) remaining in inner_after after_paren (find b')' after_paren)

unfoldable pub flush_text_acc : Text → Segments → Segments
flush_text_acc [] rest = rest
flush_text_acc (c ∷ t) rest = cons (text (c ∷ t)) rest

-- The loop of `parse_segments`: the segments pushed from here on. Each round shortens
-- `remaining`, so that one unit of fuel for each byte and one more suffice.
unfoldable pub parse_loop : ℕ → Text → Text → Segments
parse_loop zero remaining text_acc = nil
parse_loop (suc fuel) [] text_acc = flush_text_acc text_acc nil
parse_loop (suc fuel) (c ∷ r) text_acc =
    let remaining : Text = c ∷ r in
    elim (next_delimiter (find b'[' remaining) (find b'(' remaining)) [
      | none ↦ flush_text_acc (text_acc ++ remaining) nil
      | some (left b) ↦ elim (try_styled remaining b) [
        | some (content, style_str, rest) ↦
            flush_text_acc (text_acc ++ take b remaining)
              (cons (styled content style_str) (parse_loop fuel rest []))
        | none ↦ parse_loop fuel (drop (suc b) remaining) (text_acc ++ take (suc b) remaining)
      ]
      | some (right p) ↦ elim (try_conditional remaining p) [
        | some (inner, rest) ↦
            flush_text_acc (text_acc ++ take p remaining)
              (cons (conditional (parse_loop fuel inner [])) (parse_loop fuel rest []))
        | none ↦ parse_loop fuel (drop (suc p) remaining) (text_acc ++ take (suc p) remaining)
      ]
    ]

unfoldable pub parse_segments : Text → Segments
parse_segments format = parse_loop (length format + 1) format []
