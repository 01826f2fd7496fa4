-- ===== src/Evaluation/Format/RoundTrip.antt =====
-- `parse_segments` loses nothing: printing its segments gives the format back.
use merge_ready.Prelude.{
  ℕ, zero, suc, ◌+◌, ◌<◌, ◌≡◌, ◌∙◌, refl, sym, ap, ap₂, Text, some, [], ◌∷◌, ◌++◌, ◌==◌, take, drop,
  take-append-drop, length, length-drop, length-append, Option-cases, Bool-cases, inl, inr, arith,
}
use mathlib.Core.List.{append_assoc, append-nil}
use merge_ready.Evaluation.Format.{
  Segment, Segments, text, styled, conditional, nil, cons, find, strip_prefix, Either, left, right,
  next_delimiter, style_after, paren_after, try_styled, try_conditional, flush_text_acc, parse_loop,
  parse_segments,
}

-- A format as its segments are written.
unfoldable mutual
  pub print_segment : Segment → Text
  print_segment (text t) = t
  print_segment (styled content style_str) =
      b'[' ∷ (content ++ (b']' ∷ b'(' ∷ (style_str ++ b')' ∷ [])))
  print_segment (conditional inner) = b'(' ∷ (print_segments inner ++ b')' ∷ [])

  pub print_segments : Segments → Text
  print_segments nil = []
  print_segments (cons s rest) = print_segment s ++ print_segments rest

-- A found character splits the text.
find-split :
    (c : ℕ) (s : Text) {i : ℕ}
    → find c s ≡ some i
    → (s ≡ take i s ++ c ∷ drop (suc i) s) × (i < length s)
unfolding find
find-split c [] h = cc
find-split c (a ∷ s) {i} h = elim (Bool-cases (a == c)) [
  | inl here ↦
      let at : i ≡ 0 = ground arith in
      let same : a ≡ c = ground arith in rw (at, same) (refl, omega arith)
  | inr there ↦ elim (Option-cases (find c s)) [
    | inl missing ↦ absurd (ground arith)
    | inr (k, found) ↦
        let at : i ≡ suc k = ground arith in
        let (split, fits) = find-split c s found in rw at (ap (λ t. a ∷ t) split, omega arith)
  ]
]

strip_prefix-eq : (c : ℕ) (s t : Text) → strip_prefix c s ≡ some t → s ≡ c ∷ t
unfolding strip_prefix
strip_prefix-eq c [] t h = cc
strip_prefix-eq c (a ∷ s) t h = ground arith

style_after-split :
    (content after_paren : Text) {co st re : Text}
    → style_after content after_paren (find b')' after_paren) ≡ some (co, st, re)
    → (co ≡ content) × (after_paren ≡ st ++ b')' ∷ re)
unfolding style_after
style_after-split content ap {co} {st} {re} h = elim (Option-cases (find b')' ap)) [
  | inl missing ↦ absurd (ground arith)
  | inr (i, found) ↦
      let (split, fits) = find-split b')' ap found in
      let parts : (co ≡ content) × (take i ap ≡ st) × (drop (suc i) ap ≡ re) = ground arith in
      (parts.0, split ∙ ap₂ (λ (x y : Text). x ++ b')' ∷ y) parts.1 parts.2)
]

paren_after-split :
    (content s : Text) {co st re : Text}
    → paren_after content (strip_prefix b'(' s) ≡ some (co, st, re)
    → (co ≡ content) × (s ≡ b'(' ∷ (st ++ b')' ∷ re))
unfolding paren_after
paren_after-split content s {co} {st} {re} h = elim (Option-cases (strip_prefix b'(' s)) [
  | inl missing ↦ absurd (ground arith)
  | inr (t, found) ↦
      let inner : style_after content t (find b')' t) ≡ some (co, st, re) = ground arith in
      let (same, split) = style_after-split content t inner in
      (same, strip_prefix-eq b'(' s t found ∙ ap (λ (x : Text). b'(' ∷ x) split)
]

try_styled-split :
    (remaining : Text) (b : ℕ) {co st re : Text}
    → try_styled remaining b ≡ some (co, st, re)
    → drop (suc b) remaining ≡ co ++ (b']' ∷ b'(' ∷ (st ++ b')' ∷ re))
unfolding try_styled
try_styled-split remaining b {co} {st} {re} h =
    elim (Option-cases (find b']' (drop (suc b) remaining))) [
      | inl missing ↦ absurd (ground arith)
      | inr (i, found) ↦
          let s = drop (suc b) remaining in
          let (split, fits) = find-split b']' s found in
          let inner : paren_after (take i s) (strip_prefix b'(' (drop (suc i) s))
              ≡ some (co, st, re) =
            ground arith in
          let (same, rest) = paren_after-split (take i s) (drop (suc i) s) inner in
          split ∙ ap₂ (λ (x y : Text). x ++ b']' ∷ y) (sym same) rest
    ]

try_conditional-split :
    (remaining : Text) (p : ℕ) {inner re : Text}
    → try_conditional remaining p ≡ some (inner, re)
    → drop (suc p) remaining ≡ inner ++ b')' ∷ re
unfolding try_conditional
try_conditional-split remaining p {inner} {re} h =
    elim (Option-cases (find b')' (drop (suc p) remaining))) [
      | inl missing ↦ absurd (ground arith)
      | inr (i, found) ↦
          let s = drop (suc p) remaining in
          let (split, fits) = find-split b')' s found in
          let parts : (take i s ≡ inner) × (drop (suc i) s ≡ re) = ground arith in
          split ∙ ap₂ (λ (x y : Text). x ++ b')' ∷ y) parts.0 parts.1
    ]

print-flush :
    (acc : Text) (rest : Segments)
    → print_segments (flush_text_acc acc rest) ≡ acc ++ print_segments rest
unfolding flush_text_acc print_segments
print-flush [] rest = refl
print-flush (c ∷ t) rest = refl

abbrev IsFoundAt : Text → Either → Type 0
IsFoundAt s (left b) = find b'[' s ≡ some b
IsFoundAt s (right p) = find b'(' s ≡ some p

-- What the next delimiter is, and where.
next_delimiter-found :
    (s : Text) (d : Either) → next_delimiter (find b'[' s) (find b'(' s) ≡ some d → IsFoundAt s d
unfolding next_delimiter
next_delimiter-found s (left b) h = ground arith
next_delimiter-found s (right p) h = ground arith

-- The text up to and with a delimiter, and the text after it.
plain_split :
    (c : ℕ) (s acc : Text) {i : ℕ}
    → find c s ≡ some i
    → (acc ++ take (suc i) s) ++ drop (suc i) s ≡ acc ++ s
plain_split c s acc {i} found =
    append_assoc acc (take (suc i) s) (drop (suc i) s)
    ∙ ap (λ t. acc ++ t) (take-append-drop (suc i) s)

-- The text before a delimiter, and what stands for the rest.
cut_split :
    (c : ℕ) (s acc after : Text) {i : ℕ}
    → find c s ≡ some i
    → drop (suc i) s ≡ after
    → (acc ++ take i s) ++ (c ∷ after) ≡ acc ++ s
cut_split c s acc after {i} found e =
    append_assoc acc (take i s) (c ∷ after)
    ∙ ap (λ t. acc ++ t) (ap (λ t. take i s ++ c ∷ t) (sym e) ∙ sym (find-split c s found).0)

styled_size : (co st re : Text) → length re < length (co ++ (b']' ∷ b'(' ∷ (st ++ b')' ∷ re)))
styled_size co st re = omega (
  arith,
  length-append {0} co (b']' ∷ b'(' ∷ (st ++ b')' ∷ re)),
  length-append {0} st (b')' ∷ re),
)

conditional_size :
    (inner re : Text)
    → (length inner < length (inner ++ b')' ∷ re)) × (length re < length (inner ++ b')' ∷ re))
conditional_size inner re = omega (arith, length-append {0} inner (b')' ∷ re))

drop_size : (s : Text) (i : ℕ) → i < length s → length (drop (suc i) s) < length s
drop_size s i h = omega (arith, length-drop {0} (suc i) s)

print_styled :
    (co st re : Text) (rest : Segments)
    → print_segments rest ≡ re
    → print_segments (cons (styled co st) rest) ≡ b'[' ∷ (co ++ (b']' ∷ b'(' ∷ (st ++ b')' ∷ re)))
unfolding print_segments
print_styled co st re rest e = rw (append_assoc, append_assoc, e) refl

print_conditional :
    (inner re : Text) (segments rest : Segments)
    → print_segments segments ≡ inner
    → print_segments rest ≡ re
    → print_segments (cons (conditional segments) rest) ≡ b'(' ∷ (inner ++ b')' ∷ re)
unfolding print_segments
print_conditional inner re segments rest e f = rw (append_assoc, e, f) refl

-- What is to be shown of the loop with some fuel.
abbrev Prints : ℕ → Type 0
Prints fuel =
    (remaining acc : Text)
    → length remaining < fuel
    → print_segments (parse_loop fuel remaining acc) ≡ acc ++ remaining

module _ (fuel : ℕ) (again : Prints fuel) (c : ℕ) (r acc : Text)
    (h : length (c ∷ r) < suc fuel) where
  -- A round whose first delimiter is a bracket.
  bracket_round :
      (b : ℕ)
      → next_delimiter (find b'[' (c ∷ r)) (find b'(' (c ∷ r)) ≡ some (left b)
      → print_segments (parse_loop (suc fuel) (c ∷ r) acc) ≡ acc ++ (c ∷ r)
  unfolding parse_loop print_segments
  bracket_round b found =
      let at = next_delimiter-found (c ∷ r) (left b) found in
      let fits = drop_size (c ∷ r) b (find-split b'[' (c ∷ r) at).1 in
      elim (Option-cases (try_styled (c ∷ r) b)) [
        | inl plain ↦
            rw (found, plain, parse_loop)
              (again (drop (suc b) (c ∷ r)) (acc ++ take (suc b) (c ∷ r)) (omega arith)
                ∙ plain_split b'[' (c ∷ r) acc at)
        | inr ((content, style_str, rest), parsed) ↦
            let split = try_styled-split (c ∷ r) b parsed in
            let small : length rest < fuel =
              omega (arith, fits, ap (length {0}) split, styled_size content style_str rest) in
            rw (found, parsed, parse_loop)
              (print-flush (acc ++ take b (c ∷ r))
                  (cons (styled content style_str) (parse_loop fuel rest []))
                ∙ ap (λ t. (acc ++ take b (c ∷ r)) ++ t)
                    (print_styled content style_str rest (parse_loop fuel rest [])
                      (again rest [] small))
                ∙ cut_split b'[' (c ∷ r) acc _ at split)
      ]

  -- A round whose first delimiter is a parenthesis.
  paren_round :
      (p : ℕ)
      → next_delimiter (find b'[' (c ∷ r)) (find b'(' (c ∷ r)) ≡ some (right p)
      → print_segments (parse_loop (suc fuel) (c ∷ r) acc) ≡ acc ++ (c ∷ r)
  unfolding parse_loop print_segments
  paren_round p found =
      let at = next_delimiter-found (c ∷ r) (right p) found in
      let fits = drop_size (c ∷ r) p (find-split b'(' (c ∷ r) at).1 in
      elim (Option-cases (try_conditional (c ∷ r) p)) [
        | inl plain ↦
            rw (found, plain, parse_loop)
              (again (drop (suc p) (c ∷ r)) (acc ++ take (suc p) (c ∷ r)) (omega arith)
                ∙ plain_split b'(' (c ∷ r) acc at)
        | inr ((inner, rest), parsed) ↦
            let split = try_conditional-split (c ∷ r) p parsed in
            let sizes = conditional_size inner rest in
            let small : (length inner < fuel) × (length rest < fuel) =
              omega (arith, fits, ap (length {0}) split, sizes) in
            rw (found, parsed, parse_loop)
              (print-flush (acc ++ take p (c ∷ r))
                  (cons (conditional (parse_loop fuel inner [])) (parse_loop fuel rest []))
                ∙ ap (λ t. (acc ++ take p (c ∷ r)) ++ t)
                    (print_conditional inner rest (parse_loop fuel inner [])
                      (parse_loop fuel rest []) (again inner [] small.0) (again rest [] small.1))
                ∙ cut_split b'(' (c ∷ r) acc _ at split)
      ]

print-parse_loop : (fuel : ℕ) → Prints fuel
unfolding parse_loop print_segments
print-parse_loop zero remaining acc h = elim h [ ]
print-parse_loop (suc fuel) [] acc h = print-flush acc nil
print-parse_loop (suc fuel) (c ∷ r) acc h =
    elim (Option-cases (next_delimiter (find b'[' (c ∷ r)) (find b'(' (c ∷ r)))) [
      | inl none_found ↦
          rw (none_found, parse_loop) (print-flush (acc ++ c ∷ r) nil ∙ append-nil (acc ++ c ∷ r))
      | inr (left b, found) ↦ bracket_round fuel (print-parse_loop fuel) c r acc h b found
      | inr (right p, found) ↦ paren_round fuel (print-parse_loop fuel) c r acc h p found
    ]

-- The segments of a format, written out, are the format.
pub print-parse_segments : (format : Text) → print_segments (parse_segments format) ≡ format
unfolding parse_segments
print-parse_segments format = print-parse_loop (length format + 1) format [] (omega arith)
