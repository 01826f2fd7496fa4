-- ===== src/PromptClient/Sanitize/Safety.antt =====
-- What `sanitize_output` lets through, and that it leaves such text alone.
use merge_ready.Prelude.{
  ℕ, Bool, true, false, List, [], ◌∷◌, ◌++◌, ◌==◌, if◌then◌else◌, ◌≡◌, ◌∙◌, refl, ap, All, arith,
}
use mathlib.Core.List.{append_assoc}
use merge_ready.PromptClient.Sanitize.{
  Chars, esc, is_disallowed_control, is_final, sanitize_output, read_sequence,
}

-- A character of text, or a colour sequence `ESC [ … m` by what stands between.
pub data Piece : Type 0 where
  plain : ℕ → Piece
  colour : Chars → Piece

unfoldable pub print_pieces : List Piece → Chars
print_pieces [] = []
print_pieces (plain c ∷ ps) = c ∷ print_pieces ps
print_pieces (colour body ∷ ps) = esc ∷ b'[' ∷ (body ++ b'm' ∷ print_pieces ps)

-- A plain character is no control character; a sequence holds none that would end it before.
abbrev pub IsSafe : Piece → Type 0
IsSafe (plain c) = is_disallowed_control c ≡ false
IsSafe (colour body) = All (λ c. is_final c ≡ false) body

-- The output is made of allowed characters and whole colour sequences.
abbrev IsClean : Chars → Type 0
IsClean s = (ps : List Piece) × All IsSafe ps × (s ≡ print_pieces ps)

plain-IsClean : (c : ℕ) (s : Chars) → is_disallowed_control c ≡ false → IsClean s → IsClean (c ∷ s)
unfolding print_pieces
plain-IsClean c s h (ps, safe, e) = (plain c ∷ ps, (h, safe), ap (λ (t : Chars). c ∷ t) e)

snoc-All :
    (body : Chars) (c : ℕ)
    → All (λ d. is_final d ≡ false) body
    → is_final c ≡ false
    → All (λ d. is_final d ≡ false) (body ++ c ∷ [])
snoc-All [] c h k = (k, tt)
snoc-All (d ∷ body) c h k = (h.0, snoc-All body c h.1 k)

nothing-IsClean : IsClean []
unfolding print_pieces
nothing-IsClean = ([], tt, refl)

-- A branch on a test is clean where both of its sides are.
if-IsClean :
    (b : Bool) (s t : Chars)
    → (b ≡ true → IsClean s)
    → (b ≡ false → IsClean t)
    → IsClean (if b then s else t)
if-IsClean true s t f g = f refl
if-IsClean false s t f g = g refl

colour-IsClean :
    (body s : Chars)
    → All (λ d. is_final d ≡ false) body
    → IsClean s
    → IsClean (((esc ∷ b'[' ∷ body) ++ b'm' ∷ []) ++ s)
unfolding print_pieces
colour-IsClean body s h (ps, safe, e) = (
  colour body ∷ ps,
  (h, safe),
  append_assoc (esc ∷ b'[' ∷ body) (b'm' ∷ []) s
      ∙ ap (λ (t : Chars). esc ∷ b'[' ∷ (body ++ b'm' ∷ t)) e,
)

mutual
  unfolding sanitize_output

  sanitize_output-IsClean : (s : Chars) → IsClean (sanitize_output s)
  sanitize_output-IsClean [] = nothing-IsClean
  sanitize_output-IsClean (c ∷ []) =
      if-IsClean (c == esc) [] _ (λ _. nothing-IsClean)
        λ _.
          if-IsClean (is_disallowed_control c) [] _ (λ _. nothing-IsClean)
            λ h. plain-IsClean c [] h nothing-IsClean
  sanitize_output-IsClean (c ∷ d ∷ cs) =
      let rest = sanitize_output-IsClean (d ∷ cs) in
      let sequence = read_sequence-IsClean [] cs tt in
      if-IsClean (c == esc) _ _
        (λ _.
          if-IsClean (d == b'[') _ _ (λ h. let same : d ≡ b'[' = ground arith in rw same sequence)
            (λ _. rest))
        (λ _. if-IsClean (is_disallowed_control c) _ _ (λ _. rest) (λ h. plain-IsClean c _ h rest))

  read_sequence-IsClean :
      (body cs : Chars)
      → All (λ d. is_final d ≡ false) body
      → IsClean (read_sequence (esc ∷ b'[' ∷ body) cs)
  read_sequence-IsClean body [] h = nothing-IsClean
  read_sequence-IsClean body (sc ∷ cs) h =
      let rest = sanitize_output-IsClean cs in
      let more = λ (k : is_final sc ≡ false).
        read_sequence-IsClean (body ++ sc ∷ []) cs (snoc-All body sc h k) in
      if-IsClean (is_final sc) _ _
        (λ _.
          if-IsClean (sc == b'm') _ _
            (λ e.
              let same : sc ≡ b'm' = ground arith in
              rw same (colour-IsClean body (sanitize_output cs) h rest))
            (λ _. rest))
        more

-- Whatever the daemon sends, what is printed is made of characters that are no control characters
-- and of whole colour sequences.
pub sanitize_output-clean :
    (input : Chars) → (ps : List Piece) × All IsSafe ps × (sanitize_output input ≡ print_pieces ps)
sanitize_output-clean input = sanitize_output-IsClean input

-- The inner loop reads a sequence up to its end and keeps it.
read_sequence-colour :
    (seq body rest : Chars)
    → All (λ d. is_final d ≡ false) body
    → read_sequence seq (body ++ b'm' ∷ rest) ≡ (seq ++ (body ++ b'm' ∷ [])) ++ sanitize_output rest
unfolding sanitize_output is_final
read_sequence-colour seq [] rest h = refl
read_sequence-colour seq (c ∷ body) rest h = rw h.0 (
    read_sequence-colour (seq ++ c ∷ []) body rest h.1
    ∙ ap (λ (t : Chars). t ++ sanitize_output rest) (append_assoc seq (c ∷ []) (body ++ b'm' ∷ [])))

sanitize_output-plain :
    (c : ℕ) (rest : Chars)
    → is_disallowed_control c ≡ false
    → sanitize_output (c ∷ rest) ≡ c ∷ sanitize_output rest
unfolding sanitize_output is_disallowed_control
sanitize_output-plain c [] h = ground arith
sanitize_output-plain c (d ∷ rest) h = ground arith

-- Text of that form is printed as it is.
pub sanitize_output-print :
    (ps : List Piece) → All IsSafe ps → sanitize_output (print_pieces ps) ≡ print_pieces ps
unfolding print_pieces
sanitize_output-print [] h = unfold sanitize_output in refl
sanitize_output-print (plain c ∷ ps) h =
    sanitize_output-plain c (print_pieces ps) h.0
    ∙ ap (λ (t : Chars). c ∷ t) (sanitize_output-print ps h.1)
sanitize_output-print (colour body ∷ ps) h =
    let kept : sanitize_output (esc ∷ b'[' ∷ (body ++ b'm' ∷ print_pieces ps))
        ≡ read_sequence (esc ∷ b'[' ∷ []) (body ++ b'm' ∷ print_pieces ps) =
      unfold sanitize_output in refl in
    kept
    ∙ read_sequence-colour (esc ∷ b'[' ∷ []) body (print_pieces ps) h.0
    ∙ append_assoc (esc ∷ b'[' ∷ []) (body ++ b'm' ∷ []) (sanitize_output (print_pieces ps))
    ∙ ap (λ (t : Chars). esc ∷ b'[' ∷ t)
        (append_assoc body (b'm' ∷ []) (sanitize_output (print_pieces ps)))
    ∙ ap (λ (t : Chars). esc ∷ b'[' ∷ (body ++ b'm' ∷ t)) (sanitize_output-print ps h.1)

-- Cleaning twice is cleaning once.
pub sanitize_output_idem :
    (input : Chars) → sanitize_output (sanitize_output input) ≡ sanitize_output input
sanitize_output_idem input =
    let (ps, safe, e) = sanitize_output-IsClean input in rw e (sanitize_output-print ps safe)

-- A control character between `ESC [` and `m` is printed, a line feed or a bell as well: the inner
-- loop takes every character that does not end the sequence.
pub sanitize_output-control :
    (c : ℕ)
    → is_disallowed_control c ≡ true
    → sanitize_output (esc ∷ b'[' ∷ c ∷ b'm' ∷ []) ≡ esc ∷ b'[' ∷ c ∷ b'm' ∷ []
unfolding is_disallowed_control is_final sanitize_output
sanitize_output-control c h = ground arith
