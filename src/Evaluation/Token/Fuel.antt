-- ===== src/Evaluation/Token/Fuel.antt =====
-- src/contexts/evaluation/domain/format_parser.rs, compile_segments: the nesting of styles ends.
use merge_ready.Prelude.{
  ℕ, zero, suc, ◌+◌, ◌≤◌, ◌<◌, Text, [], ◌∷◌, ◌++◌, length, length-append, Result, ok, Panic, ◌>>=◌,
  ◌≡◌, refl, sym, ap, ap₂, ◌∙◌, arith, subst,
}
use merge_ready.Evaluation.Format.{Segment, Segments, parse_segments}
use merge_ready.Evaluation.Format.RoundTrip.{print_segment, print_segments, print-parse_segments}
use merge_ready.Evaluation.Style
use merge_ready.Evaluation.Token.{
  CompiledSegment, CompiledSegments, styled_with, cons_with, compile_segment, compile_all,
  compile_fuel, compile_segments,
}

content_size :
    (content style : Text) {bound : ℕ}
    → length (print_segment (Segment.styled content style)) ≤ bound
    → length content < bound
unfolding print_segment
content_size content style h =
    omega (arith, h, length-append content (b']' ∷ b'(' ∷ (style ++ b')' ∷ [])))

inner_size :
    (inner : Text) {bound : ℕ} → length (b'(' ∷ (inner ++ b')' ∷ [])) ≤ bound → length inner ≤ bound
inner_size inner h = omega (arith, h, length-append inner (b')' ∷ []))

module _ (f g : Text → Result Panic CompiledSegments) (bound : ℕ)
    (agree : (t : Text) → length t < bound → f t ≡ g t) where
  mutual
    unfolding compile_segment compile_all print_segment print_segments

    compile_segment_agree :
        (s : Segment) → length (print_segment s) ≤ bound → compile_segment f s ≡ compile_segment g s
    compile_segment_agree (Segment.text t) h = refl
    compile_segment_agree (Segment.styled content style) h =
        ap (λ c. styled_with c (Style.parse style)) (agree content (content_size content style h))
    compile_segment_agree (Segment.conditional inner) h =
        ap (λ c. c >>= (λ x. ok (CompiledSegment.conditional x)))
          (compile_all_agree inner (inner_size (print_segments inner) h))

    compile_all_agree :
        (s : Segments) → length (print_segments s) ≤ bound → compile_all f s ≡ compile_all g s
    compile_all_agree Segments.nil h = refl
    compile_all_agree (Segments.cons s rest) h =
        let sizes = length-append (print_segment s) (print_segments rest) in
        ap₂ cons_with (compile_segment_agree s (omega (arith, sizes)))
          (compile_all_agree rest (omega (arith, sizes)))

-- More fuel than the format is long gives the result of any other such fuel.
compile_fuel_agree :
    (n m : ℕ) (format : Text)
    → length format < n
    → length format < m
    → compile_fuel n format ≡ compile_fuel m format
unfolding compile_fuel
compile_fuel_agree zero m format h k = elim h [ ]
compile_fuel_agree (suc n) zero format h k = elim k [ ]
compile_fuel_agree (suc n) (suc m) format h k =
    compile_all_agree (compile_fuel n) (compile_fuel m) (length format)
      (λ t small. compile_fuel_agree n m t (omega (arith, small)) (omega (arith, small)))
      (parse_segments format)
      (subst (λ t. length t ≤ length format) (sym (print-parse_segments format)) (omega arith))

-- The result of compiling a format, with the fuel that `compile_segments` takes, is that of its
-- parsed segments with every styled content compiled by `compile_segments` itself.
pub compile_segments-unfold :
    (format : Text) → compile_segments format ≡ compile_all compile_segments (parse_segments format)
unfolding compile_segments compile_fuel
compile_segments-unfold format =
    compile_fuel_agree (length format + 1) (suc (length format)) format (omega arith) (omega arith)
    ∙ compile_all_agree (compile_fuel (length format)) compile_segments (length format)
        (λ t small. compile_fuel_agree (length format) (length t + 1) t small (omega arith))
        (parse_segments format)
        (subst (λ t. length t ≤ length format) (sym (print-parse_segments format)) (omega arith))
