-- ===== src/Evaluation/CompareUrl/Encoding.antt =====
-- `encode_path_segment` can be decoded, and its result is one segment.
use merge_ready.Prelude.{
  ℕ, ◌+◌, ◌-◌, ◌*◌, ◌<◌, ◌/◌, ◌%◌, Text, Bool, true, false, ◌||◌, [], ◌∷◌, ◌==◌, leb, if◌then◌else◌,
  All, ◌≡◌, refl, ap, ◌∙◌, arith, Bool-cases, inl, inr,
}
use merge_ready.Evaluation.CompareUrl.{is_unreserved, hex_upper, percent, encode_path_segment}

-- The value of a digit in upper case, and of a text in which `%` and two digits stand for a byte.
abbrev pub hex_value : ℕ → ℕ
hex_value c = if leb c b'9' then c - b'0' else c - b'A' + 10

abbrev pub decode : Text → Text
decode [] = []
decode (c ∷ []) = c ∷ []
decode (c ∷ d ∷ []) = c ∷ d ∷ []
decode (c ∷ d ∷ e ∷ rest) =
    let plain = decode (d ∷ e ∷ rest) in
    let coded = decode rest in
    if c == percent then (hex_value d * 16 + hex_value e) ∷ coded else c ∷ plain

-- A byte that may stand in a segment.
abbrev pub is_segment_byte : ℕ → Bool
is_segment_byte c = is_unreserved c || c == percent

hex_value-hex_upper : (n : ℕ) → n < 16 → hex_value (hex_upper n) ≡ n
unfolding hex_upper
hex_value-hex_upper n h = ground arith

unreserved_not_percent : (c : ℕ) → is_unreserved c ≡ true → (c == percent) ≡ false
unfolding is_unreserved
unreserved_not_percent c h = ground arith

decode-plain : (c : ℕ) (rest : Text) → (c == percent) ≡ false → decode (c ∷ rest) ≡ c ∷ decode rest
decode-plain c [] h = refl
decode-plain c (d ∷ []) h = refl
decode-plain c (d ∷ e ∷ rest) h = rw h refl

two_digits :
    (b : ℕ) → b < 256 → hex_value (hex_upper (b / 16)) * 16 + hex_value (hex_upper (b % 16)) ≡ b
two_digits b h =
    omega (
      arith,
      hex_value-hex_upper (b / 16) (omega arith),
      hex_value-hex_upper (b % 16) (omega arith),
    )

-- Decoding the encoding of bytes gives the bytes back.
pub decode-encode_path_segment :
    (input : Text) → All (λ b. b < 256) input → decode (encode_path_segment input) ≡ input
unfolding encode_path_segment
decode-encode_path_segment [] h = refl
decode-encode_path_segment (b ∷ input) h = elim (Bool-cases (is_unreserved b)) [
  | inl kept ↦ rw kept (
      decode-plain b (encode_path_segment input) (unreserved_not_percent b kept)
      ∙ ap (λ t. b ∷ t) (decode-encode_path_segment input h.1))
  | inr coded ↦ rw coded (λ i. two_digits b h.0 i ∷ decode-encode_path_segment input h.1 i)
]

hex_upper_unreserved : (n : ℕ) → n < 16 → is_unreserved (hex_upper n) ≡ true
unfolding hex_upper is_unreserved
hex_upper_unreserved n h = ground arith

-- The encoding of bytes holds only unreserved characters and `%`.
pub encode_path_segment-bytes :
    (input : Text)
    → All (λ b. b < 256) input
    → All (λ c. is_segment_byte c ≡ true) (encode_path_segment input)
unfolding encode_path_segment
encode_path_segment-bytes [] h = tt
encode_path_segment-bytes (b ∷ input) h = elim (Bool-cases (is_unreserved b)) [
  | inl kept ↦ rw kept (ground arith, encode_path_segment-bytes input h.1)
  | inr coded ↦ rw coded (
    ground (arith),
    (
      ground (arith, hex_upper_unreserved (b / 16) (omega (arith, h.0))),
      (
        ground (arith, hex_upper_unreserved (b % 16) (omega arith)),
        encode_path_segment-bytes input h.1,
      ),
    ),
  )
]
