-- ===== src/Evaluation/Style/Ascii.antt =====
-- src/contexts/evaluation/domain/style_spec.rs: which styles cut a character, and so panic.
use merge_ready.Prelude.{
  ℕ, zero, suc, ◌<◌, Text, codes, eqb, Bool, true, false, not, ◌&&◌, ◌||◌, Option, none, some, List,
  [], ◌∷◌, ◌++◌, ◌==◌, if◌then◌else◌, map, Result, ok, err, whitespace_len, to_ascii_lowercase,
  lower, ◌≡◌, refl, arith, All, All-append, is_some, inl, inr, ◌⊎◌, ap, ◌∙◌,
}
use merge_ready.Evaluation.Style.{
  NamedColor, ColorSpec, Modifier, StyleModifiers, from_str_radix, is_continuation, parse_hex,
  parse_color_value, split_words, split_whitespace, strip_text, classify, parse_tokens, parse,
  flush_word, TokenKind, stop, flag, color, foreground, background, ignored, flag_of, color_of,
  foreground_of, background_of, parse_token, parse_named_color, token_kinds, or_keep,
}

abbrev pub is_ok : {E A : Type 0} → Result E A → Bool
is_ok (ok a) = true
is_ok (err e) = false

Result-cases : {E A : Type 0} (r : Result E A) → ((a : A) × (r ≡ ok a)) ⊎ ((e : E) × (r ≡ err e))
Result-cases (ok a) = inl (a, refl)
Result-cases (err e) = inr (e, refl)

-- A text of ASCII characters.
abbrev pub IsAscii : Text → Type 0
IsAscii = All (λ c. c < 128)

abbrev IsAsciiKind : TokenKind → Type 0
IsAsciiKind (foreground v) = IsAscii v
IsAsciiKind (background v) = IsAscii v
IsAsciiKind _ = Unit

-- Whether a colour is cut: a `#` and six bytes, of which the third goes on with a character, or the
-- fifth does and the first two are a number.
pub cuts_character : Text → Bool
cuts_character (h ∷ a ∷ b ∷ c ∷ d ∷ e ∷ f ∷ []) =
    h == b'#'
    && (is_continuation c || is_some (from_str_radix (a ∷ b ∷ []) 16) && is_continuation e)
cuts_character _ = false

-- `parse_color_value` panics on a `#` and six bytes that its slices cut, and on no other text.
pub parse_color_value-panics : (s : Text) → is_ok (parse_color_value s) ≡ not (cuts_character s)
unfolding parse_color_value parse_hex cuts_character
parse_color_value-panics (h ∷ a ∷ b ∷ c ∷ d ∷ e ∷ f ∷ []) = ground arith
parse_color_value-panics _ = refl

-- No byte of an ASCII text goes on with a character.
ascii_not_cut : (s : Text) → IsAscii s → cuts_character s ≡ false
unfolding cuts_character is_continuation
ascii_not_cut (h ∷ a ∷ b ∷ c ∷ d ∷ e ∷ f ∷ []) p = ground (arith, p.1.1.1.0, p.1.1.1.1.1.0)
ascii_not_cut _ p = refl

IsAscii-lower : (s : Text) → IsAscii s → IsAscii (to_ascii_lowercase s)
unfolding to_ascii_lowercase
IsAscii-lower [] p = tt
IsAscii-lower (c ∷ s) p = (lower_bound c p.0, IsAscii-lower s p.1)
  where
    lower_bound : (b : ℕ) → b < 128 → lower b < 128
    lower_bound b h = ground arith

IsAscii-flush :
    (word : Text) (rest : List Text)
    → IsAscii word
    → All IsAscii rest
    → All IsAscii (flush_word word rest)
IsAscii-flush [] rest p q = q
IsAscii-flush (c ∷ word) rest p q = (p, q)

IsAscii-split_words :
    (s : Text) (skip : ℕ) (word : Text)
    → IsAscii s
    → IsAscii word
    → All IsAscii (split_words s skip word)
unfolding split_words
IsAscii-split_words [] skip word p q = IsAscii-flush word [] q tt
IsAscii-split_words (c ∷ s) (suc skip) word p q = IsAscii-split_words s skip word p.1 q
IsAscii-split_words (c ∷ s) zero word p q =
    elim (whitespace_len (c ∷ s))
      as (λ n. All IsAscii (elim n [
        | zero ↦ split_words s zero (word ++ c ∷ [])
        | suc n ↦ flush_word word (split_words s n [])
      ])) [
        | zero ↦
            IsAscii-split_words s zero (word ++ c ∷ []) p.1 (All-append _ word (c ∷ []) q (p.0, tt))
        | suc n ↦ IsAscii-flush word _ q (IsAscii-split_words s n [] p.1 tt)
      ]

-- What is left of an ASCII text behind a prefix.
IsAsciiRest : Option Text → Type 0
IsAsciiRest none = Unit
IsAsciiRest (some v) = IsAscii v

IsAscii-strip_text : (prefix s : Text) → IsAscii s → IsAsciiRest (strip_text prefix s)
unfolding strip_text IsAsciiRest
IsAscii-strip_text [] s p = p
IsAscii-strip_text (a ∷ prefix) [] p = tt
IsAscii-strip_text (a ∷ prefix) (b ∷ s) p =
    elim (a == b) as (λ t. IsAsciiRest (if t then strip_text prefix s else none)) [
      | true ↦ IsAscii-strip_text prefix s p.1
      | false ↦ tt
    ]

background_IsAscii : (v : Option Text) → IsAsciiRest v → IsAsciiKind (background_of v)
unfolding background_of IsAsciiRest
background_IsAscii none p = tt
background_IsAscii (some v) p = p

foreground_IsAscii :
    (s : Text) (v : Option Text) → IsAscii s → IsAsciiRest v → IsAsciiKind (foreground_of s v)
unfolding foreground_of IsAsciiRest
foreground_IsAscii s none p q = background_IsAscii _ (IsAscii-strip_text (codes "bg:") s p)
foreground_IsAscii s (some v) p q = q

color_IsAscii : (s : Text) (c : Option NamedColor) → IsAscii s → IsAsciiKind (color_of s c)
unfolding color_of
color_IsAscii s none p = foreground_IsAscii s _ p (IsAscii-strip_text (codes "fg:") s p)
color_IsAscii s (some c) p = tt

flag_IsAscii : (s : Text) (m : Option Modifier) → IsAscii s → IsAsciiKind (flag_of s m)
unfolding flag_of
flag_IsAscii s none p = color_IsAscii s (parse_named_color s) p
flag_IsAscii s (some m) p = tt

classify-IsAscii : (s : Text) → IsAscii s → IsAsciiKind (classify s)
unfolding classify
classify-IsAscii s p =
    elim (eqb s (codes "none"))
      as (λ t. IsAsciiKind (if t then stop else flag_of s (parse_token s))) [
        | true ↦ tt
        | false ↦ flag_IsAscii s (parse_token s) p
      ]

kinds-IsAscii :
    (words : List Text)
    → All IsAscii words
    → All IsAsciiKind (map (λ t. classify (to_ascii_lowercase t)) words)
kinds-IsAscii [] p = tt
kinds-IsAscii (w ∷ words) p =
    (classify-IsAscii (to_ascii_lowercase w) (IsAscii-lower w p.0), kinds-IsAscii words p.1)

color_ok : (v : Text) → IsAscii v → is_ok (parse_color_value v) ≡ true
color_ok v p = parse_color_value-panics v ∙ ap not (ascii_not_cut v p)

parse_tokens_ok :
    (kinds : List TokenKind) (fg bg : Option ColorSpec) (modifiers : StyleModifiers)
    → All IsAsciiKind kinds
    → is_ok (parse_tokens kinds fg bg modifiers) ≡ true
unfolding parse_tokens
parse_tokens_ok [] fg bg modifiers p = refl
parse_tokens_ok (stop ∷ rest) fg bg modifiers p = refl
parse_tokens_ok (flag m ∷ rest) fg bg modifiers p = parse_tokens_ok rest fg bg _ p.1
parse_tokens_ok (color c ∷ rest) fg bg modifiers p = parse_tokens_ok rest _ bg modifiers p.1
parse_tokens_ok (ignored ∷ rest) fg bg modifiers p = parse_tokens_ok rest fg bg modifiers p.1
parse_tokens_ok (foreground v ∷ rest) fg bg modifiers p =
    elim (Result-cases (parse_color_value v)) [
      | inl (c, e) ↦ rw (e, is_ok) (parse_tokens_ok rest (or_keep c fg) bg modifiers p.1)
      | inr (x, e) ↦ absurd (ground (arith, color_ok v p.0))
    ]
parse_tokens_ok (background v ∷ rest) fg bg modifiers p =
    elim (Result-cases (parse_color_value v)) [
      | inl (c, e) ↦ rw (e, is_ok) (parse_tokens_ok rest fg (or_keep c bg) modifiers p.1)
      | inr (x, e) ↦ absurd (ground (arith, color_ok v p.0))
    ]

-- The parse of a style of ASCII characters does not panic.
pub parse-ascii_is_ok : (s : Text) → IsAscii s → is_ok (parse s) ≡ true
unfolding parse split_whitespace
parse-ascii_is_ok s p =
    parse_tokens_ok (token_kinds s) none none _
      (kinds-IsAscii (split_whitespace s) (IsAscii-split_words s 0 [] p tt))
