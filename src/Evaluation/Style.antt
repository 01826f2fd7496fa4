-- ===== src/Evaluation/Style.antt =====
-- src/contexts/evaluation/domain/style_spec.rs, style_spec/color.rs, style_spec/modifiers.rs: the
-- style texts of token formats, such as `bold fg:#ff8800`.
pub mod Ascii
pub mod Ansi
use merge_ready.Prelude.{
  ℕ, zero, suc, ◌+◌, ◌-◌, ◌*◌, ◌≤◌, Text, codes, eqb, Bool, true, false, not, ◌&&◌, ◌||◌, Option,
  none, some, List, [], ◌∷◌, ◌++◌, ◌==◌, leb, ltb, if◌then◌else◌, is_empty, length, map, Result, ok,
  err, Panic, not_a_char_boundary, ◌>>=◌, lower, to_ascii_lowercase, whitespace_len,
}

pub data NamedColor : Type 0 where
  black red green yellow blue purple cyan white : NamedColor
  bright_black bright_red bright_green bright_yellow : NamedColor
  bright_blue bright_purple bright_cyan bright_white : NamedColor

pub data ColorSpec : Type 0 where
  named : NamedColor → ColorSpec
  ansi256 : ℕ → ColorSpec
  rgb : ℕ → ℕ → ℕ → ColorSpec

pub data Modifier : Type 0 where
  bold italic underline dimmed inverted blink hidden strikethrough : Modifier

pub Modifier-discrete : Discrete Modifier
Modifier-discrete = hlevel

-- A set of flags, by its members.
abbrev pub StyleModifiers : Type 0
StyleModifiers = Modifier → Bool

pub data StyleSpec : Type 0 where
  none_style : StyleSpec
  styled : Option ColorSpec → Option ColorSpec → StyleModifiers → StyleSpec

abbrev no_modifiers : StyleModifiers
no_modifiers m = false

-- `StyleModifiers::insert`
unfoldable pub insert_modifier : Modifier → StyleModifiers → StyleModifiers
insert_modifier m set n = elim (Modifier-discrete m n) [ yes _ ↦ true | no _ ↦ set n ]

-- The first entry of a table of literals that matches: a Rust `match` on a text.
abbrev match_text {ℓ} : {A : Type ℓ} → Text → List (Text × A) → Option A
match_text s [] = none
match_text s ((t, a) ∷ rest) = if eqb s t then some a else match_text s rest

abbrev modifier_names : List (Text × Modifier)
modifier_names =
    (codes "bold", bold)
    ∷ (codes "italic", italic)
    ∷ (codes "underline", underline)
    ∷ (codes "dimmed", dimmed)
    ∷ (codes "inverted", inverted)
    ∷ (codes "blink", blink)
    ∷ (codes "hidden", hidden)
    ∷ (codes "strikethrough", strikethrough)
    ∷ []

unfoldable pub parse_token : Text → Option Modifier
parse_token s = match_text s modifier_names

abbrev color_names : List (Text × NamedColor)
color_names =
    (codes "black", black)
    ∷ (codes "red", red)
    ∷ (codes "green", green)
    ∷ (codes "yellow", yellow)
    ∷ (codes "blue", blue)
    ∷ (codes "purple", purple)
    ∷ (codes "cyan", cyan)
    ∷ (codes "white", white)
    ∷ (codes "bright-black", bright_black)
    ∷ (codes "bright-red", bright_red)
    ∷ (codes "bright-green", bright_green)
    ∷ (codes "bright-yellow", bright_yellow)
    ∷ (codes "bright-blue", bright_blue)
    ∷ (codes "bright-purple", bright_purple)
    ∷ (codes "bright-cyan", bright_cyan)
    ∷ (codes "bright-white", bright_white)
    ∷ []

unfoldable pub parse_named_color : Text → Option NamedColor
parse_named_color s = match_text s color_names

-- The value of a digit in base 16, or `none`; in base 10 the values below 10 count.
unfoldable pub digit_value : ℕ → Option ℕ
digit_value c =
    if leb b'0' c && leb c b'9'
    then some (c - b'0')
    else if leb b'a' c && leb c b'f'
    then some (c - b'a' + 10)
    else if leb b'A' c && leb c b'F'
    then some (c - b'A' + 10)
    else none

-- The digits of a `u8`: an error on another character, on a digit of no value in the base, and
-- where the number passes 255.
unfoldable pub digits_u8 : ℕ → ℕ → Text → Option ℕ
digits_u8 radix n [] = some n
digits_u8 radix n (c ∷ rest) = elim (digit_value c) [
  | none ↦ none
  | some d ↦
      if ltb d radix && leb (n * radix + d) 255 then digits_u8 radix (n * radix + d) rest else none
]

-- `u8::from_str_radix` and `str::parse::<u8>`: digits, at least one, after one optional `+`.
unfoldable pub from_str_radix : Text → ℕ → Option ℕ
from_str_radix [] radix = none
from_str_radix (c ∷ []) radix = digits_u8 radix 0 (c ∷ [])
from_str_radix (c ∷ d ∷ rest) radix =
    if c == b'+' then digits_u8 radix 0 (d ∷ rest) else digits_u8 radix 0 (c ∷ d ∷ rest)

-- A byte that goes on with a character begun before it.
unfoldable pub is_continuation : ℕ → Bool
is_continuation c = leb 128 c && ltb c 192

rgb_of : Option ℕ → Option ℕ → Option ℕ → Option ColorSpec
rgb_of (some r) (some g) (some b) = some (rgb r g b)
rgb_of _ _ _ = none

-- The three slices `hex[0..2]`, `hex[2..4]` and `hex[4..6]` of six bytes: a slice that would cut a
-- character panics, and a part that is no number ends the function before the next slice.
unfoldable pub parse_hex : ℕ → ℕ → ℕ → ℕ → ℕ → ℕ → Result Panic (Option ColorSpec)
unfolding rgb_of
parse_hex a b c d e f =
    if is_continuation c then err not_a_char_boundary else elim (from_str_radix (a ∷ b ∷ []) 16) [
      | none ↦ ok none
      | some r ↦
          if is_continuation e
          then err not_a_char_boundary
          else elim (from_str_radix (c ∷ d ∷ []) 16) [
            | none ↦ ok none
            | some g ↦ ok (rgb_of (some r) (some g) (from_str_radix (e ∷ f ∷ []) 16))
          ]
    ]

abbrev named_of : Option NamedColor → Option ColorSpec
named_of none = none
named_of (some c) = some (named c)

number_or_name : Text → Option ℕ → Option ColorSpec
number_or_name s (some n) = some (ansi256 n)
number_or_name s none = named_of (parse_named_color s)

-- `#` and six bytes are a colour in hexadecimal; else a number up to 255; else a name.
unfoldable pub parse_color_value : Text → Result Panic (Option ColorSpec)
unfolding number_or_name
parse_color_value (h ∷ a ∷ b ∷ c ∷ d ∷ e ∷ f ∷ []) =
    if h == b'#'
    then parse_hex a b c d e f
    else ok (
        number_or_name (h ∷ a ∷ b ∷ c ∷ d ∷ e ∷ f ∷ [])
          (from_str_radix (h ∷ a ∷ b ∷ c ∷ d ∷ e ∷ f ∷ []) 10))
parse_color_value s = ok (number_or_name s (from_str_radix s 10))

abbrev pub flush_word : Text → List Text → List Text
flush_word [] rest = rest
flush_word (c ∷ w) rest = (c ∷ w) ∷ rest

-- `split_whitespace`: `skip` bytes of white space are still to be passed over, and `word` is the
-- word so far.
unfoldable pub split_words : Text → ℕ → Text → List Text
split_words [] skip word = flush_word word []
split_words (c ∷ s) (suc skip) word = split_words s skip word
split_words (c ∷ s) zero word = elim (whitespace_len (c ∷ s)) [
  | zero ↦ split_words s zero (word ++ c ∷ [])
  | suc n ↦ flush_word word (split_words s n [])
]

unfoldable pub split_whitespace : Text → List Text
split_whitespace s = split_words s 0 []

-- `str::strip_prefix` of a text
unfoldable pub strip_text : Text → Text → Option Text
strip_text [] s = some s
strip_text (_ ∷ _) [] = none
strip_text (a ∷ p) (b ∷ s) = let rest = strip_text p s in if a == b then rest else none

abbrev pub or_keep : Option ColorSpec → Option ColorSpec → Option ColorSpec
or_keep none old = old
or_keep (some c) old = some c

-- What a token of a style does: it ends the parse, adds a flag, or sets a colour.
pub data TokenKind : Type 0 where
  stop : TokenKind
  flag : Modifier → TokenKind
  color : NamedColor → TokenKind
  foreground background : Text → TokenKind
  ignored : TokenKind

background_of : Option Text → TokenKind
background_of none = ignored
background_of (some v) = background v

foreground_of : Text → Option Text → TokenKind
unfolding background_of
foreground_of s (some v) = foreground v
foreground_of s none = background_of (strip_text (codes "bg:") s)

color_of : Text → Option NamedColor → TokenKind
unfolding foreground_of
color_of s (some c) = color c
color_of s none = foreground_of s (strip_text (codes "fg:") s)

flag_of : Text → Option Modifier → TokenKind
unfolding color_of
flag_of s (some m) = flag m
flag_of s none = color_of s (parse_named_color s)

-- The tests of the loop of `StyleSpec::parse`, in their order, on a token in lower case.
unfoldable pub classify : Text → TokenKind
unfolding flag_of
classify s = if eqb s (codes "none") then stop else flag_of s (parse_token s)

-- The loop of `StyleSpec::parse`.
unfoldable pub parse_tokens :
    List TokenKind → Option ColorSpec → Option ColorSpec → StyleModifiers → Result Panic StyleSpec
parse_tokens [] fg bg modifiers = ok (styled fg bg modifiers)
parse_tokens (stop ∷ rest) fg bg modifiers = ok none_style
parse_tokens (flag m ∷ rest) fg bg modifiers = parse_tokens rest fg bg (insert_modifier m modifiers)
parse_tokens (color c ∷ rest) fg bg modifiers = parse_tokens rest (some (named c)) bg modifiers
parse_tokens (foreground v ∷ rest) fg bg modifiers = elim (parse_color_value v) [
  | ok c ↦ parse_tokens rest (or_keep c fg) bg modifiers
  | err p ↦ err p
]
parse_tokens (background v ∷ rest) fg bg modifiers = elim (parse_color_value v) [
  | ok c ↦ parse_tokens rest fg (or_keep c bg) modifiers
  | err p ↦ err p
]
parse_tokens (ignored ∷ rest) fg bg modifiers = parse_tokens rest fg bg modifiers

abbrev pub token_kinds : Text → List TokenKind
token_kinds s = map (λ t. classify (to_ascii_lowercase t)) (split_whitespace s)

-- `StyleSpec::parse`
unfoldable pub parse : Text → Result Panic StyleSpec
parse s = parse_tokens (token_kinds s) none none no_modifiers
