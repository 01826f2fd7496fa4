-- ===== src/Prelude/Whitespace.antt =====
-- The standard library's `to_ascii_lowercase`, `char::is_whitespace` and `trim`, on UTF-8 bytes.
use Prim.Native.Nat.{ℕ, zero, suc, ◌+◌}
use mathlib.Core.Bool.{Bool, true, false, ◌&&◌, ◌||◌}
use mathlib.Core.List.{[], ◌∷◌, map}
use merge_ready.Prelude.Tests.{leb, ◌==◌, if◌then◌else◌}
use merge_ready.Prelude.Texts.{Text}

abbrev pub lower : ℕ → ℕ
lower c = if leb b'A' c && leb c b'Z' then c + 32 else c

unfoldable pub to_ascii_lowercase : Text → Text
to_ascii_lowercase = map lower

-- How many bytes the white space at the head of a text takes, 0 if there is none: the characters
-- of `char::is_whitespace`.
unfoldable pub whitespace_len : Text → ℕ
whitespace_len (a ∷ b ∷ c ∷ _) =
    if a == 32 || leb 9 a && leb a 13
    then 1
    else if a == 194 && (b == 133 || b == 160)
    then 2
    else if a == 225 && b == 154 && c == 128
        || a == 226 && b == 128 && (leb 128 c && leb c 138 || c == 168 || c == 169 || c == 175)
        || a == 226 && b == 129 && c == 159
        || a == 227 && b == 128 && c == 128
    then 3
    else 0
whitespace_len (a ∷ b ∷ []) =
    if a == 32 || leb 9 a && leb a 13
    then 1
    else if a == 194 && (b == 133 || b == 160)
    then 2
    else 0
whitespace_len (a ∷ []) = if a == 32 || leb 9 a && leb a 13 then 1 else 0
whitespace_len [] = 0

-- Whether a text is white space; `skip` bytes of a character are still to be passed over.
unfoldable pub is_blank : Text → ℕ → Bool
is_blank [] skip = true
is_blank (c ∷ s) (suc skip) = is_blank s skip
is_blank (c ∷ s) zero = elim (whitespace_len (c ∷ s)) [ zero ↦ false | suc n ↦ is_blank s n ]

unfoldable pub trim_end : Text → Text
trim_end [] = []
trim_end (c ∷ s) = let rest = trim_end s in if is_blank (c ∷ s) 0 then [] else c ∷ rest

unfoldable pub trim_start : Text → ℕ → Text
trim_start [] skip = []
trim_start (c ∷ s) (suc skip) = trim_start s skip
trim_start (c ∷ s) zero = elim (whitespace_len (c ∷ s)) [ zero ↦ c ∷ s | suc n ↦ trim_start s n ]

-- `str::trim`
abbrev pub trim : Text → Text
trim s = trim_end (trim_start s 0)
