-- ===== src/Prelude/Utf8.antt =====
-- The standard library's `str::chars`, the code points of a text in UTF-8, and which bytes are such
-- a text.
use Prim.Native.Nat.{ℕ, zero, suc, ◌+◌, ◌-◌, ◌*◌, ◌<◌}
use mathlib.Core.Path.{◌≡◌, refl}
use mathlib.Core.Bool.{Bool, true, false, ◌&&◌}
use mathlib.Core.Option.{Option, none, some}
use mathlib.Core.List.{List, [], ◌∷◌}
use native.Mathlib.Omega.{arith}
use merge_ready.Prelude.Tests.{leb, ltb, ◌==◌, if◌then◌else◌}
use merge_ready.Prelude.Lists.{All}
use merge_ready.Prelude.Texts.{Text}

-- `more` bytes of a character are still to come, and `bits` are those read so far.
unfoldable pub chars_from : ℕ → ℕ → Text → List ℕ
chars_from more bits [] = []
chars_from zero bits (b ∷ s) =
    let ascii = b ∷ chars_from zero 0 s in
    let two = chars_from 1 (b - 192) s in
    let three = chars_from 2 (b - 224) s in
    let four = chars_from 3 (b - 240) s in
    if ltb b 128 then ascii else if ltb b 224 then two else if ltb b 240 then three else four
chars_from (suc zero) bits (b ∷ s) = (bits * 64 + (b - 128)) ∷ chars_from zero 0 s
chars_from (suc (suc more)) bits (b ∷ s) = chars_from (suc more) (bits * 64 + (b - 128)) s

unfoldable pub chars : Text → List ℕ
unfolding chars_from
chars s = chars_from zero 0 s

-- A text in ASCII is the list of its characters.
pub chars-ascii : (s : Text) → All (λ b. b < 128) s → chars s ≡ s
unfolding chars
chars-ascii [] h = refl
chars-ascii (b ∷ s) h = ground (arith, h, chars-ascii s h.1)

-- How many bytes follow the first one of a character, and the range of the next.
follow : ℕ → Option (ℕ × ℕ × ℕ)
follow b =
    if ltb b 128
    then some (0, 0, 0)
    else if leb 0xc2 b && leb b 0xdf
    then some (1, 0x80, 0xbf)
    else if b == 0xe0
    then some (2, 0xa0, 0xbf)
    else if b == 0xed
    then some (2, 0x80, 0x9f)
    else if leb 0xe1 b && leb b 0xef
    then some (2, 0x80, 0xbf)
    else if b == 0xf0
    then some (3, 0x90, 0xbf)
    else if leb 0xf1 b && leb b 0xf3
    then some (3, 0x80, 0xbf)
    else if b == 0xf4
    then some (3, 0x80, 0x8f)
    else none

unfoldable pub is_utf8_from : ℕ → ℕ → ℕ → Text → Bool
unfolding follow
is_utf8_from zero lo hi [] = true
is_utf8_from (suc more) lo hi [] = false
is_utf8_from zero lo hi (b ∷ s) = elim (follow b) [
  | none ↦ false
  | some (more, low, high) ↦ is_utf8_from more low high s
]
is_utf8_from (suc more) lo hi (b ∷ s) =
    let rest = is_utf8_from more 0x80 0xbf s in if leb lo b && leb b hi then rest else false

unfoldable pub is_utf8 : Text → Bool
unfolding is_utf8_from
is_utf8 s = is_utf8_from 0 0 0 s
