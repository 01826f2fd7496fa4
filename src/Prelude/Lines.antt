-- ===== src/Prelude/Lines.antt =====
-- Lines of a text: the standard library's `contains(&b'\n')`, `split` at newlines and `read_line`.
use mathlib.Core.Path.{◌≡◌, refl}
use mathlib.Core.Bool.{Bool, true, false, ◌||◌}
use mathlib.Core.List.{[], ◌∷◌, ◌++◌}
use native.Mathlib.Omega.{arith}
use merge_ready.Prelude.Tests.{◌==◌, if◌then◌else◌}
use merge_ready.Prelude.Lists.{any}
use merge_ready.Prelude.Texts.{Text}

-- `contains(&b'\n')`
unfoldable pub has_newline : Text → Bool
has_newline s = any (λ c. c == 10) s

-- The first part of `split(|&b| b == b'\n')`.
unfoldable pub first_line : Text → Text
first_line [] = []
first_line (c ∷ s) = let rest = first_line s in if c == 10 then [] else c ∷ rest

-- What `read_line` takes: all up to the first newline and with it.
unfoldable pub line_of : Text → Text
line_of [] = []
line_of (c ∷ s) = let rest = line_of s in if c == 10 then c ∷ [] else c ∷ rest

pub has_newline-append : (s t : Text) → has_newline (s ++ t) ≡ (has_newline s || has_newline t)
unfolding has_newline
has_newline-append [] t = refl
has_newline-append (c ∷ s) t = ground (arith, has_newline-append s t)

-- What follows the first newline does not count.
pub first_line-append : (s t : Text) → has_newline s ≡ true → first_line (s ++ t) ≡ first_line s
unfolding has_newline first_line
first_line-append [] t h = cc
first_line-append (c ∷ s) t h = ground (arith, first_line-append s t)

-- A line with its newline is read as the line.
pub first_line-line : (s t : Text) → has_newline s ≡ false → first_line (s ++ 10 ∷ t) ≡ s
unfolding has_newline first_line
first_line-line [] t h = refl
first_line-line (c ∷ s) t h = ground (arith, first_line-line s t)

pub line_of-line : (s t : Text) → has_newline s ≡ false → line_of (s ++ 10 ∷ t) ≡ s ++ 10 ∷ []
unfolding has_newline line_of
line_of-line [] t h = refl
line_of-line (c ∷ s) t h = ground (arith, line_of-line s t)
