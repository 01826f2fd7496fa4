-- ===== src/Prelude/Texts.antt =====
-- Rust's `String` and `&str` as their UTF-8 bytes.
use Prim.Native.Nat.{ℕ}
use Prim.Native.Char.{code}
use Prim.Native.String.{String}
use mathlib.Core.Path.{◌≡◌, refl}
use mathlib.Core.Logic.{◌↔◌}
use mathlib.Core.Bool.{Bool, true, false, ◌&&◌, ◌||◌}
use mathlib.Core.List.{List, [], ◌∷◌}
use native.Mathlib.Omega.{arith}
use merge_ready.Prelude.Tests.{◌==◌}

abbrev pub Text : Type 0
Text = List ℕ

-- The bytes of an ASCII literal.
abbrev pub codes : String → Text
codes String.[] = []
codes (String.◌∷◌ c s) = code c ∷ codes s

unfoldable pub eqb : Text → Text → Bool
eqb [] [] = true
eqb [] (_ ∷ _) = false
eqb (_ ∷ _) [] = false
eqb (a ∷ s) (b ∷ t) = a == b && eqb s t

pub eqb_sound : (s t : Text) → eqb s t ≡ true → s ≡ t
unfolding eqb
eqb_sound [] [] h = refl
eqb_sound [] (_ ∷ _) h = cc
eqb_sound (_ ∷ _) [] h = cc
eqb_sound (a ∷ s) (b ∷ t) h = ground (arith, eqb_sound s t)

pub eqb_refl : (s : Text) → eqb s s ≡ true
unfolding eqb
eqb_refl [] = refl
eqb_refl (a ∷ s) = ground (arith, eqb_refl s)

pub eqb_iff : (s t : Text) → (eqb s t ≡ true) ↔ (s ≡ t)
eqb_iff s t = (eqb_sound s t, λ e. rw e (eqb_refl t))

-- `str::starts_with` and `str::contains` of a literal
unfoldable pub starts_with : Text → Text → Bool
starts_with [] s = true
starts_with (_ ∷ _) [] = false
starts_with (a ∷ p) (b ∷ s) = let rest = starts_with p s in a == b && rest

unfoldable pub contains : Text → Text → Bool
contains p [] = starts_with p []
contains p (c ∷ s) = let later = contains p s in starts_with p (c ∷ s) || later
