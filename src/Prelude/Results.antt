-- ===== src/Prelude/Results.antt =====
-- Rust's `Result`.
use mathlib.Core.List.{List, [], ◌∷◌}

pub data Result (E A : Type 0) : Type 0 where
  ok : A → Result E A
  err : E → Result E A

module _ {E A B : Type 0} where
  infixl 5 ◌>>=◌
  abbrev pub ◌>>=◌ : Result E A → (A → Result E B) → Result E B
  ok a >>= f = f a
  err e >>= f = err e

abbrev pub map_err : {E F A : Type 0} → (E → F) → Result E A → Result F A
map_err f (ok a) = ok a
map_err f (err e) = err (f e)

-- `collect()` into a `Result`: the first error, or all the values.
unfoldable pub collect : {E A : Type 0} → List (Result E A) → Result E (List A)
collect [] = ok []
collect (err e ∷ rest) = err e
collect (ok a ∷ rest) = collect rest >>= (λ as'. ok (a ∷ as'))

-- A panic of the program, as the error of a result.
pub data Panic : Type 0 where
  not_a_char_boundary : Panic
