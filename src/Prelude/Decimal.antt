-- ===== src/Prelude/Decimal.antt =====
-- The standard library's `Display` and `FromStr` of unsigned numbers, in base 10.
use Prim.Native.Nat.{ℕ, zero, suc, ◌+◌, ◌-◌, ◌*◌, ◌/◌, ◌%◌, ◌≤◌, ◌<◌}
use mathlib.Core.Path.{◌≡◌, refl, ◌∙◌}
use mathlib.Core.Bool.{Bool, true, false, ◌&&◌}
use mathlib.Core.Option.{Option, none, some}
use mathlib.Core.List.{[], ◌∷◌}
use native.Mathlib.Omega.{arith}
use mathlib.Core.Logic.{inl, inr}
use merge_ready.Prelude.Lists.{is_empty}
use merge_ready.Prelude.Tests.{leb, ltb, ◌==◌, if◌then◌else◌, Bool-cases}
use merge_ready.Prelude.Texts.{Text}
use merge_ready.Prelude.Words.{u64_max}

-- A number in decimal, as `Display` writes it: the digits from the least, with fuel for each.
unfoldable pub decimal_from : ℕ → ℕ → Text → Text
decimal_from zero n acc = acc
decimal_from (suc fuel) n acc =
    let digit = b'0' + n % 10 in
    let rest = decimal_from fuel (n / 10) (digit ∷ acc) in if ltb n 10 then digit ∷ acc else rest

-- Twenty digits hold every `u64`.
unfoldable pub decimal : ℕ → Text
decimal n = decimal_from 20 n []

abbrev pub is_digit : ℕ → Bool
is_digit c = leb b'0' c && leb c b'9'

-- The number that begins with `n` and goes on with the digits of a text, up to `limit`.
unfoldable pub digits : ℕ → ℕ → Text → Option ℕ
digits limit n [] = some n
digits limit n (c ∷ rest) =
    let next = n * 10 + (c - b'0') in
    let more = digits limit next rest in if is_digit c && leb next limit then more else none

-- `str::parse` of an unsigned number up to `limit`: digits, at least one, after one optional `+`.
unfoldable pub parse_unsigned : ℕ → Text → Option ℕ
parse_unsigned limit [] = none
parse_unsigned limit (c ∷ []) = digits limit 0 (c ∷ [])
parse_unsigned limit (c ∷ d ∷ rest) =
    if c == b'+' then digits limit 0 (d ∷ rest) else digits limit 0 (c ∷ d ∷ rest)

abbrev pow10 : ℕ → ℕ
pow10 zero = 1
pow10 (suc k) = 10 * pow10 k

digits_step :
    (limit n m : ℕ) (acc : Text)
    → n ≤ limit
    → m ≡ n / 10
    → digits limit m ((b'0' + n % 10) ∷ acc) ≡ digits limit n acc
unfolding digits
digits_step limit n m acc h e =
    let next : m * 10 + (b'0' + n % 10 - b'0') ≡ n = omega (arith, e) in
    let digit : is_digit (b'0' + n % 10) ≡ true = ground arith in rw (next, digit) (ground arith)

digits-decimal_from :
    (limit fuel n : ℕ) (acc : Text)
    → n < pow10 fuel
    → n ≤ limit
    → digits limit 0 (decimal_from fuel n acc) ≡ digits limit n acc
unfolding decimal_from
digits-decimal_from limit zero n acc h k = rw (one_digit h) refl
  where
    one_digit : n < 1 → n ≡ 0
    one_digit small = omega (arith, small)
digits-decimal_from limit (suc fuel) n acc h k = elim (Bool-cases (ltb n 10)) [
  | inl small ↦ rw small (digits_step limit n 0 acc k (ground arith))
  | inr large ↦ rw large (
      digits-decimal_from limit fuel (n / 10) ((b'0' + n % 10) ∷ acc) (omega (arith, h))
        (omega (arith, k))
      ∙ digits_step limit n (n / 10) acc k refl)
]

-- A plus sign is no digit, so that what the digits give is what the number gives.
parse_of_digits :
    (limit n c : ℕ) (rest : Text)
    → digits limit 0 (c ∷ rest) ≡ some n
    → parse_unsigned limit (c ∷ rest) ≡ some n
unfolding digits parse_unsigned
parse_of_digits limit n c [] h = h
parse_of_digits limit n c (d ∷ rest) h = ground arith

decimal_from_nonempty :
    (fuel n c : ℕ) (acc : Text) → is_empty (decimal_from fuel n (c ∷ acc)) ≡ false
unfolding decimal_from
decimal_from_nonempty zero n c acc = refl
decimal_from_nonempty (suc fuel) n c acc =
    ground (arith, decimal_from_nonempty fuel (n / 10) (b'0' + n % 10) (c ∷ acc))

parse_of_nonempty :
    (limit n : ℕ) (s : Text)
    → is_empty s ≡ false
    → digits limit 0 s ≡ some n
    → parse_unsigned limit s ≡ some n
parse_of_nonempty limit n [] h k = cc
parse_of_nonempty limit n (c ∷ s) h k = parse_of_digits limit n c s k

decimal_nonempty : (n : ℕ) → is_empty (decimal n) ≡ false
unfolding decimal decimal_from
decimal_nonempty n = ground (arith, decimal_from_nonempty 19 (n / 10) (b'0' + n % 10) [])

-- A `u64` is read back from its decimal digits.
pub parse_unsigned-decimal :
    (limit n : ℕ) → n ≤ limit → limit ≤ u64_max → parse_unsigned limit (decimal n) ≡ some n
unfolding decimal digits
parse_unsigned-decimal limit n h k =
    parse_of_nonempty limit n (decimal n) (decimal_nonempty n)
      (digits-decimal_from limit 20 n [] (omega arith) h)

digits_bound : (limit n : ℕ) (s : Text) {m : ℕ} → n ≤ limit → digits limit n s ≡ some m → m ≤ limit
unfolding digits
digits_bound limit n [] h e = ground arith
digits_bound limit n (c ∷ s) {m} h e =
    ground (arith, digits_bound limit (n * 10 + (c - b'0')) s {m = m})

-- What is read fits its type.
pub parse_unsigned_bound :
    (limit : ℕ) (s : Text) {m : ℕ} → parse_unsigned limit s ≡ some m → m ≤ limit
unfolding parse_unsigned
parse_unsigned_bound limit [] e = cc
parse_unsigned_bound limit (c ∷ []) e = digits_bound limit 0 (c ∷ []) (omega arith) e
parse_unsigned_bound limit (c ∷ d ∷ rest) {m = m} e =
    ground
      (arith, digits_bound limit 0 (d ∷ rest) {m = m}, digits_bound limit 0 (c ∷ d ∷ rest) {m = m})
