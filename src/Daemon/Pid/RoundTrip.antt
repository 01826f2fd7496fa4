-- ===== src/Daemon/Pid/RoundTrip.antt =====
-- A pid file is read back as it was written.
use merge_ready.Prelude.{
  ℕ, zero, suc, ◌+◌, ◌/◌, ◌%◌, ◌≤◌, Text, true, some, [], ◌∷◌, All, decimal, decimal_from, is_digit,
  parse_unsigned-decimal, trim, trim_start, trim_end, is_blank, whitespace_len, is_utf8,
  is_utf8_from, u32_max, ◌≡◌, ◌∙◌, refl, ap, arith,
}
use merge_ready.Daemon.Files.{Files}
use merge_ready.Daemon.Files.Names.{get-write_self}
use merge_ready.Daemon.Pid.{parse_pid, write, read}

abbrev Digits : Text → Type 0
Digits s = All (λ c. is_digit c ≡ true) s

decimal_from-Digits : (fuel n : ℕ) (acc : Text) → Digits acc → Digits (decimal_from fuel n acc)
unfolding decimal_from
decimal_from-Digits zero n acc h = h
decimal_from-Digits (suc fuel) n acc h =
    let digit : is_digit (b'0' + n % 10) ≡ true = ground arith in
    ground (arith, decimal_from-Digits fuel (n / 10) ((b'0' + n % 10) ∷ acc) (digit, h))

whitespace_len-digit : (c : ℕ) (s : Text) → is_digit c ≡ true → whitespace_len (c ∷ s) ≡ 0
unfolding whitespace_len
whitespace_len-digit c [] h = ground arith
whitespace_len-digit c (d ∷ []) h = ground arith
whitespace_len-digit c (d ∷ e ∷ s) h = ground arith

trim_end-Digits : (s : Text) → Digits s → trim_end s ≡ s
unfolding trim_end is_blank
trim_end-Digits [] h = refl
trim_end-Digits (c ∷ s) h =
    rw (whitespace_len-digit c s h.0, is_blank) (ap (λ (t : Text). c ∷ t) (trim_end-Digits s h.1))

trim-Digits : (s : Text) → Digits s → trim s ≡ s
unfolding trim_start
trim-Digits [] h = unfold trim_end in refl
trim-Digits (c ∷ s) h = rw (whitespace_len-digit c s h.0, trim_start) (trim_end-Digits (c ∷ s) h)

is_utf8-Digits : (s : Text) (lo hi : ℕ) → Digits s → is_utf8_from 0 lo hi s ≡ true
unfolding is_utf8_from
is_utf8-Digits [] lo hi h = refl
is_utf8-Digits (c ∷ s) lo hi h = ground (arith, is_utf8-Digits s 0 0 h.1)

-- The process number that is written to the pid file is read from it.
pub read-write :
    (pid : ℕ) (path : Text) (fs : Files) → pid ≤ u32_max → read path (write pid path fs) ≡ some pid
unfolding read write parse_pid
read-write pid path fs h =
    let digits : Digits (decimal pid) = unfold decimal in decimal_from-Digits 20 pid [] tt in
    ap parse_pid (get-write_self path (decimal pid) fs)
    ∙ rw (parse_pid, utf8_digits (decimal pid) digits, trim-Digits (decimal pid) digits)
        (parse_unsigned-decimal u32_max pid h (omega arith))
  where
    utf8_digits : (s : Text) → Digits s → is_utf8 s ≡ true
    utf8_digits s d = unfold is_utf8 in is_utf8-Digits s 0 0 d
