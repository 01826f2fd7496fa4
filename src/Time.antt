-- ===== src/Time.antt =====
-- `std::time`: an `Instant`, a `SystemTime` and a `Duration` are numbers of nanoseconds, the first
-- two counted from the earliest value that the platform represents.
use merge_ready.Prelude.{ℕ, ◌-◌, ◌*◌, ◌/◌, ◌≤◌, Option, none, some, leb, if◌then◌else◌, arith}

abbrev pub Instant : Type 0
Instant = ℕ

abbrev pub SystemTime : Type 0
SystemTime = ℕ

abbrev pub Duration : Type 0
Duration = ℕ

abbrev pub nanos_per_sec : ℕ
nanos_per_sec = 1000000000

abbrev pub from_secs : ℕ → Duration
from_secs s = s * nanos_per_sec

abbrev pub as_secs : Duration → ℕ
as_secs d = d / nanos_per_sec

-- `Instant::saturating_duration_since`: `-` stops at 0, as it does there.
abbrev pub saturating_duration_since : Instant → Instant → Duration
saturating_duration_since now t = now - t

-- `Instant::checked_sub`
abbrev pub checked_sub : Instant → Duration → Option Instant
checked_sub now d = if leb d now then some (now - d) else none

-- `SystemTime::duration_since`, its error as `none`
abbrev pub duration_since : SystemTime → SystemTime → Option Duration
duration_since later earlier = if leb earlier later then some (later - earlier) else none

-- The Unix epoch on a platform that counts seconds by an `i64`.
abbrev pub unix_epoch : SystemTime
unix_epoch = 9223372036854775808 * nanos_per_sec

-- Whole seconds never decrease with the duration.
pub as_secs_mono : (a b : Duration) → a ≤ b → as_secs a ≤ as_secs b
as_secs_mono a b h = omega arith
