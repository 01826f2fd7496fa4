-- ===== src/Daemon/Snapshot.antt =====
-- src/contexts/daemon/domain/rate_limit_snapshot.rs: what GitHub said of the remaining calls.
pub mod Bottleneck
use Prim.Native.Nat.{compare, Ordering}
use merge_ready.Prelude.{
  ℕ, ◌/◌, min, max, Bool, ◌||◌, Option, none, some, ◌==◌, if◌then◌else◌, saturating_mul,
}
use merge_ready.Time.{Instant, SystemTime, as_secs, duration_since}

-- Basis points: 10000 is 1.0.
abbrev pub ratio_scale_bp : ℕ
ratio_scale_bp = 10000

-- A resource with limit 0 has no ratio, and counts as full.
unfoldable pub ratio_bp : ℕ → ℕ → ℕ
ratio_bp remaining limit =
    if limit == 0 then ratio_scale_bp else saturating_mul remaining ratio_scale_bp / limit

-- The four counters are `u32`.
pub record RateLimitSnapshot : Type 0 where
  pub core_remaining : ℕ
  pub core_limit : ℕ
  pub graphql_remaining : ℕ
  pub graphql_limit : ℕ
  pub core_reset_at : SystemTime
  pub graphql_reset_at : SystemTime
  pub fetched_at : Instant

unfoldable pub bottleneck_reset_at : RateLimitSnapshot → SystemTime
bottleneck_reset_at s =
    elim (compare (ratio_bp s.core_remaining s.core_limit)
      (ratio_bp s.graphql_remaining s.graphql_limit)) [
        | Ordering.lt ↦ s.core_reset_at
        | Ordering.gt ↦ s.graphql_reset_at
        | Ordering.eq ↦ max s.core_reset_at s.graphql_reset_at
      ]

abbrev secs_of : Option ℕ → ℕ
secs_of none = 0
secs_of (some d) = as_secs d

-- Whole seconds until the bottleneck's reset, 0 once it has passed.
unfoldable pub secs_until_reset : RateLimitSnapshot → SystemTime → ℕ
secs_until_reset s now = secs_of (duration_since (bottleneck_reset_at s) now)

unfoldable pub is_exhausted : RateLimitSnapshot → Bool
is_exhausted s = s.core_remaining == 0 || s.graphql_remaining == 0

unfoldable pub bottleneck_ratio_bp : RateLimitSnapshot → ℕ
bottleneck_ratio_bp s =
    min (ratio_bp s.core_remaining s.core_limit) (ratio_bp s.graphql_remaining s.graphql_limit)
