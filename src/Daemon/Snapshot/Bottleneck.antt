-- ===== src/Daemon/Snapshot/Bottleneck.antt =====
-- The bottleneck of a snapshot, and its reset.
use native.Mathlib.Nat.{div-le_of_le-mul}
use merge_ready.Prelude.{ℕ, ◌*◌, ◌/◌, ◌≤◌, ◌<◌, ◌≡◌, ◌⊎◌, arith, saturating_mul, u32_max}
use merge_ready.Time.{SystemTime}
use merge_ready.Daemon.Snapshot.{
  RateLimitSnapshot, ratio_scale_bp, ratio_bp, bottleneck_reset_at, bottleneck_ratio_bp,
}

-- The two quotas of a snapshot.
pub data Resource : Type 0 where
  core graphql : Resource

abbrev pub ratio_of : RateLimitSnapshot → Resource → ℕ
ratio_of s core = ratio_bp s.core_remaining s.core_limit
ratio_of s graphql = ratio_bp s.graphql_remaining s.graphql_limit

abbrev pub reset_of : RateLimitSnapshot → Resource → SystemTime
reset_of s core = s.core_reset_at
reset_of s graphql = s.graphql_reset_at

-- For a resource at the bottleneck's ratio, the reset that is adopted is not before that of the
-- resource, and it is the reset of one of the resources at that ratio.
pub bottleneck_reset_lem :
    (s : RateLimitSnapshot) (r : Resource)
    → ratio_of s r ≡ bottleneck_ratio_bp s
    → (reset_of s r ≤ bottleneck_reset_at s)
      × (((ratio_of s core ≡ bottleneck_ratio_bp s) × (bottleneck_reset_at s ≡ reset_of s core))
          ⊎ ((ratio_of s graphql ≡ bottleneck_ratio_bp s)
              × (bottleneck_reset_at s ≡ reset_of s graphql)))
unfolding bottleneck_reset_at bottleneck_ratio_bp
bottleneck_reset_lem s core h = ground arith
bottleneck_reset_lem s graphql h = ground arith

-- A ratio of two `u32`s is exact: the product is not cut off.
pub ratio_bp-exact :
    (remaining limit : ℕ)
    → remaining ≤ u32_max
    → 0 < limit
    → ratio_bp remaining limit ≡ remaining * ratio_scale_bp / limit
unfolding ratio_bp saturating_mul
ratio_bp-exact remaining limit h l = ground arith

pub ratio_bp-le_scale :
    (remaining limit : ℕ) → remaining ≤ limit → ratio_bp remaining limit ≤ ratio_scale_bp
unfolding ratio_bp saturating_mul
ratio_bp-le_scale remaining limit h = ground (
  arith,
  div-le_of_le-mul limit {m = saturating_mul remaining ratio_scale_bp} {n = ratio_scale_bp}
      (omega arith),
)

pub ratio_bp_zero : (limit : ℕ) → 0 < limit → ratio_bp 0 limit ≡ 0
unfolding ratio_bp saturating_mul
ratio_bp_zero limit h = ground arith
