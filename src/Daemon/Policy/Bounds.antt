-- ===== src/Daemon/Policy/Bounds.antt =====
-- Bounds of the scaled interval.
use merge_ready.Prelude.{
  ℕ, ◌-◌, ◌≤◌, ◌<◌, ◌≡◌, true, false, min, Option, none, some, arith, u64_max, saturating_add,
  saturating_mul, saturating_mul-le_max,
}
use merge_ready.Time.{Instant, SystemTime}
use merge_ready.Daemon.Snapshot.{
  RateLimitSnapshot, ratio_scale_bp, bottleneck_ratio_bp, secs_until_reset, is_exhausted,
}
use merge_ready.Daemon.Entry.{CacheEntryState}
use merge_ready.Daemon.Policy.{
  RefreshPolicy, safety_budget, compute_ratio_term, compute_budget_term, scale_interval,
  bottleneck_budget, scaling_params, effective_mode, reset_window_cap_secs,
  effective_refresh_interval_secs, effective_refresh_interval_secs_scaled,
}

-- Every field fits its type.
pub record IsInRange (p : RefreshPolicy) : Type 0 where
  pub hot_with : p.hot_with_query_secs ≤ u64_max
  pub hot_without : p.hot_without_query_secs ≤ u64_max
  pub warm_refresh : p.warm_refresh_secs ≤ u64_max
  pub cold_early : p.cold_early_secs ≤ u64_max
  pub cold_late : p.cold_late_secs ≤ u64_max

base-le_max :
    (p : RefreshPolicy) (e : CacheEntryState) (now : Instant)
    → IsInRange p
    → effective_refresh_interval_secs p e now ≤ u64_max
unfolding effective_refresh_interval_secs
base-le_max p e now h = ground arith

ratio_term-full :
    (base ratio alpha : ℕ)
    → ratio_scale_bp ≤ ratio
    → base ≤ u64_max
    → compute_ratio_term base ratio alpha ≡ base
unfolding compute_ratio_term saturating_add saturating_mul
ratio_term-full base ratio alpha h b =
    let spent : ratio_scale_bp - ratio ≡ 0 = omega arith in rw spent (omega arith)

ratio_term-le_max : (base ratio alpha : ℕ) → compute_ratio_term base ratio alpha ≤ u64_max
unfolding compute_ratio_term saturating_add
ratio_term-le_max base ratio alpha = omega arith

-- The divisor of the budget term is never 0, so its early return is never taken.
pub budget_divisor_pos :
    (budget : ℕ) → 0 < saturating_mul (saturating_mul (safety_budget budget) 10) ratio_scale_bp
unfolding safety_budget saturating_mul
budget_divisor_pos budget = omega arith

mul_zero_lem : (a : ℕ) → saturating_mul a 0 ≡ 0
unfolding saturating_mul
mul_zero_lem a = omega arith

budget_term-full :
    (cost secs budget weight ratio : ℕ)
    → ratio_scale_bp ≤ ratio
    → compute_budget_term cost secs budget weight ratio ≡ 0
unfolding compute_budget_term
budget_term-full cost secs budget weight ratio h =
    let spent : ratio_scale_bp - ratio ≡ 0 = omega arith in
    rw spent (
      ground (
        arith,
        budget_divisor_pos budget,
        mul_zero_lem (saturating_mul (saturating_mul cost secs) weight),
      ))

budget_term-le_max :
    (cost secs budget weight ratio : ℕ)
    → compute_budget_term cost secs budget weight ratio ≤ u64_max
unfolding compute_budget_term
budget_term-le_max cost secs budget weight ratio = ground (
  arith,
  saturating_mul-le_max (saturating_mul (saturating_mul cost secs) weight) (ratio_scale_bp - ratio),
  budget_divisor_pos budget,
)

module _ (p : RefreshPolicy) (e : CacheEntryState) (cost : ℕ) (now : Instant)
    (now_wall : SystemTime) where
  abbrev pub base : ℕ
  base = effective_refresh_interval_secs p e now

  abbrev pub scaled : Option RateLimitSnapshot → ℕ
  scaled snapshot = effective_refresh_interval_secs_scaled p e snapshot cost now now_wall

  scale_interval_bounds :
      (s : RateLimitSnapshot) (b : ℕ)
      → b ≤ u64_max
      → p.cold_late_secs ≤ u64_max
      → (b ≤ scale_interval p e s cost now now_wall b)
        × (scale_interval p e s cost now now_wall b ≤ u64_max)
  unfolding scale_interval
  scale_interval_bounds s b hb hc =
      let params = scaling_params (effective_mode p e now) in
      let ratio = bottleneck_ratio_bp s in
      let secs = min (secs_until_reset s now_wall) reset_window_cap_secs in
      ground (
        arith,
        ratio_term-le_max b ratio params.alpha_x10,
        budget_term-le_max cost secs (bottleneck_budget s) params.weight_x10 ratio,
      )

  cold_late-le :
      (s : RateLimitSnapshot) (b : ℕ)
      → is_exhausted s ≡ true
      → p.cold_late_secs ≤ scale_interval p e s cost now now_wall b
  unfolding scale_interval
  cold_late-le s b h = ground arith

  -- For settings that fit their types, the scaled interval fits a `u64` and is not below the plain
  -- one.
  pub scaled_bounds :
      (snapshot : Option RateLimitSnapshot)
      → IsInRange p
      → (base ≤ scaled snapshot) × (scaled snapshot ≤ u64_max)
  unfolding effective_refresh_interval_secs_scaled
  scaled_bounds none r = ground (arith, base-le_max p e now r)
  scaled_bounds (some s) r =
      let fits = base-le_max p e now r in
      ground (arith, scale_interval_bounds s base fits r.cold_late)

  -- For settings that fit their types, an interval scaled by a snapshot with an exhausted quota is
  -- not below `cold_late_secs`.
  pub scaled_exhausted :
      (s : RateLimitSnapshot)
      → IsInRange p
      → is_exhausted s ≡ true
      → p.cold_late_secs ≤ scaled (some s)
  unfolding effective_refresh_interval_secs_scaled
  scaled_exhausted s r h = ground (arith, cold_late-le s base h)

  -- For settings that fit their types, the scaled interval is the plain one without a snapshot, and
  -- for a snapshot whose bottleneck is full and that is not exhausted.
  pub scaled_full :
      (s : RateLimitSnapshot)
      → IsInRange p
      → ratio_scale_bp ≤ bottleneck_ratio_bp s
      → is_exhausted s ≡ false
      → (scaled (some s) ≡ base) × (scaled none ≡ base)
  unfolding effective_refresh_interval_secs_scaled scale_interval
  scaled_full s r full left =
      let params = scaling_params (effective_mode p e now) in
      let ratio = bottleneck_ratio_bp s in
      let secs = min (secs_until_reset s now_wall) reset_window_cap_secs in
      ground (
        arith,
        ratio_term-full base ratio params.alpha_x10 full (base-le_max p e now r),
        budget_term-full cost secs (bottleneck_budget s) params.weight_x10 ratio full,
      )
