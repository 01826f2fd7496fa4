-- ===== src/Daemon/Policy.antt =====
-- src/contexts/daemon/domain/refresh_policy.rs: how long an entry waits between two refreshes.
-- Every number is a `u64` but the two remaining-call counters and `cold_early_limit`, `u32`s;
-- the arithmetic saturates as the source's does.
pub mod Bounds
pub mod Monotone
use merge_ready.Prelude.{
  ℕ, ◌-◌, ◌/◌, min, max, Option, none, some, ltb, ◌==◌, if◌then◌else◌, saturating_add,
  saturating_mul, u64_max,
}
use merge_ready.Shared.{RefreshMode}
use merge_ready.Time.{Instant, SystemTime}
use merge_ready.Daemon.Snapshot.{
  RateLimitSnapshot, ratio_scale_bp, bottleneck_ratio_bp, secs_until_reset, is_exhausted,
}
use merge_ready.Daemon.Entry.{CacheEntryState, is_terminal}
use merge_ready.Daemon.Freshness.{has_recent_query, is_cold}

abbrev pub safety_num : ℕ
safety_num = 95

abbrev pub safety_den : ℕ
safety_den = 100

abbrev pub reset_window_cap_secs : ℕ
reset_window_cap_secs = 3600

abbrev pub scale_x10 : ℕ
scale_x10 = 10

pub data EffectiveMode : Type 0 where
  hot warm cold : EffectiveMode

pub record ScalingParams : Type 0 where
  pub alpha_x10 : ℕ
  pub weight_x10 : ℕ

unfoldable pub scaling_params : EffectiveMode → ScalingParams
scaling_params hot = record { alpha_x10 = 30; weight_x10 = 5 }
scaling_params warm = record { alpha_x10 = 70; weight_x10 = 10 }
scaling_params cold = record { alpha_x10 = 150; weight_x10 = 20 }

pub record RefreshPolicy : Type 0 where
  pub hot_recent_query_secs : ℕ
  pub hot_with_query_secs : ℕ
  pub hot_without_query_secs : ℕ
  pub warm_refresh_secs : ℕ
  pub warm_to_cold_secs : ℕ
  pub cold_early_secs : ℕ
  pub cold_late_secs : ℕ
  pub cold_early_limit : ℕ

unfoldable pub cold_interval_secs : RefreshPolicy → ℕ → ℕ
cold_interval_secs p count =
    if ltb count p.cold_early_limit then p.cold_early_secs else p.cold_late_secs

interval_of_mode : RefreshMode → RefreshPolicy → CacheEntryState → Instant → ℕ
unfolding cold_interval_secs
interval_of_mode RefreshMode.terminal p e now = u64_max
interval_of_mode RefreshMode.hot p e now =
    if has_recent_query e p.hot_recent_query_secs now
    then p.hot_with_query_secs
    else p.hot_without_query_secs
interval_of_mode RefreshMode.warm p e now =
    if has_recent_query e p.hot_recent_query_secs now
    then p.hot_with_query_secs
    else if is_cold e p.warm_to_cold_secs now
    then cold_interval_secs p e.cold_refresh_count
    else p.warm_refresh_secs

unfoldable pub effective_refresh_interval_secs : RefreshPolicy → CacheEntryState → Instant → ℕ
unfolding interval_of_mode
effective_refresh_interval_secs p e now = interval_of_mode e.refresh_mode p e now

unfoldable pub effective_ttl : RefreshPolicy → CacheEntryState → ℕ → ℕ
effective_ttl p e base_ttl = if is_terminal e.refresh_mode then p.warm_refresh_secs else base_ttl

effective_mode_of : RefreshMode → RefreshPolicy → CacheEntryState → Instant → EffectiveMode
effective_mode_of RefreshMode.terminal p e now = cold
effective_mode_of RefreshMode.hot p e now = hot
effective_mode_of RefreshMode.warm p e now =
    if has_recent_query e p.hot_recent_query_secs now
    then hot
    else if is_cold e p.warm_to_cold_secs now
    then cold
    else warm

unfoldable pub effective_mode : RefreshPolicy → CacheEntryState → Instant → EffectiveMode
unfolding effective_mode_of
effective_mode p e now = effective_mode_of e.refresh_mode p e now

unfoldable pub bottleneck_budget : RateLimitSnapshot → ℕ
bottleneck_budget s = min s.core_remaining s.graphql_remaining

unfoldable pub compute_ratio_term : ℕ → ℕ → ℕ → ℕ
compute_ratio_term base ratio_bp alpha_x10 =
    let one_minus_r = ratio_scale_bp - ratio_bp in
    let one_minus_r_sq_bp = saturating_mul one_minus_r one_minus_r / ratio_scale_bp in
    let bonus_numer = saturating_mul (saturating_mul base alpha_x10) one_minus_r_sq_bp in
    let bonus = bonus_numer / saturating_mul scale_x10 ratio_scale_bp in saturating_add base bonus

-- `safety_budget` of the source, at least 1.
unfoldable pub safety_budget : ℕ → ℕ
safety_budget budget_remaining = max (saturating_mul budget_remaining safety_num / safety_den) 1

unfoldable pub compute_budget_term : ℕ → ℕ → ℕ → ℕ → ℕ → ℕ
compute_budget_term total_cost_per_cycle secs budget_remaining weight_x10 ratio_bp =
    let safety = safety_budget budget_remaining in
    let depletion_bp = ratio_scale_bp - ratio_bp in
    let numer =
      saturating_mul (saturating_mul (saturating_mul total_cost_per_cycle secs) weight_x10)
        depletion_bp in
    let denom = saturating_mul (saturating_mul safety scale_x10) ratio_scale_bp in
    if denom == 0 then u64_max else numer / denom

-- The part of `effective_refresh_interval_secs_scaled` below its two early returns.
unfoldable pub scale_interval :
    RefreshPolicy → CacheEntryState → RateLimitSnapshot → ℕ → Instant → SystemTime → ℕ → ℕ
scale_interval p e snapshot total_cost_per_cycle now now_wall base =
    let params = scaling_params (effective_mode p e now) in
    let ratio_bp = bottleneck_ratio_bp snapshot in
    let secs = min (secs_until_reset snapshot now_wall) reset_window_cap_secs in
    let ratio_term = compute_ratio_term base ratio_bp params.alpha_x10 in
    let budget_term =
      compute_budget_term total_cost_per_cycle secs (bottleneck_budget snapshot) params.weight_x10
        ratio_bp in
    let scaled = max (max base ratio_term) budget_term in
    if is_exhausted snapshot then max scaled p.cold_late_secs else scaled

unfoldable pub effective_refresh_interval_secs_scaled :
    RefreshPolicy → CacheEntryState → Option RateLimitSnapshot → ℕ → Instant → SystemTime → ℕ
effective_refresh_interval_secs_scaled p e snapshot total_cost_per_cycle now now_wall =
    let base = effective_refresh_interval_secs p e now in
    if base == u64_max then base else elim snapshot [
      | none ↦ base
      | some s ↦ scale_interval p e s total_cost_per_cycle now now_wall base
    ]
