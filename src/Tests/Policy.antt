-- ===== src/Tests/Policy.antt =====
-- Runs of the refresh policy and of the snapshot's bottleneck.
use merge_ready.Prelude.{◌≤◌, ◌≡◌, refl, some, arith, u64_max, saturating_mul, saturating_add}
use merge_ready.Daemon.Snapshot.{
  ratio_bp, bottleneck_ratio_bp, bottleneck_reset_at, secs_until_reset, is_exhausted,
}
use merge_ready.Daemon.Snapshot.Bottleneck.{graphql, ratio_of}
use merge_ready.Daemon.Freshness.{has_recent_query, is_cold, elapsed_secs}
use merge_ready.Daemon.Policy.{
  effective_refresh_interval_secs, effective_refresh_interval_secs_scaled, scale_interval,
  scaling_params, effective_mode, bottleneck_budget, compute_ratio_term, compute_budget_term,
  safety_budget,
}
use merge_ready.Daemon.Policy.Bounds.{IsInRange, base, scaled, scaled_bounds}
use merge_ready.Daemon.Policy.Monotone.{IsTighter, scaled_monotone}
use merge_ready.Tests.DaemonData.{policy, at, wall, fetched, low, lowest}

in_range : IsInRange policy
in_range = omega arith

-- A warm entry at a fiftieth of the quota: from 180 seconds to some twenty minutes.
warm_low : scaled policy fetched 3 (at 60) (wall 60) (some low) ≡ 1390
unfolding effective_refresh_interval_secs_scaled effective_refresh_interval_secs scale_interval
    scaling_params effective_mode bottleneck_budget compute_ratio_term compute_budget_term
    safety_budget has_recent_query is_cold elapsed_secs ratio_bp bottleneck_ratio_bp
    bottleneck_reset_at secs_until_reset is_exhausted saturating_mul saturating_add
warm_low = refl

scaled_bounds_example :
    (base policy fetched 3 (at 60) (wall 60) ≤ scaled policy fetched 3 (at 60) (wall 60) (some low))
    × (scaled policy fetched 3 (at 60) (wall 60) (some low) ≤ u64_max)
scaled_bounds_example = scaled_bounds policy fetched 3 (at 60) (wall 60) (some low) in_range

tighter : IsTighter (wall 60) low lowest
unfolding bottleneck_ratio_bp ratio_bp saturating_mul bottleneck_budget secs_until_reset
    bottleneck_reset_at
tighter = omega arith

scaled_monotone_example :
    scaled policy fetched 3 (at 60) (wall 60) (some low)
    ≤ scaled policy fetched 5 (at 60) (wall 60) (some lowest)
scaled_monotone_example =
    scaled_monotone policy fetched (at 60) (wall 60) 3 5 low lowest (omega arith) tighter

graphql_bottleneck : ratio_of low graphql ≡ bottleneck_ratio_bp low
unfolding bottleneck_ratio_bp ratio_bp saturating_mul
graphql_bottleneck = refl
