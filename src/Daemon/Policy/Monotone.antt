-- ===== src/Daemon/Policy/Monotone.antt =====
-- The scaled interval grows as the quota shrinks.
use native.Mathlib.Nat.{le-div_iff_mul-le, div-mul-le_self, le_trans, le_refl}
use merge_ready.Prelude.{
  ℕ, ◌-◌, ◌/◌, ◌≤◌, ◌<◌, ◌≡◌, true, min, some, arith, saturating_mul, saturating_mul_mono,
  saturating_add_mono,
}
use merge_ready.Time.{Instant, SystemTime}
use merge_ready.Daemon.Snapshot.{
  RateLimitSnapshot, ratio_scale_bp, bottleneck_ratio_bp, secs_until_reset, is_exhausted,
}
use merge_ready.Daemon.Entry.{CacheEntryState}
use merge_ready.Daemon.Policy.{
  RefreshPolicy, reset_window_cap_secs, safety_num, scale_x10, safety_budget, bottleneck_budget,
  scaling_params, effective_mode, compute_ratio_term, compute_budget_term, scale_interval,
  effective_refresh_interval_secs, effective_refresh_interval_secs_scaled,
}
use merge_ready.Daemon.Policy.Bounds.{budget_divisor_pos, scaled}

-- A quotient grows with its dividend and shrinks as its divisor grows.
div_mono_anti : (a b c d : ℕ) → a ≤ b → d ≤ c → 0 < d → a / c ≤ b / d
div_mono_anti a b c d h k pos =
    (le-div_iff_mul-le pos).1 (le_trans (grind arith) (le_trans (div-mul-le_self a c) h))

scale_pos : 0 < saturating_mul scale_x10 ratio_scale_bp
unfolding saturating_mul
scale_pos = omega arith

ratio_term_anti :
    (base r r' alpha : ℕ)
    → r' ≤ r
    → compute_ratio_term base r alpha ≤ compute_ratio_term base r' alpha
unfolding compute_ratio_term
ratio_term_anti base r r' alpha h =
    let x = ratio_scale_bp - r in
    let x' = ratio_scale_bp - r' in
    let closer : x ≤ x' = omega arith in
    let square = saturating_mul_mono x x x' x' closer closer in
    let sq = saturating_mul x x / ratio_scale_bp in
    let sq' = saturating_mul x' x' / ratio_scale_bp in
    let squares : sq ≤ sq' = omega (arith, square) in
    let weighted = saturating_mul base alpha in
    let numer = saturating_mul_mono weighted sq weighted sq' (omega arith) squares in
    let scale = saturating_mul scale_x10 ratio_scale_bp in
    let more = div_mono_anti _ _ scale scale numer (le_refl scale) scale_pos in
    saturating_add_mono base _ base _ (le_refl base) more

safety_mono : (b b' : ℕ) → b' ≤ b → safety_budget b' ≤ safety_budget b
unfolding safety_budget
safety_mono b b' h =
    let product = saturating_mul_mono b' safety_num b safety_num h (omega arith) in
    omega (arith, product)

budget_term_mono :
    (cost cost' secs secs' budget budget' weight r r' : ℕ)
    → cost ≤ cost'
    → secs ≤ secs'
    → budget' ≤ budget
    → r' ≤ r
    → compute_budget_term cost secs budget weight r
      ≤ compute_budget_term cost' secs' budget' weight r'
unfolding compute_budget_term
budget_term_mono cost cost' secs secs' budget budget' weight r r' hc hs hb hr =
    let calls = saturating_mul_mono cost secs cost' secs' hc hs in
    let weighted = saturating_mul_mono _ weight _ weight calls (omega arith) in
    let numer =
      saturating_mul_mono _ (ratio_scale_bp - r) _ (ratio_scale_bp - r') weighted (omega arith) in
    let scaled_safety =
      saturating_mul_mono (safety_budget budget') scale_x10 (safety_budget budget) scale_x10
        (safety_mono budget budget' hb) (omega arith) in
    let denom = saturating_mul_mono _ ratio_scale_bp _ ratio_scale_bp scaled_safety (omega arith) in
    let quotient = div_mono_anti _ _ _ _ numer denom (budget_divisor_pos budget') in
    ground (arith, budget_divisor_pos budget, budget_divisor_pos budget', quotient)

-- A smaller quota: a smaller ratio, no more calls left, and no less time to the reset.
pub record IsTighter (now_wall : SystemTime) (s s' : RateLimitSnapshot) : Type 0 where
  pub ratio : bottleneck_ratio_bp s' ≤ bottleneck_ratio_bp s
  pub budget : bottleneck_budget s' ≤ bottleneck_budget s
  pub reset : secs_until_reset s now_wall ≤ secs_until_reset s' now_wall

exhausted_of_tighter :
    (s s' : RateLimitSnapshot)
    → bottleneck_budget s' ≤ bottleneck_budget s
    → is_exhausted s ≡ true
    → is_exhausted s' ≡ true
unfolding bottleneck_budget is_exhausted
exhausted_of_tighter s s' h e = ground arith

-- The scaled interval of an entry does not shorten when a round costs more calls and the snapshot is
-- a tighter one.
pub scaled_monotone :
    (p : RefreshPolicy) (e : CacheEntryState) (now : Instant) (now_wall : SystemTime)
    (cost cost' : ℕ) (s s' : RateLimitSnapshot)
    → cost ≤ cost'
    → IsTighter now_wall s s'
    → scaled p e cost now now_wall (some s) ≤ scaled p e cost' now now_wall (some s')
unfolding effective_refresh_interval_secs_scaled scale_interval
scaled_monotone p e now now_wall cost cost' s s' hc t =
    let base = effective_refresh_interval_secs p e now in
    let params = scaling_params (effective_mode p e now) in
    let secs = min (secs_until_reset s now_wall) reset_window_cap_secs in
    let secs' = min (secs_until_reset s' now_wall) reset_window_cap_secs in
    let later : secs ≤ secs' = omega (arith, t.reset) in
    ground (
      arith,
      ratio_term_anti base (bottleneck_ratio_bp s) (bottleneck_ratio_bp s') params.alpha_x10
          t.ratio,
      budget_term_mono cost cost' secs secs' (bottleneck_budget s) (bottleneck_budget s')
          params.weight_x10 (bottleneck_ratio_bp s) (bottleneck_ratio_bp s') hc later t.budget
          t.ratio,
      exhausted_of_tighter s s' t.budget,
    )
