-- ===== src/Daemon/Config/Defaults.antt =====
-- The settings that a variable of the environment gives, and those of an environment without them.
use merge_ready.Prelude.{
  ℕ, Text, codes, Option, none, some, decimal, u64_max, u32_max, parse_unsigned,
  parse_unsigned-decimal, ◌≤◌, ◌≡◌, refl, arith, parse_unsigned_bound, Option-cases, inl, inr,
}
use merge_ready.Daemon.Config.{DaemonServerConfig, parse_number, from_env, policy_from_env}

-- A number is read back from its decimal digits, whatever the default.
parse_number-decimal :
    (limit n default : ℕ)
    → n ≤ limit
    → limit ≤ u64_max
    → parse_number limit (some (decimal n)) default ≡ n
unfolding parse_number
parse_number-decimal limit n default h k = rw (parse_unsigned-decimal limit n h k) refl

-- Numbers that fit their types, and that four variables of the environment give in decimal, are the
-- settings of their names: the time to live of stale entries, the time after which a lock is given
-- up, the interval of a hot entry, and the number of early cold refreshes.
pub from_env-decimal :
    (env : Text → Option Text) (ttl timeout hot limit : ℕ)
    → env (codes "MERGE_READY_STALE_TTL") ≡ some (decimal ttl)
    → env (codes "MERGE_READY_REFRESH_LOCK_TIMEOUT_SECS") ≡ some (decimal timeout)
    → env (codes "MERGE_READY_HOT_WITH_QUERY_SECS") ≡ some (decimal hot)
    → env (codes "MERGE_READY_COLD_EARLY_LIMIT") ≡ some (decimal limit)
    → ttl ≤ u64_max
    → timeout ≤ u64_max
    → hot ≤ u64_max
    → limit ≤ u32_max
    → ((from_env env).stale_ttl_secs ≡ ttl)
      × ((from_env env).refresh_lock_timeout_secs ≡ timeout)
      × ((from_env env).policy.hot_with_query_secs ≡ hot)
      × ((from_env env).policy.cold_early_limit ≡ limit)
unfolding from_env policy_from_env
from_env-decimal env ttl timeout hot limit e1 e2 e3 e4 h1 h2 h3 h4 = (
  rw e1 (parse_number-decimal u64_max ttl 5 h1 (omega arith)),
  rw e2 (parse_number-decimal u64_max timeout 120 h2 (omega arith)),
  rw e3 (parse_number-decimal u64_max hot 2 h3 (omega arith)),
  rw e4 (parse_number-decimal u32_max limit 10 h4 (omega arith)),
)

parse_number_bound :
    (limit default : ℕ) (v : Option Text) → default ≤ limit → parse_number limit v default ≤ limit
unfolding parse_number
parse_number_bound limit default none h = h
parse_number_bound limit default (some v) h = elim (Option-cases (parse_unsigned limit v)) [
  | inl malformed ↦ rw malformed h
  | inr (n, read) ↦ rw read (parse_unsigned_bound limit v read)
]

-- Settings whose numbers fit their types.
pub record IsBounded (config : DaemonServerConfig) : Type 0 where
  pub stale_ttl : config.stale_ttl_secs ≤ u64_max
  pub refresh_lock_timeout : config.refresh_lock_timeout_secs ≤ u64_max
  pub entry_max_age : config.entry_max_age_secs ≤ u64_max
  pub scheduler_tick : config.scheduler_tick_secs ≤ u64_max
  pub socket_check_interval : config.socket_check_interval_secs ≤ u64_max
  pub hot_recent_query : config.policy.hot_recent_query_secs ≤ u64_max
  pub hot_with_query : config.policy.hot_with_query_secs ≤ u64_max
  pub hot_without_query : config.policy.hot_without_query_secs ≤ u64_max
  pub warm_refresh : config.policy.warm_refresh_secs ≤ u64_max
  pub warm_to_cold : config.policy.warm_to_cold_secs ≤ u64_max
  pub cold_early : config.policy.cold_early_secs ≤ u64_max
  pub cold_late : config.policy.cold_late_secs ≤ u64_max
  pub cold_early_limit : config.policy.cold_early_limit ≤ u32_max
  pub rate_limit_fetch_interval : config.rate_limit_fetch_interval_secs ≤ u64_max

-- In every environment each number of the settings fits its type, `u32` for the limit of early
-- cold refreshes and `u64` for the others.
pub from_env-IsBounded : (env : Text → Option Text) → IsBounded (from_env env)
unfolding from_env policy_from_env
from_env-IsBounded env = record {
  stale_ttl = parse_number_bound u64_max 5 _ (omega arith);
  refresh_lock_timeout = parse_number_bound u64_max 120 _ (omega arith);
  entry_max_age = parse_number_bound u64_max 172800 _ (omega arith);
  scheduler_tick = parse_number_bound u64_max 2 _ (omega arith);
  socket_check_interval = parse_number_bound u64_max 5 _ (omega arith);
  hot_recent_query = parse_number_bound u64_max 30 _ (omega arith);
  hot_with_query = parse_number_bound u64_max 2 _ (omega arith);
  hot_without_query = parse_number_bound u64_max 10 _ (omega arith);
  warm_refresh = parse_number_bound u64_max 180 _ (omega arith);
  warm_to_cold = parse_number_bound u64_max 1800 _ (omega arith);
  cold_early = parse_number_bound u64_max 1800 _ (omega arith);
  cold_late = parse_number_bound u64_max 3600 _ (omega arith);
  cold_early_limit = parse_number_bound u32_max 10 _ (omega arith);
  rate_limit_fetch_interval = parse_number_bound u64_max 60 _ (omega arith);
}
