-- ===== src/Daemon/Config.antt =====
-- src/contexts/daemon/infrastructure/server_config.rs: the daemon's settings, from the environment.
pub mod Defaults
use merge_ready.Prelude.{
  ℕ, Text, codes, eqb, Bool, true, false, ◌||◌, Option, none, some, if◌then◌else◌, u64_max, u32_max,
  parse_unsigned, trim, to_ascii_lowercase,
}
use merge_ready.Daemon.Policy.{RefreshPolicy}

pub record DaemonServerConfig : Type 0 where
  pub stale_ttl_secs : ℕ
  pub refresh_lock_timeout_secs : ℕ
  pub entry_max_age_secs : ℕ
  pub scheduler_tick_secs : ℕ
  pub socket_check_interval_secs : ℕ
  pub policy : RefreshPolicy
  pub rate_limit_aware : Bool
  pub rate_limit_fetch_interval_secs : ℕ

abbrev pub unwrap_or : Option ℕ → ℕ → ℕ
unwrap_or none default = default
unwrap_or (some n) default = n

-- `parse_u64` and `parse_u32`, by the largest number of the type
unfoldable pub parse_number : ℕ → Option Text → ℕ → ℕ
parse_number limit none default = default
parse_number limit (some v) default = unwrap_or (parse_unsigned limit v) default

bool_of : Text → Bool → Bool
bool_of v default =
    if eqb v (codes "0") || eqb v (codes "false") || eqb v (codes "no") || eqb v (codes "off")
    then false
    else if eqb v (codes "1") || eqb v (codes "true") || eqb v (codes "yes") || eqb v (codes "on")
    then true
    else default

unfoldable pub parse_bool : Option Text → Bool → Bool
unfolding bool_of
parse_bool none default = default
parse_bool (some v) default = bool_of (to_ascii_lowercase (trim v)) default

-- `env` is `std::env::var`.
module _ (env : Text → Option Text) where
  abbrev env_u64 : Text → ℕ → ℕ
  env_u64 key default = parse_number u64_max (env key) default

  abbrev env_u32 : Text → ℕ → ℕ
  env_u32 key default = parse_number u32_max (env key) default

  unfoldable pub policy_from_env : RefreshPolicy
  policy_from_env = record {
    hot_recent_query_secs = env_u64 (codes "MERGE_READY_HOT_RECENT_QUERY_SECS") 30;
    hot_with_query_secs = env_u64 (codes "MERGE_READY_HOT_WITH_QUERY_SECS") 2;
    hot_without_query_secs = env_u64 (codes "MERGE_READY_HOT_WITHOUT_QUERY_SECS") 10;
    warm_refresh_secs = env_u64 (codes "MERGE_READY_WARM_REFRESH_SECS") 180;
    warm_to_cold_secs = env_u64 (codes "MERGE_READY_WARM_TO_COLD_SECS") 1800;
    cold_early_secs = env_u64 (codes "MERGE_READY_COLD_EARLY_SECS") 1800;
    cold_late_secs = env_u64 (codes "MERGE_READY_COLD_LATE_SECS") 3600;
    cold_early_limit = env_u32 (codes "MERGE_READY_COLD_EARLY_LIMIT") 10;
  }

  unfoldable pub from_env : DaemonServerConfig
  from_env = record {
    stale_ttl_secs = env_u64 (codes "MERGE_READY_STALE_TTL") 5;
    refresh_lock_timeout_secs = env_u64 (codes "MERGE_READY_REFRESH_LOCK_TIMEOUT_SECS") 120;
    entry_max_age_secs = env_u64 (codes "MERGE_READY_ENTRY_MAX_AGE_SECS") 172800;
    scheduler_tick_secs = env_u64 (codes "MERGE_READY_SCHEDULER_TICK_SECS") 2;
    socket_check_interval_secs = env_u64 (codes "MERGE_READY_SOCKET_CHECK_INTERVAL_SECS") 5;
    policy = policy_from_env;
    rate_limit_aware = parse_bool (env (codes "MERGE_READY_RATE_LIMIT_AWARE")) true;
    rate_limit_fetch_interval_secs =
        env_u64 (codes "MERGE_READY_RATE_LIMIT_FETCH_INTERVAL_SECS") 60;
  }
