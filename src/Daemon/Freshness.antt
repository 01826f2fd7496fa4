-- ===== src/Daemon/Freshness.antt =====
-- The predicates of time at the end of src/contexts/daemon/domain/cache/transition.rs.
use merge_ready.Prelude.{ℕ, Bool, leb, is_some_and, is_none_or}
use merge_ready.Time.{Instant, Duration, as_secs, saturating_duration_since}
use merge_ready.Daemon.Entry.{CacheEntryState}

unfoldable pub elapsed_secs : Instant → Instant → ℕ
elapsed_secs t now = as_secs (saturating_duration_since now t)

unfoldable pub is_fresh : CacheEntryState → ℕ → Instant → Bool
is_fresh s ttl now = leb (elapsed_secs s.fetched_at now) ttl

unfoldable pub is_expired : CacheEntryState → ℕ → Instant → Bool
is_expired s max_age_secs now =
    is_some_and s.last_queried_at (λ t. leb max_age_secs (elapsed_secs t now))

unfoldable pub is_cold : CacheEntryState → ℕ → Instant → Bool
is_cold s warm_to_cold_secs now =
    is_some_and s.last_queried_at (λ t. leb warm_to_cold_secs (elapsed_secs t now))

unfoldable pub is_cold_or_never_queried : CacheEntryState → ℕ → Instant → Bool
is_cold_or_never_queried s warm_to_cold_secs now =
    is_none_or s.last_queried_at (λ t. leb warm_to_cold_secs (elapsed_secs t now))

unfoldable pub has_recent_query : CacheEntryState → ℕ → Instant → Bool
has_recent_query s recent_secs now =
    is_some_and s.last_queried_at (λ t. leb (elapsed_secs t now) recent_secs)

unfoldable pub refresh_lock_expired : CacheEntryState → ℕ → Instant → Bool
refresh_lock_expired s timeout_secs now =
    is_some_and s.refresh_started_at (λ t. leb timeout_secs (elapsed_secs t now))

unfoldable pub fetched_at_elapsed : CacheEntryState → Instant → Duration
fetched_at_elapsed s now = saturating_duration_since now s.fetched_at
