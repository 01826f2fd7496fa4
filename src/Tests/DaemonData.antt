-- ===== src/Tests/DaemonData.antt =====
-- The settings of src/contexts/daemon/infrastructure/server_config.rs, and a few entries.
use merge_ready.Prelude.{ℕ, ◌+◌, codes, Text, none, some, [], ◌∷◌}
use merge_ready.Shared.{warm}
use merge_ready.Time.{Instant, SystemTime, from_secs, unix_epoch}
use merge_ready.Daemon.Snapshot.{RateLimitSnapshot}
use merge_ready.Daemon.Entry.{CacheEntryState, loading, ready}
use merge_ready.Daemon.Policy.{RefreshPolicy}
use merge_ready.Daemon.Store.{
  CacheStore, new, QueryEvent, RefreshCompletedEvent, SchedulerTickInput, RateLimitObservedEvent,
}

abbrev pub policy : RefreshPolicy
policy = record {
  hot_recent_query_secs = 30;
  hot_with_query_secs = 2;
  hot_without_query_secs = 10;
  warm_refresh_secs = 180;
  warm_to_cold_secs = 1800;
  cold_early_secs = 1800;
  cold_late_secs = 3600;
  cold_early_limit = 10;
}

-- An instant and a wall clock, so many seconds after the start.
abbrev pub at : ℕ → Instant
at s = from_secs (100000 + s)

abbrev pub wall : ℕ → SystemTime
wall s = unix_epoch + from_secs (1700000000 + s)

abbrev pub main : Text
main = codes "/repo:main"

abbrev pub dev : Text
dev = codes "/repo:dev"

abbrev pub query_at : ℕ → QueryEvent
query_at s = record {
  cwd = codes "/repo";
  branch = codes "main";
  now = at s;
  now_wall = wall s;
  stale_ttl = 5;
}

abbrev pub result_at : ℕ → RefreshCompletedEvent
result_at s = record {
  output = codes "ready";
  pr_outputs = [];
  refresh_mode = warm;
  now = at s;
  now_wall = wall s;
}

abbrev pub tick_at : ℕ → SchedulerTickInput
tick_at s = record {
  now = at s;
  now_wall = wall s;
  policy = policy;
  refresh_lock_timeout_secs = 120;
  entry_max_age_secs = 172800;
}

-- Two repositories' entries: a warm one fetched at the start, and one still loading.
abbrev pub fetched : CacheEntryState
fetched = record {
  output = codes "ready";
  pr_outputs = [];
  fetch_state = ready;
  fetched_at = at 0;
  fetched_at_wall = wall 0;
  refresh_started_at = none;
  cwd = codes "/repo";
  branch = codes "main";
  refresh_mode = warm;
  last_queried_at = some (at 0);
  cold_refresh_count = 0;
}

abbrev pub unfetched : CacheEntryState
unfetched = record fetched { output = []; fetch_state = loading; refresh_started_at = some (at 0) }

abbrev pub store : CacheStore
store = record new { entries = (main, fetched) ∷ (dev, unfetched) ∷ [] }

abbrev pub low : RateLimitSnapshot
low = record {
  core_remaining = 4000;
  core_limit = 5000;
  graphql_remaining = 100;
  graphql_limit = 5000;
  core_reset_at = wall 2000;
  graphql_reset_at = wall 600;
  fetched_at = at 0;
}

abbrev pub lowest : RateLimitSnapshot
lowest = record low { graphql_remaining = 0 }

abbrev pub plenty : RateLimitSnapshot
plenty = record low { core_remaining = 5000; graphql_remaining = 5000 }

abbrev pub observation : RateLimitObservedEvent
observation = record { snapshot = low; now = at 0; now_wall = wall 0 }
