-- ===== src/Daemon/Entry.antt =====
-- src/contexts/daemon/domain/cache/entry.rs: a cache entry and its transitions.
pub mod Invariant
use merge_ready.Prelude.{
  ℕ, Text, Bool, true, false, not, ◌&&◌, Option, none, some, List, [], is_empty, saturating_add,
  saturating_add_32,
}
use merge_ready.Shared.{RefreshMode, hot, warm, terminal, PrOutput}
use merge_ready.Time.{Instant, SystemTime, checked_sub, from_secs}

pub data FetchState : Type 0 where
  loading pending_retry ready refreshing : FetchState

-- `cold_refresh_count` is a `u32`.
pub record CacheEntryState : Type 0 where
  pub output : Text
  pub pr_outputs : List PrOutput
  pub fetch_state : FetchState
  pub fetched_at : Instant
  pub fetched_at_wall : SystemTime
  pub refresh_started_at : Option Instant
  pub cwd : Text
  pub branch : Text
  pub refresh_mode : RefreshMode
  pub last_queried_at : Option Instant
  pub cold_refresh_count : ℕ

abbrev pub is_terminal : RefreshMode → Bool
is_terminal hot = false
is_terminal warm = false
is_terminal terminal = true

abbrev pub is_warm : RefreshMode → Bool
is_warm hot = false
is_warm warm = true
is_warm terminal = false

abbrev is_fetched_state : FetchState → Bool
is_fetched_state loading = false
is_fetched_state pending_retry = false
is_fetched_state ready = true
is_fetched_state refreshing = true

abbrev is_refreshing_state : FetchState → Bool
is_refreshing_state loading = true
is_refreshing_state pending_retry = false
is_refreshing_state ready = false
is_refreshing_state refreshing = true

unfoldable pub has_fetched : CacheEntryState → Bool
has_fetched e = is_fetched_state e.fetch_state

unfoldable pub is_refreshing : CacheEntryState → Bool
is_refreshing e = is_refreshing_state e.fetch_state

-- The scheduler looks only at active entries.
unfoldable pub is_active : CacheEntryState → Bool
is_active e = not (is_empty e.output) && not (is_terminal e.refresh_mode)

abbrev unwrap_or : Option Instant → Instant → Instant
unwrap_or none d = d
unwrap_or (some t) d = t

-- A miss: fetched `stale_ttl + 1` seconds ago, so that it is stale at once.
unfoldable pub new_loading : Text → Text → ℕ → Instant → SystemTime → CacheEntryState
new_loading cwd branch stale_ttl now now_wall = record {
  output = [];
  pr_outputs = [];
  fetch_state = loading;
  fetched_at = unwrap_or (checked_sub now (from_secs (saturating_add stale_ttl 1))) now;
  fetched_at_wall = now_wall;
  refresh_started_at = some now;
  cwd = cwd;
  branch = branch;
  refresh_mode = warm;
  last_queried_at = some now;
  cold_refresh_count = 0;
}

unfoldable pub with_record_query : CacheEntryState → Instant → CacheEntryState
with_record_query e now = record e { last_queried_at = some now }

abbrev mark_state : FetchState → FetchState
mark_state loading = loading
mark_state pending_retry = loading
mark_state ready = refreshing
mark_state refreshing = refreshing

unfoldable pub with_mark_refreshing : CacheEntryState → Instant → CacheEntryState
with_mark_refreshing e now = record e {
  fetch_state = mark_state e.fetch_state;
  refresh_started_at = some now;
}

abbrev clear_state : FetchState → FetchState
clear_state loading = pending_retry
clear_state pending_retry = pending_retry
clear_state ready = ready
clear_state refreshing = ready

unfoldable pub with_clear_refresh_lock : CacheEntryState → CacheEntryState
with_clear_refresh_lock e = record e {
  fetch_state = clear_state e.fetch_state;
  refresh_started_at = none;
}

unfoldable pub with_reset_cold_count : CacheEntryState → CacheEntryState
with_reset_cold_count e = record e { cold_refresh_count = 0 }

unfoldable pub with_increment_cold_count : CacheEntryState → CacheEntryState
with_increment_cold_count e = record e {
  cold_refresh_count = saturating_add_32 e.cold_refresh_count 1;
}

unfoldable pub with_reset_to_warm : CacheEntryState → CacheEntryState
with_reset_to_warm e = record e { refresh_mode = warm }

unfoldable pub with_refresh_completed :
    CacheEntryState → Text → List PrOutput → RefreshMode → Instant → SystemTime → CacheEntryState
with_refresh_completed e output pr_outputs refresh_mode now now_wall = record e {
  output = output;
  pr_outputs = pr_outputs;
  fetch_state = ready;
  fetched_at = now;
  fetched_at_wall = now_wall;
  refresh_started_at = none;
  refresh_mode = refresh_mode;
}
