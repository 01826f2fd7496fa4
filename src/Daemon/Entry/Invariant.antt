-- ===== src/Daemon/Entry/Invariant.antt =====
-- What holds of every cache entry, and how the builders move its fetch state.
use merge_ready.Prelude.{
  ℕ, ◌≤◌, ◌≡◌, false, is_some, [], List, u32_max, arith, saturating_add_32, Text,
}
use merge_ready.Shared.{RefreshMode, warm, PrOutput}
use merge_ready.Time.{Instant, SystemTime}
use merge_ready.Daemon.Entry.{
  CacheEntryState, has_fetched, is_refreshing, new_loading, with_record_query, with_mark_refreshing,
  with_clear_refresh_lock, with_reset_cold_count, with_increment_cold_count, with_reset_to_warm,
  with_refresh_completed,
}

-- A refresh in flight has its start time and no other entry has one; an entry with no data has
-- nothing to print; the counter fits its `u32`.
pub record IsValid (e : CacheEntryState) : Type 0 where
  pub locked : is_refreshing e ≡ is_some e.refresh_started_at
  pub unfetched_empty : has_fetched e ≡ false → e.output ≡ []
  pub unfetched_no_prs : has_fetched e ≡ false → e.pr_outputs ≡ []
  pub unfetched_warm : has_fetched e ≡ false → e.refresh_mode ≡ warm
  pub counted : e.cold_refresh_count ≤ u32_max

pub new_loading-IsValid :
    (cwd branch : Text) (ttl : ℕ) (now : Instant) (wall : SystemTime)
    → IsValid (new_loading cwd branch ttl now wall)
unfolding new_loading is_refreshing has_fetched
new_loading-IsValid cwd branch ttl now wall = ground arith

module _ (e : CacheEntryState) (v : IsValid e) where
  pub with_record_query-IsValid : (now : Instant) → IsValid (with_record_query e now)
  unfolding with_record_query is_refreshing has_fetched
  with_record_query-IsValid now = ground arith

  pub with_mark_refreshing-IsValid : (now : Instant) → IsValid (with_mark_refreshing e now)
  unfolding with_mark_refreshing is_refreshing has_fetched
  with_mark_refreshing-IsValid now = ground arith

  pub with_clear_refresh_lock-IsValid : IsValid (with_clear_refresh_lock e)
  unfolding with_clear_refresh_lock is_refreshing has_fetched
  with_clear_refresh_lock-IsValid = ground arith

  pub with_reset_cold_count-IsValid : IsValid (with_reset_cold_count e)
  unfolding with_reset_cold_count is_refreshing has_fetched
  with_reset_cold_count-IsValid = ground arith

  pub with_increment_cold_count-IsValid : IsValid (with_increment_cold_count e)
  unfolding with_increment_cold_count is_refreshing has_fetched saturating_add_32
  with_increment_cold_count-IsValid = ground arith

  pub with_reset_to_warm-IsValid : IsValid (with_reset_to_warm e)
  unfolding with_reset_to_warm is_refreshing has_fetched
  with_reset_to_warm-IsValid = ground arith

  pub with_refresh_completed-IsValid :
      (output : Text) (prs : List PrOutput) (mode : RefreshMode) (now : Instant) (wall : SystemTime)
      → IsValid (with_refresh_completed e output prs mode now wall)
  unfolding with_refresh_completed is_refreshing has_fetched
  with_refresh_completed-IsValid output prs mode now wall = ground arith
