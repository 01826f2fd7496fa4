-- ===== src/Daemon/Store.antt =====
-- src/contexts/daemon/domain/cache: the store, the events and the effects
-- (store.rs, event.rs, effect.rs, repo_id.rs).
use merge_ready.Prelude.{ℕ, Text, Bool, Option, none, List, [], ltb, is_some_and, HashMap}
use merge_ready.Shared.{RefreshMode, PrOutput}
use merge_ready.Time.{Instant, SystemTime}
use merge_ready.Daemon.Snapshot.{RateLimitSnapshot}
use merge_ready.Daemon.Entry.{CacheEntryState}
use merge_ready.Daemon.Policy.{RefreshPolicy}

abbrev pub RepoId : Type 0
RepoId = Text

pub record CacheStore : Type 0 where
  pub entries : HashMap CacheEntryState
  pub latest_rate_limit : Option RateLimitSnapshot
  pub backoff_until : Option Instant

-- `CacheStore::new`
abbrev pub new : CacheStore
new = record { entries = []; latest_rate_limit = none; backoff_until = none }

unfoldable pub is_backed_off : CacheStore → Instant → Bool
is_backed_off s now = is_some_and s.backoff_until (λ t. ltb now t)

unfoldable pub with_entries : CacheStore → HashMap CacheEntryState → CacheStore
with_entries s entries = record s { entries = entries }

unfoldable pub with_backoff_until : CacheStore → Option Instant → CacheStore
with_backoff_until s t = record s { backoff_until = t }

unfoldable pub with_latest_rate_limit : CacheStore → Option RateLimitSnapshot → CacheStore
with_latest_rate_limit s r = record s { latest_rate_limit = r }

pub record QueryEvent : Type 0 where
  pub cwd : Text
  pub branch : Text
  pub now : Instant
  pub now_wall : SystemTime
  pub stale_ttl : ℕ

pub record RefreshCompletedEvent : Type 0 where
  pub output : Text
  pub pr_outputs : List PrOutput
  pub refresh_mode : RefreshMode
  pub now : Instant
  pub now_wall : SystemTime

pub record SchedulerTickInput : Type 0 where
  pub now : Instant
  pub now_wall : SystemTime
  pub policy : RefreshPolicy
  pub refresh_lock_timeout_secs : ℕ
  pub entry_max_age_secs : ℕ

pub record RateLimitObservedEvent : Type 0 where
  pub snapshot : RateLimitSnapshot
  pub now : Instant
  pub now_wall : SystemTime

pub data Effect : Type 0 where
  spawn_refresh : RepoId → Text → Effect
  emit_output : Text → Effect
  record_expired : RepoId → Effect
  enter_backoff : Instant → Effect
