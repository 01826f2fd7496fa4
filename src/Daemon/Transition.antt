-- ===== src/Daemon/Transition.antt =====
-- src/contexts/daemon/domain/cache/transition.rs: the pure transitions of the store. Each returns
-- the new store and the effects that its caller carries out, in order.
pub mod Query
pub mod SingleFlight
pub mod Tick
pub mod Schedule
pub mod Backoff
pub mod Completion
pub mod Reachable
pub mod Lost
pub mod Cycle
pub mod Demand
use merge_ready.Prelude.{
  ℕ, ◌+◌, Text, codes, Bool, not, ◌&&◌, ◌||◌, Option, none, some, List, [], ◌∷◌, ◌++◌, ltb, leb,
  ◌==◌, if◌then◌else◌, is_some_and, or_else, length, saturating_add, HashMap, get, insert, values,
}
use merge_ready.Time.{Instant, SystemTime, Duration, as_secs, duration_since}
use merge_ready.Daemon.Snapshot.{
  RateLimitSnapshot, bottleneck_reset_at, bottleneck_ratio_bp, is_exhausted,
}
use merge_ready.Daemon.Entry.{
  CacheEntryState, is_terminal, is_warm, has_fetched, is_refreshing, is_active, new_loading,
  with_record_query, with_mark_refreshing, with_clear_refresh_lock, with_reset_cold_count,
  with_increment_cold_count, with_reset_to_warm, with_refresh_completed,
}
use merge_ready.Daemon.Freshness.{
  is_fresh, is_expired, is_cold, is_cold_or_never_queried, refresh_lock_expired, fetched_at_elapsed,
}
use merge_ready.Daemon.Policy.{RefreshPolicy, effective_ttl, effective_refresh_interval_secs_scaled}
use merge_ready.Daemon.Store.{
  RepoId, CacheStore, is_backed_off, with_entries, with_backoff_until, with_latest_rate_limit,
  QueryEvent, RefreshCompletedEvent, SchedulerTickInput, RateLimitObservedEvent, Effect,
  spawn_refresh, emit_output, record_expired, enter_backoff,
}

abbrev pub backoff_threshold_bp : ℕ
backoff_threshold_bp = 500

-- 1500 milliseconds
abbrev pub backoff_safety_margin : Duration
backoff_safety_margin = 1500000000

abbrev pub loading_text : Text
loading_text = codes "? loading"

-- The second arm of `on_query`: an entry that is not fresh.
unfoldable pub query_stale :
    RepoId → QueryEvent → RefreshPolicy → CacheEntryState → CacheEntryState × List Effect
query_stale repo_id event policy entry =
    let was_cold = is_cold_or_never_queried entry policy.warm_to_cold_secs event.now in
    let thawed = if was_cold then with_reset_cold_count entry else entry in
    let state = with_record_query thawed event.now in
    if is_refreshing entry
    then (state, emit_output (if has_fetched entry then entry.output else loading_text) ∷ [])
    else let warmed = if is_terminal entry.refresh_mode then with_reset_to_warm state else state in
      (
        with_mark_refreshing warmed event.now,
        emit_output entry.output ∷ spawn_refresh repo_id entry.cwd ∷ [],
      )

-- The `match` of `on_query`: the entry to insert, and the effects.
unfoldable pub query_entry :
    RepoId → QueryEvent → RefreshPolicy → Option CacheEntryState → CacheEntryState × List Effect
query_entry repo_id event policy none = (
  new_loading event.cwd event.branch event.stale_ttl event.now event.now_wall,
  emit_output loading_text ∷ spawn_refresh repo_id event.cwd ∷ [],
)
query_entry repo_id event policy (some entry) =
    if is_fresh entry (effective_ttl policy entry event.stale_ttl) event.now
    then (let new_entry = with_record_query entry event.now in
        (new_entry, emit_output new_entry.output ∷ []))
    else query_stale repo_id event policy entry

unfoldable pub on_query :
    CacheStore → QueryEvent → RepoId → RefreshPolicy → CacheStore × List Effect
on_query store event repo_id policy =
    let (entry, effects) = query_entry repo_id event policy (get repo_id store.entries) in
    (with_entries store (insert repo_id entry store.entries), effects)

complete_entries :
    HashMap CacheEntryState
    → RepoId
    → RefreshCompletedEvent
    → Option CacheEntryState
    → HashMap CacheEntryState
complete_entries entries repo_id event none = entries
complete_entries entries repo_id event (some state) =
    insert repo_id
      (with_refresh_completed state event.output event.pr_outputs event.refresh_mode event.now
        event.now_wall)
      entries

unfoldable pub on_refresh_completed :
    CacheStore → RepoId → RefreshCompletedEvent → CacheStore × List Effect
unfolding complete_entries
on_refresh_completed store repo_id event = (
  with_entries store (complete_entries store.entries repo_id event (get repo_id store.entries)),
  [],
)

-- `entries.retain(…)` of `on_scheduler_tick`: what stays, and a notice for each entry dropped.
unfoldable pub retain_unexpired :
    ℕ → Instant → HashMap CacheEntryState → HashMap CacheEntryState × List Effect
retain_unexpired max_age now [] = ([], [])
retain_unexpired max_age now ((repo_id, entry) ∷ rest) =
    let (kept, effects) = retain_unexpired max_age now rest in
    if is_expired entry max_age now
    then (kept, record_expired repo_id ∷ effects)
    else ((repo_id, entry) ∷ kept, effects)

-- `total_refresh_cost`: one call, and one for each pull request, of every active entry.
add_cost : ℕ → CacheEntryState → ℕ
add_cost total e =
    if is_active e then saturating_add total (saturating_add (length e.pr_outputs) 1) else total

unfoldable pub total_refresh_cost : ℕ → List CacheEntryState → ℕ
unfolding add_cost
total_refresh_cost total [] = total
total_refresh_cost total (e ∷ es) = total_refresh_cost (add_cost total e) es

-- A refresh that has held its lock too long gives it up.
unfoldable pub release_lock : SchedulerTickInput → CacheEntryState → CacheEntryState
release_lock input e =
    if is_refreshing e && refresh_lock_expired e input.refresh_lock_timeout_secs input.now
    then with_clear_refresh_lock e
    else e

-- A warm entry that no one has asked for counts one more cold refresh.
unfoldable pub count_cold : SchedulerTickInput → CacheEntryState → CacheEntryState
count_cold input e =
    if is_warm e.refresh_mode && is_cold e input.policy.warm_to_cold_secs input.now
    then with_increment_cold_count e
    else e

-- The loop's body for an active entry whose expired lock has been released.
unfoldable pub tick_unlocked :
    RepoId
    → CacheEntryState
    → Option RateLimitSnapshot
    → ℕ
    → SchedulerTickInput
    → CacheEntryState × List Effect
tick_unlocked repo_id e snapshot total_cost input =
    if is_refreshing e
    then (e, [])
    else let interval =
        effective_refresh_interval_secs_scaled input.policy e snapshot total_cost input.now
          input.now_wall in
      if ltb (as_secs (fetched_at_elapsed e input.now)) interval
      then (e, [])
      else let counted = count_cold input e in
        (with_mark_refreshing counted input.now, spawn_refresh repo_id counted.cwd ∷ [])

-- The body of the loop over the entries.
unfoldable pub tick_entry :
    RepoId
    → CacheEntryState
    → Option RateLimitSnapshot
    → ℕ
    → SchedulerTickInput
    → CacheEntryState × List Effect
tick_entry repo_id e snapshot total_cost input =
    if is_active e
    then tick_unlocked repo_id (release_lock input e) snapshot total_cost input
    else (e, [])

-- The loop: `updated` is the new map, `effects` those so far.
unfoldable pub tick_loop :
    Option RateLimitSnapshot
    → ℕ
    → SchedulerTickInput
    → HashMap CacheEntryState
    → HashMap CacheEntryState
    → List Effect
    → HashMap CacheEntryState × List Effect
tick_loop snapshot total_cost input [] updated effects = (updated, effects)
tick_loop snapshot total_cost input ((repo_id, e) ∷ rest) updated effects =
    let (e', spawned) = tick_entry repo_id e snapshot total_cost input in
    tick_loop snapshot total_cost input rest (insert repo_id e' updated) (effects ++ spawned)

-- A backoff whose time has come is over.
unfoldable pub clear_backoff : Option Instant → Instant → Option Instant
clear_backoff backoff_until now =
    if is_some_and backoff_until (λ t. leb t now) then none else backoff_until

-- The part of `on_scheduler_tick` that runs when no backoff is in force.
unfoldable pub tick_entries : CacheStore → SchedulerTickInput → CacheStore × List Effect
tick_entries store input =
    let (kept, expired) = retain_unexpired input.entry_max_age_secs input.now store.entries in
    let total_cost = total_refresh_cost 0 (values kept) in
    let (updated, effects) = tick_loop store.latest_rate_limit total_cost input kept [] expired in
    (with_entries store updated, effects)

unfoldable pub on_scheduler_tick : CacheStore → SchedulerTickInput → CacheStore × List Effect
on_scheduler_tick store input =
    let cleared = with_backoff_until store (clear_backoff store.backoff_until input.now) in
    if is_backed_off cleared input.now then (cleared, []) else tick_entries cleared input

unfoldable pub should_enter_backoff : RateLimitSnapshot → Bool
should_enter_backoff s = is_exhausted s || leb (bottleneck_ratio_bp s) backoff_threshold_bp

add_margin : Instant → Option Duration → Option Instant
add_margin now none = none
add_margin now (some delta) = some (now + delta + backoff_safety_margin)

-- The bottleneck's reset as an `Instant`, or `none` if it has passed.
unfoldable pub reset_instant_from_snapshot :
    RateLimitSnapshot → Instant → SystemTime → Option Instant
unfolding add_margin
reset_instant_from_snapshot s now_instant now_wall =
    add_margin now_instant (duration_since (bottleneck_reset_at s) now_wall)

-- The backoff after an observation.
unfoldable pub new_backoff_until : CacheStore → RateLimitObservedEvent → Option Instant
new_backoff_until store event =
    if should_enter_backoff event.snapshot
    then or_else (reset_instant_from_snapshot event.snapshot event.now event.now_wall)
        store.backoff_until
    else store.backoff_until

abbrev backoff_effects : Bool → Option Instant → Option Instant → List Effect
backoff_effects enter old none = []
backoff_effects enter old (some until) =
    if enter && not (is_some_and old (λ t. t == until)) then enter_backoff until ∷ [] else []

unfoldable pub on_rate_limit_observed :
    CacheStore → RateLimitObservedEvent → CacheStore × List Effect
on_rate_limit_observed store event =
    let until = new_backoff_until store event in
    (
      with_backoff_until (with_latest_rate_limit store (some event.snapshot)) until,
      backoff_effects (should_enter_backoff event.snapshot) store.backoff_until until,
    )
