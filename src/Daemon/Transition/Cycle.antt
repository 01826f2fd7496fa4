-- ===== src/Daemon/Transition/Cycle.antt =====
-- A whole cycle of an active entry: the tick that starts its refresh, the report, the next query.
use merge_ready.Prelude.{
  ℕ, ◌≤◌, ◌≡◌, ◌∙◌, refl, ap, true, false, not, ◌||◌, none, some, [], ◌∷◌, leb, le→leb, max,
  HasDistinctKeys, get, arith,
}
use merge_ready.Time.{as_secs}
use merge_ready.Daemon.Entry.{
  CacheEntryState, is_active, is_refreshing, with_mark_refreshing, with_refresh_completed,
}
use merge_ready.Daemon.Freshness.{
  elapsed_secs, is_expired, refresh_lock_expired, fetched_at_elapsed,
}
use merge_ready.Daemon.Policy.{
  RefreshPolicy, effective_ttl, cold_interval_secs, effective_refresh_interval_secs,
  effective_refresh_interval_secs_scaled,
}
use merge_ready.Daemon.Store.{
  RepoId, CacheStore, is_backed_off, QueryEvent, RefreshCompletedEvent, SchedulerTickInput,
  emit_output,
}
use merge_ready.Daemon.Transition.{release_lock, count_cold, on_query, on_scheduler_tick}
use merge_ready.Daemon.Transition.SingleFlight.{spawns}
use merge_ready.Daemon.Transition.Tick.{round_cost, tick_due}
use merge_ready.Daemon.Transition.Schedule.{
  after_tick, get-on_scheduler_tick, spawns-on_scheduler_tick,
}
use merge_ready.Daemon.Transition.Completion.{completed, complete_with, query-completed}

-- The longest of a policy's intervals.
abbrev pub longest : RefreshPolicy → ℕ
longest p = max p.hot_with_query_secs (
    max p.hot_without_query_secs (max p.warm_refresh_secs (max p.cold_early_secs p.cold_late_secs)))

-- An entry whose refresh the scheduler should start: it is active and not expired, no refresh holds
-- its lock but one that has run out, and the longest interval has passed.
pub record IsOverdue (input : SchedulerTickInput) (e : CacheEntryState) : Type 0 where
  pub active : is_active e ≡ true
  pub current : is_expired e input.entry_max_age_secs input.now ≡ false
  pub unlocked :
      (not (is_refreshing e) || refresh_lock_expired e input.refresh_lock_timeout_secs input.now)
      ≡ true
  pub waited : longest input.policy ≤ as_secs (fetched_at_elapsed e input.now)

interval-le :
    (p : RefreshPolicy) (e : CacheEntryState) (input : SchedulerTickInput)
    → is_active e ≡ true
    → effective_refresh_interval_secs p e input.now ≤ longest p
unfolding effective_refresh_interval_secs cold_interval_secs is_active
interval-le p e input h = ground arith

unscaled :
    (p : RefreshPolicy) (e : CacheEntryState) (cost : ℕ) (input : SchedulerTickInput)
    → effective_refresh_interval_secs_scaled p e none cost input.now input.now_wall
      ≡ effective_refresh_interval_secs p e input.now
unfolding effective_refresh_interval_secs_scaled
unscaled p e cost input = ground arith

due-IsOverdue :
    (input : SchedulerTickInput) (cost : ℕ) (e : CacheEntryState)
    → IsOverdue input e
    → tick_due none cost input (some e) ≡ true
due-IsOverdue input cost e o =
    let passed : leb
          (effective_refresh_interval_secs_scaled input.policy e none cost input.now input.now_wall)
          (as_secs (fetched_at_elapsed e input.now))
        ≡ true =
      le→leb _ _ (
        omega (
          arith,
          unscaled input.policy e cost input,
          interval-le input.policy e input o.active,
          o.waited,
        )) in
    rw (o.active, o.unlocked, passed) refl

module _ (store : CacheStore) (input : SchedulerTickInput) (repo_id : RepoId) (e : CacheEntryState)
    (distinct : HasDistinctKeys store.entries) (awake : is_backed_off store input.now ≡ false)
    (unlimited : store.latest_rate_limit ≡ none) (known : get repo_id store.entries ≡ some e)
    (overdue : IsOverdue input e) where
  -- The entry that the tick leaves.
  marked : CacheEntryState
  marked = with_mark_refreshing (count_cold input (release_lock input e)) input.now

  is_due : tick_due store.latest_rate_limit (round_cost store input) input (some e) ≡ true
  is_due = rw unlimited (due-IsOverdue input (round_cost store input) e overdue)

  get-marked : get repo_id (on_scheduler_tick store input).0.entries ≡ some marked
  unfolding marked
  get-marked =
      get-on_scheduler_tick store input distinct awake repo_id
      ∙ ap (after_tick store input) known
      ∙ rw (overdue.current, is_due) refl

  same_ttl :
      (done : RefreshCompletedEvent) (policy : RefreshPolicy) (f : CacheEntryState) (ttl : ℕ)
      → effective_ttl policy (complete_with done f) ttl
        ≡ effective_ttl policy (complete_with done e) ttl
  unfolding effective_ttl with_refresh_completed
  same_ttl done policy f ttl = refl

  -- Without a backoff and without an observed rate limit, the tick starts one refresh of an overdue
  -- entry; and once that refresh reports, its output is the whole reply to the next query that is
  -- within the time to live.
  pub refresh_cycle :
      (done : RefreshCompletedEvent) (query : QueryEvent) (policy : RefreshPolicy)
      → elapsed_secs done.now query.now
        ≤ effective_ttl policy (complete_with done e) query.stale_ttl
      → (spawns repo_id (on_scheduler_tick store input).1 ≡ 1)
        × ((on_query
              (completed (on_scheduler_tick store input).0 repo_id done)
              query
              repo_id
              policy).1
            ≡ emit_output done.output ∷ [])
  refresh_cycle done query policy young = (
    spawns-on_scheduler_tick store input distinct awake repo_id
        ∙ rw (known, overdue.current, is_due) refl,
    query-completed (on_scheduler_tick store input).0 repo_id done query policy marked get-marked
        (rw (same_ttl done policy marked query.stale_ttl) young),
  )
