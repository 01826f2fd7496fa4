-- ===== src/Tests/Cache.antt =====
-- Runs of the cache's transitions.
use merge_ready.Prelude.{
  ◌≤◌, ◌<◌, ◌≡◌, refl, codes, true, false, some, List, [], ◌∷◌, ◌≢◌, get, insert, eqb, arith,
  HasDistinctKeys, saturating_mul,
}
use merge_ready.Daemon.Snapshot.{is_exhausted, bottleneck_ratio_bp, ratio_bp, bottleneck_reset_at}
use merge_ready.Daemon.Entry.{
  pending_retry, is_refreshing, is_active, with_mark_refreshing, new_loading, with_record_query,
}
use merge_ready.Daemon.Freshness.{
  is_cold, has_recent_query, is_fresh, is_cold_or_never_queried, is_expired, elapsed_secs,
  fetched_at_elapsed,
}
use merge_ready.Daemon.Policy.{
  effective_ttl, effective_refresh_interval_secs, effective_refresh_interval_secs_scaled,
}
use merge_ready.Daemon.Store.{
  CacheStore, new, is_backed_off, with_entries, with_backoff_until, emit_output, spawn_refresh,
}
use merge_ready.Daemon.Transition.{
  query_stale, query_entry, on_query, on_scheduler_tick, should_enter_backoff, tick_entries,
  retain_unexpired, tick_loop, tick_entry, tick_unlocked, release_lock, count_cold, clear_backoff,
  total_refresh_cost,
}
use merge_ready.Daemon.Transition.SingleFlight.{spawns, serve, single_flight}
use merge_ready.Daemon.Transition.Schedule.{
  after_tick, get-on_scheduler_tick, spawns-on_scheduler_tick,
}
use merge_ready.Daemon.Transition.Backoff.{observed, resume_at, quiet_until_reset}
use merge_ready.Daemon.Transition.Demand.{demand, run-demand}
use merge_ready.Daemon.Transition.Reachable.{
  Reach, start, next, query, Reach-IsValidStore, never_pending_retry,
}
use merge_ready.Daemon.Transition.Lost.{
  Event, on_queried, on_ticked, run, waiting, IsUnanswered, no_retry_of_lost_refresh,
}
use merge_ready.Tests.DaemonData.{
  policy, at, wall, main, dev, query_at, tick_at, fetched, store, observation,
}

stale_query :
    (on_query store (query_at 60) main policy).1
    ≡ emit_output (codes "ready") ∷ spawn_refresh main (codes "/repo") ∷ []
unfolding on_query query_entry query_stale get is_fresh elapsed_secs effective_ttl is_refreshing
    is_cold_or_never_queried with_record_query eqb
stale_query = refl

single_flight_example :
    spawns main
      (serve policy store ((main, query_at 60) ∷ (dev, query_at 61) ∷ (main, query_at 90) ∷ [])).1
    ≤ 1
single_flight_example =
    single_flight policy main store
      ((main, query_at 60) ∷ (dev, query_at 61) ∷ (main, query_at 90) ∷ [])

distinct : HasDistinctKeys store.entries
unfolding get eqb
distinct = (refl, (refl, tt))

awake : is_backed_off store (tick_at 400).now ≡ false
unfolding is_backed_off
awake = refl

get-on_scheduler_tick_example :
    get main (on_scheduler_tick store (tick_at 400)).0.entries
    ≡ after_tick store (tick_at 400) (some fetched)
unfolding get eqb
get-on_scheduler_tick_example = get-on_scheduler_tick store (tick_at 400) distinct awake main

spawns-on_scheduler_tick_example : spawns dev (on_scheduler_tick store (tick_at 400)).1 ≡ 0
unfolding get eqb is_active is_expired elapsed_secs
spawns-on_scheduler_tick_example = spawns-on_scheduler_tick store (tick_at 400) distinct awake dev

tick_spawns : (on_scheduler_tick store (tick_at 400)).1 ≡ spawn_refresh main (codes "/repo") ∷ []
unfolding on_scheduler_tick tick_entries retain_unexpired is_expired elapsed_secs tick_loop
    tick_entry tick_unlocked release_lock count_cold is_active is_refreshing is_cold
    fetched_at_elapsed effective_refresh_interval_secs_scaled effective_refresh_interval_secs
    has_recent_query with_backoff_until clear_backoff is_backed_off with_mark_refreshing
    total_refresh_cost
tick_spawns = refl

low_quota : should_enter_backoff observation.snapshot ≡ true
unfolding should_enter_backoff is_exhausted bottleneck_ratio_bp ratio_bp saturating_mul
low_quota = refl

reset_to_come : observation.now_wall ≤ bottleneck_reset_at observation.snapshot
unfolding bottleneck_reset_at ratio_bp saturating_mul
reset_to_come = omega arith

before_reset : (tick_at 601).now < resume_at observation
unfolding bottleneck_reset_at ratio_bp saturating_mul
before_reset = omega arith

quiet_until_reset_example :
    on_scheduler_tick (observed store observation) (tick_at 601) ≡ (observed store observation, [])
quiet_until_reset_example =
    quiet_until_reset store observation (tick_at 601) low_quota reset_to_come before_reset

-- A tick before the reset, and two queries of one repository.
abbrev in_backoff : List Event
in_backoff =
    on_ticked (tick_at 400)
    ∷ on_queried (query_at 60) main policy
    ∷ on_ticked (tick_at 601)
    ∷ on_queried (query_at 602) dev policy
    ∷ []

still_before_reset : (tick_at 400).now < resume_at observation
unfolding bottleneck_reset_at ratio_bp saturating_mul
still_before_reset = omega arith

run-demand_example :
    (run (observed store observation) in_backoff).1
    ≡ (run store
        (on_queried (query_at 60) main policy ∷ on_queried (query_at 602) dev policy ∷ [])).1
unfolding demand
run-demand_example =
    run-demand store observation in_backoff low_quota reset_to_come
      (still_before_reset, (tt, (before_reset, (tt, tt))))

abbrev after_query : CacheStore
after_query = (on_query new (query_at 0) dev policy).0

reached : Reach after_query
reached = next start (query (query_at 0) dev policy refl)

never_pending_retry_example :
    (new_loading (codes "/repo") (codes "main") 5 (at 0) (wall 0)).fetch_state ≢ pending_retry
unfolding on_query query_entry with_entries get insert eqb
never_pending_retry_example =
    never_pending_retry reached dev (new_loading (codes "/repo") (codes "main") 5 (at 0) (wall 0))
      refl

waits_at_first : waiting dev after_query ≡ true
unfolding on_query query_entry with_entries get insert eqb new_loading is_refreshing
waits_at_first = refl

-- The refresh of a new entry is lost: ten minutes later it has not been tried again.
abbrev lost_events : List Event
lost_events = on_ticked (tick_at 200) ∷ on_queried (query_at 600) dev policy ∷ []

unanswered : IsUnanswered dev after_query lost_events
unfolding on_query query_entry query_stale with_entries get insert eqb new_loading is_refreshing
    on_scheduler_tick tick_entries retain_unexpired is_expired elapsed_secs tick_loop tick_entry
    is_active with_backoff_until clear_backoff is_backed_off total_refresh_cost
unanswered = (tt, refl, (tt, refl, tt))

no_retry_of_lost_refresh_example :
    (spawns dev (run after_query lost_events).1 ≡ 0)
    × (waiting dev (run after_query lost_events).0 ≡ true)
no_retry_of_lost_refresh_example =
    no_retry_of_lost_refresh dev after_query lost_events (Reach-IsValidStore reached) waits_at_first
      unanswered
