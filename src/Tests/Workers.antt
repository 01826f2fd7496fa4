-- ===== src/Tests/Workers.antt =====
-- A run of the daemon with its workers.
use merge_ready.Prelude.{
  ◌≤◌, refl, eqb, saturating_add, Text, codes, if◌then◌else◌, Option, none, some, List, [], ◌∷◌,
  get, insert,
}
use merge_ready.Daemon.Entry.{
  is_refreshing, is_active, has_fetched, new_loading, with_record_query, with_reset_cold_count,
  with_reset_to_warm, with_mark_refreshing, with_refresh_completed,
}
use merge_ready.Daemon.Freshness.{
  is_fresh, is_expired, is_cold, is_cold_or_never_queried, has_recent_query, refresh_lock_expired,
  elapsed_secs, fetched_at_elapsed,
}
use merge_ready.Daemon.Policy.{
  effective_ttl, effective_refresh_interval_secs, effective_refresh_interval_secs_scaled,
}
use merge_ready.Daemon.Store.{RepoId, new, with_entries, with_backoff_until, is_backed_off}
use merge_ready.Daemon.Transition.{
  query_stale, query_entry, on_query, on_refresh_completed, on_scheduler_tick, tick_entries,
  retain_unexpired, tick_loop, tick_entry, tick_unlocked, release_lock, count_cold, clear_backoff,
  total_refresh_cost,
}
use merge_ready.Daemon.Workers.{
  System, SystemEvent, queried, ticked, reported, step, steps, start_workers, without,
}
use merge_ready.Daemon.Workers.OnePerRepo.{working, IsPatientRun, one_worker}
use merge_ready.Tests.DaemonData.{policy, main, dev, query_at, tick_at, result_at}

-- Two working directories, each of a repository of its own.
abbrev lookup : Text → Option RepoId
lookup cwd =
    if eqb cwd (codes "/repo")
    then some main
    else if eqb cwd (codes "/other")
    then some dev
    else none

abbrev start : System
start = record { store = new; workers = [] }

-- A query, a tick a minute later, another query, the report of the worker,
-- and a query that starts the next worker.
abbrev events : List SystemEvent
events =
    queried lookup (query_at 0) main policy
    ∷ ticked lookup (tick_at 60)
    ∷ queried lookup (query_at 61) main policy
    ∷ reported main (result_at 62)
    ∷ queried lookup (query_at 100) main policy
    ∷ []

patient : IsPatientRun main start events
unfolding step on_query query_entry query_stale with_entries get insert eqb new_loading
    is_refreshing has_fetched is_fresh effective_ttl is_cold_or_never_queried with_record_query
    with_reset_cold_count with_reset_to_warm with_mark_refreshing with_refresh_completed is_expired
    refresh_lock_expired elapsed_secs start_workers without on_refresh_completed on_scheduler_tick
    tick_entries retain_unexpired tick_loop tick_entry tick_unlocked release_lock count_cold
    is_active is_cold fetched_at_elapsed effective_refresh_interval_secs_scaled
    effective_refresh_interval_secs has_recent_query with_backoff_until clear_backoff is_backed_off
    total_refresh_cost saturating_add
patient = ((tt, (refl, tt)), ((refl, tt), ((tt, tt), (tt, ((tt, (refl, tt)), tt)))))

one_worker_example : working main (steps start events).workers ≤ 1
one_worker_example = one_worker main events patient
