-- ===== src/Tests/Cycles.antt =====
-- A whole cycle of the daemon for one repository.
use merge_ready.Prelude.{codes, eqb, get, [], ◌∷◌, ◌≡◌, refl, arith, HasDistinctKeys}
use merge_ready.Daemon.Entry.{is_active, is_refreshing, with_refresh_completed}
use merge_ready.Daemon.Freshness.{is_expired, elapsed_secs, fetched_at_elapsed}
use merge_ready.Daemon.Policy.{effective_ttl}
use merge_ready.Daemon.Store.{is_backed_off, emit_output}
use merge_ready.Daemon.Transition.{on_query, on_scheduler_tick}
use merge_ready.Daemon.Transition.SingleFlight.{spawns}
use merge_ready.Daemon.Transition.Completion.{completed}
use merge_ready.Daemon.Transition.Cycle.{IsOverdue, refresh_cycle}
use merge_ready.Tests.DaemonData.{policy, main, query_at, result_at, tick_at, fetched, store}

overdue : IsOverdue (tick_at 4000) fetched
unfolding is_active is_expired elapsed_secs is_refreshing fetched_at_elapsed
overdue = record { active = refl; current = refl; unlocked = refl; waited = omega arith }

distinct : HasDistinctKeys store.entries
unfolding get eqb
distinct = (refl, (refl, tt))

refresh_cycle_example :
    (spawns main (on_scheduler_tick store (tick_at 4000)).1 ≡ 1)
    × ((on_query
          (completed (on_scheduler_tick store (tick_at 4000)).0 main (result_at 4003))
          (query_at 4005)
          main
          policy).1
        ≡ emit_output (codes "ready") ∷ [])
unfolding is_backed_off get eqb elapsed_secs effective_ttl with_refresh_completed
refresh_cycle_example =
    refresh_cycle store (tick_at 4000) main fetched distinct refl refl refl overdue (result_at 4003)
      (query_at 4005) policy (omega arith)
