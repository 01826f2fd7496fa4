-- ===== src/Daemon/Transition/Demand.antt =====
-- What goes on during a backoff: the scheduler rests, and queries are served as ever.
use merge_ready.Prelude.{
  ◌≤◌, ◌<◌, ◌≡◌, refl, ap, ap₂, true, false, Option, none, some, List, [], ◌∷◌, ◌++◌, le→leb,
  lt→ltb, All,
}
use merge_ready.Time.{Instant}
use merge_ready.Daemon.Snapshot.{bottleneck_reset_at}
use merge_ready.Daemon.Policy.{RefreshPolicy}
use merge_ready.Daemon.Store.{
  RepoId, CacheStore, with_entries, with_backoff_until, with_latest_rate_limit, is_backed_off,
  QueryEvent, RefreshCompletedEvent, SchedulerTickInput, RateLimitObservedEvent, Effect,
}
use merge_ready.Daemon.Transition.{
  on_query, on_refresh_completed, on_scheduler_tick, on_rate_limit_observed, should_enter_backoff,
  new_backoff_until, backoff_effects,
}
use merge_ready.Daemon.Transition.Schedule.{tick_backed_off}
use merge_ready.Daemon.Transition.Backoff.{observed, resume_at, backoff_until-observed}
use merge_ready.Daemon.Transition.Lost.{
  Event, on_queried, on_completed, on_ticked, on_observed, run,
}

-- An event before the end of a backoff: a tick before that instant, an observation that asks for no
-- other backoff, and any query and any result.
abbrev pub IsWithin : Instant → Event → Type 0
IsWithin until (on_queried event repo_id policy) = Unit
IsWithin until (on_completed repo_id event) = Unit
IsWithin until (on_ticked input) = input.now < until
IsWithin until (on_observed event) = should_enter_backoff event.snapshot ≡ false

-- The queries and the results among some events.
unfoldable pub demand : List Event → List Event
demand [] = []
demand (on_queried event repo_id policy ∷ evs) = on_queried event repo_id policy ∷ demand evs
demand (on_completed repo_id event ∷ evs) = on_completed repo_id event ∷ demand evs
demand (on_ticked input ∷ evs) = demand evs
demand (on_observed event ∷ evs) = demand evs

-- Two stores with the same entries, the first of them in a backoff until an instant.
record IsHeld (until : Instant) (s t : CacheStore) : Type 0 where
  entries : s.entries ≡ t.entries
  held : s.backoff_until ≡ some until

-- Whether the two do the same and stay so.
abbrev Agree : Instant → CacheStore × List Effect → CacheStore × List Effect → Type 0
Agree until r q = IsHeld until r.0 q.0 × (r.1 ≡ q.1)

no_notice : (old new : Option Instant) → backoff_effects false old new ≡ []
no_notice old none = refl
no_notice old (some until) = refl

module _ (until : Instant) (s t : CacheStore) (h : IsHeld until s t) where
  query-Agree :
      (event : QueryEvent) (repo_id : RepoId) (policy : RefreshPolicy)
      → Agree until (on_query s event repo_id policy) (on_query t event repo_id policy)
  unfolding on_query with_entries
  query-Agree event repo_id policy = (
    record {
      entries = ap (λ m. (on_query (with_entries t m) event repo_id policy).0.entries) h.entries;
      held = h.held;
    },
    ap (λ m. (on_query (with_entries t m) event repo_id policy).1) h.entries,
  )

  completed-Agree :
      (repo_id : RepoId) (event : RefreshCompletedEvent)
      → Agree until (on_refresh_completed s repo_id event) (on_refresh_completed t repo_id event)
  unfolding on_refresh_completed with_entries
  completed-Agree repo_id event = (
    record {
      entries =
          ap (λ m. (on_refresh_completed (with_entries t m) repo_id event).0.entries) h.entries;
      held = h.held;
    },
    refl,
  )

  tick-Agree :
      (input : SchedulerTickInput)
      → input.now < until
      → Agree until (on_scheduler_tick s input) (t, [])
  unfolding is_backed_off
  tick-Agree input early = rw (tick_backed_off s input (rw h.held (lt→ltb _ _ early))) (h, refl)

  observed-Agree :
      (event : RateLimitObservedEvent)
      → should_enter_backoff event.snapshot ≡ false
      → Agree until (on_rate_limit_observed s event) (t, [])
  unfolding on_rate_limit_observed new_backoff_until with_backoff_until with_latest_rate_limit
  observed-Agree event calm = (
    record { entries = h.entries; held = rw (backoff_until-observed s event, calm) h.held },
    rw calm (no_notice s.backoff_until s.backoff_until),
  )

run-Agree :
    (until : Instant) (evs : List Event) (s t : CacheStore)
    → IsHeld until s t
    → All (IsWithin until) evs
    → (run s evs).1 ≡ (run t (demand evs)).1
unfolding run demand
run-Agree until [] s t h within = refl
run-Agree until (on_queried event repo_id policy ∷ evs) s t h within =
    let (next, same) = query-Agree until s t h event repo_id policy in
    ap₂ (λ es fs. es ++ fs) same (run-Agree until evs _ _ next within.1)
run-Agree until (on_completed repo_id event ∷ evs) s t h within =
    let (next, same) = completed-Agree until s t h repo_id event in
    ap₂ (λ es fs. es ++ fs) same (run-Agree until evs _ _ next within.1)
run-Agree until (on_ticked input ∷ evs) s t h within =
    let (next, same) = tick-Agree until s t h input within.0 in
    ap₂ (λ es fs. es ++ fs) same (run-Agree until evs _ t next within.1)
run-Agree until (on_observed event ∷ evs) s t h within =
    let (next, same) = observed-Agree until s t h event within.0 in
    ap₂ (λ es fs. es ++ fs) same (run-Agree until evs _ t next within.1)

-- After an observation that asks for a backoff, with its bottleneck's reset to come, and over any
-- events before that reset of which none asks for another backoff: the effects are those of the
-- queries and the results alone, as they would be without the observation. So no tick does
-- anything, and a query starts its refresh as ever.
pub run-demand :
    (store : CacheStore) (event : RateLimitObservedEvent) (evs : List Event)
    → should_enter_backoff event.snapshot ≡ true
    → event.now_wall ≤ bottleneck_reset_at event.snapshot
    → All (IsWithin (resume_at event)) evs
    → (run (observed store event) evs).1 ≡ (run store (demand evs)).1
unfolding on_rate_limit_observed with_backoff_until with_latest_rate_limit
run-demand store event evs enter future within =
    run-Agree (resume_at event) evs (observed store event) store
      (record {
        entries = refl;
        held = rw (backoff_until-observed store event, enter, le→leb _ _ future) refl;
      })
      within
