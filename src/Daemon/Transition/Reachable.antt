-- ===== src/Daemon/Transition/Reachable.antt =====
-- The stores that the daemon can reach from an empty one, by any events in any order, and what
-- holds of all of them.
use merge_ready.Prelude.{
  ℕ, ◌≡◌, ◌≢◌, refl, Option, none, some, List, [], ◌∷◌, values, HashMap, HasDistinctKeys, AllValues,
  AllValues-get, get, insert, insert-HasDistinctKeys, insert-AllValues, arith, saturating_add_32,
  Option-cases, inl, inr, ◌++◌, Bool-cases,
}
use merge_ready.Daemon.Snapshot.{RateLimitSnapshot}
use merge_ready.Daemon.Entry.{
  CacheEntryState, pending_retry, has_fetched, is_refreshing, is_active, new_loading,
  with_record_query, with_mark_refreshing, with_clear_refresh_lock, with_reset_cold_count,
  with_increment_cold_count, with_reset_to_warm, with_refresh_completed,
}
use merge_ready.Daemon.Entry.Invariant.{IsValid}
use merge_ready.Daemon.Freshness.{is_expired}
use merge_ready.Daemon.Policy.{RefreshPolicy}
use merge_ready.Daemon.Store.{
  RepoId, CacheStore, new, with_entries, with_backoff_until, with_latest_rate_limit, is_backed_off,
  QueryEvent, RefreshCompletedEvent, SchedulerTickInput, RateLimitObservedEvent, Effect,
}
use merge_ready.Daemon.Transition.{
  query_stale, query_entry, on_query, on_refresh_completed, retain_unexpired, release_lock,
  count_cold, tick_unlocked, tick_entry, tick_loop, tick_entries, on_scheduler_tick,
  on_rate_limit_observed, total_refresh_cost, clear_backoff,
}

-- One event, with whatever times and settings it carries.
pub data Step (s t : CacheStore) : Type 0 where
  query :
      (event : QueryEvent) (repo_id : RepoId) (policy : RefreshPolicy)
      → t ≡ (on_query s event repo_id policy).0
      → Step s t
  complete :
      (repo_id : RepoId) (event : RefreshCompletedEvent)
      → t ≡ (on_refresh_completed s repo_id event).0
      → Step s t
  tick : (input : SchedulerTickInput) → t ≡ (on_scheduler_tick s input).0 → Step s t
  observe : (event : RateLimitObservedEvent) → t ≡ (on_rate_limit_observed s event).0 → Step s t

pub data Reach : CacheStore → Type 0 where
  start : Reach new
  next : {s t : CacheStore} → Reach s → Step s t → Reach t

-- A valid entry that is not waiting for the retry of its first refresh.
pub record IsSound (e : CacheEntryState) : Type 0 where
  pub valid : IsValid e
  pub never_pending : e.fetch_state ≢ pending_retry

pub record IsValidStore (s : CacheStore) : Type 0 where
  pub distinct : HasDistinctKeys s.entries
  pub sound : AllValues IsSound s.entries

query_entry-IsSound :
    (repo_id : RepoId) (event : QueryEvent) (policy : RefreshPolicy) (o : Option CacheEntryState)
    → ((e : CacheEntryState) → o ≡ some e → IsSound e)
    → IsSound (query_entry repo_id event policy o).0
unfolding query_entry query_stale new_loading with_record_query with_mark_refreshing
    with_reset_cold_count with_reset_to_warm is_refreshing has_fetched
query_entry-IsSound repo_id event policy none h = ground arith
query_entry-IsSound repo_id event policy (some e) h = ground (arith, h e refl)

tick_entry-IsSound :
    (repo_id : RepoId) (e : CacheEntryState) (snapshot : Option RateLimitSnapshot) (cost : ℕ)
    (input : SchedulerTickInput)
    → IsSound e
    → IsSound (tick_entry repo_id e snapshot cost input).0
unfolding tick_entry tick_unlocked release_lock count_cold with_mark_refreshing
    with_clear_refresh_lock with_increment_cold_count saturating_add_32 is_active is_refreshing
    has_fetched
tick_entry-IsSound repo_id e snapshot cost input h = ground arith

completed-IsSound :
    (e : CacheEntryState) (event : RefreshCompletedEvent)
    → IsSound e
    → IsSound (
        with_refresh_completed e event.output event.pr_outputs event.refresh_mode event.now
          event.now_wall)
unfolding with_refresh_completed is_refreshing has_fetched
completed-IsSound e event h = ground arith

on_query-IsValidStore :
    (s : CacheStore) (event : QueryEvent) (repo_id : RepoId) (policy : RefreshPolicy)
    → IsValidStore s
    → IsValidStore (on_query s event repo_id policy).0
unfolding on_query with_entries
on_query-IsValidStore s event repo_id policy v =
    let entry = (query_entry repo_id event policy (get repo_id s.entries)).0 in
    record {
      distinct = insert-HasDistinctKeys repo_id entry s.entries v.distinct;
      sound = insert-AllValues IsSound repo_id entry s.entries v.sound (
          query_entry-IsSound repo_id event policy (get repo_id s.entries)
            (λ e found. AllValues-get IsSound repo_id s.entries v.sound found));
    }

on_refresh_completed-IsValidStore :
    (s : CacheStore) (repo_id : RepoId) (event : RefreshCompletedEvent)
    → IsValidStore s
    → IsValidStore (on_refresh_completed s repo_id event).0
unfolding on_refresh_completed with_entries
on_refresh_completed-IsValidStore s repo_id event v = elim (Option-cases (get repo_id s.entries)) [
  | inl missing ↦ rw missing v
  | inr (e, found) ↦
      let e' =
        with_refresh_completed e event.output event.pr_outputs event.refresh_mode event.now
          event.now_wall in
      let old : IsSound e = AllValues-get IsSound repo_id s.entries v.sound found in
      rw found (record {
        distinct = insert-HasDistinctKeys repo_id e' s.entries v.distinct;
        sound =
            insert-AllValues IsSound repo_id e' s.entries v.sound (completed-IsSound e event old);
      })
]

retain-IsSound :
    (age : ℕ) (now : ℕ) (m : HashMap CacheEntryState)
    → AllValues IsSound m
    → AllValues IsSound (retain_unexpired age now m).0
unfolding retain_unexpired
retain-IsSound age now [] h = tt
retain-IsSound age now ((k, e) ∷ m) h = elim (Bool-cases (is_expired e age now)) [
  | inl gone ↦ rw gone (retain-IsSound age now m h.1)
  | inr here ↦ rw here (h.0, retain-IsSound age now m h.1)
]

tick_loop-valid :
    (snapshot : Option RateLimitSnapshot) (cost : ℕ) (input : SchedulerTickInput)
    (m updated : HashMap CacheEntryState) (effects : List Effect)
    → AllValues IsSound m
    → AllValues IsSound updated
    → HasDistinctKeys updated
    → AllValues IsSound (tick_loop snapshot cost input m updated effects).0
      × HasDistinctKeys (tick_loop snapshot cost input m updated effects).0
unfolding tick_loop
tick_loop-valid snapshot cost input [] updated effects h u d = (u, d)
tick_loop-valid snapshot cost input ((k, e) ∷ m) updated effects h u d =
    let (e', spawned) = tick_entry k e snapshot cost input in
    tick_loop-valid snapshot cost input m (insert k e' updated) (effects ++ spawned) h.1
      (insert-AllValues IsSound k e' updated u (tick_entry-IsSound k e snapshot cost input h.0))
      (insert-HasDistinctKeys k e' updated d)

tick_entries-IsValidStore :
    (s : CacheStore) (input : SchedulerTickInput)
    → IsValidStore s
    → IsValidStore (tick_entries s input).0
unfolding tick_entries with_entries
tick_entries-IsValidStore s input v =
    let (kept, expired) = retain_unexpired input.entry_max_age_secs input.now s.entries in
    let (sound, distinct) =
      tick_loop-valid s.latest_rate_limit (total_refresh_cost 0 (values kept)) input kept [] expired
        (retain-IsSound input.entry_max_age_secs input.now s.entries v.sound) tt tt in
    record { distinct = distinct; sound = sound }

on_scheduler_tick-IsValidStore :
    (s : CacheStore) (input : SchedulerTickInput)
    → IsValidStore s
    → IsValidStore (on_scheduler_tick s input).0
unfolding on_scheduler_tick with_backoff_until
on_scheduler_tick-IsValidStore s input v =
    let s' = record s { backoff_until = clear_backoff s.backoff_until input.now } in
    let v' : IsValidStore s' = record { distinct = v.distinct; sound = v.sound } in
    elim (Bool-cases (is_backed_off s' input.now)) [
      | inl held ↦ rw held v'
      | inr free ↦ rw free (tick_entries-IsValidStore s' input v')
    ]

on_rate_limit_observed-IsValidStore :
    (s : CacheStore) (event : RateLimitObservedEvent)
    → IsValidStore s
    → IsValidStore (on_rate_limit_observed s event).0
unfolding on_rate_limit_observed with_backoff_until with_latest_rate_limit
on_rate_limit_observed-IsValidStore s event v = record { distinct = v.distinct; sound = v.sound }

-- Every operation keeps the store valid.
pub Step-IsValidStore : {s t : CacheStore} → Step s t → IsValidStore s → IsValidStore t
Step-IsValidStore {s} (query event repo_id policy e) v =
    rw e (on_query-IsValidStore s event repo_id policy v)
Step-IsValidStore {s} (complete repo_id event e) v =
    rw e (on_refresh_completed-IsValidStore s repo_id event v)
Step-IsValidStore {s} (tick input e) v = rw e (on_scheduler_tick-IsValidStore s input v)
Step-IsValidStore {s} (observe event e) v = rw e (on_rate_limit_observed-IsValidStore s event v)

-- Every store that the daemon reaches is valid.
pub Reach-IsValidStore : {s : CacheStore} → Reach s → IsValidStore s
Reach-IsValidStore start = record { distinct = tt; sound = tt }
Reach-IsValidStore (next r step) = Step-IsValidStore step (Reach-IsValidStore r)

-- No entry of a store that the daemon reaches waits for the retry of its first refresh.
pub never_pending_retry :
    {s : CacheStore}
    → Reach s
    → (k : RepoId) (e : CacheEntryState) → get k s.entries ≡ some e
    → e.fetch_state ≢ pending_retry
never_pending_retry {s} r k e found =
    (AllValues-get IsSound k s.entries (Reach-IsValidStore r).sound found).never_pending
