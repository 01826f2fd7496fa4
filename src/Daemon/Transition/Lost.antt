-- ===== src/Daemon/Transition/Lost.antt =====
-- What becomes of an entry whose refresh never reports back while it has nothing to print: the
-- scheduler looks at active entries only, so the timeout of the refresh lock does not apply to it.
use merge_ready.Prelude.{
  ◌≡◌, ◌≢◌, refl, eqb_iff, Bool, true, false, ◌&&◌, Option, none, some, List, [], ◌∷◌, ◌++◌,
  is_empty, is_some, is_some_and, HasDistinctKeys, get, arith, inl, inr, Bool-cases,
}
use merge_ready.Daemon.Entry.{
  CacheEntryState, is_refreshing, is_active, with_record_query, with_reset_cold_count,
}
use merge_ready.Daemon.Policy.{RefreshPolicy}
use merge_ready.Daemon.Store.{
  RepoId, CacheStore, is_backed_off, with_backoff_until, with_latest_rate_limit, QueryEvent,
  RefreshCompletedEvent, SchedulerTickInput, RateLimitObservedEvent, Effect,
}
use merge_ready.Daemon.Transition.{
  query_stale, query_entry, on_query, on_refresh_completed, on_scheduler_tick,
  on_rate_limit_observed,
}
use merge_ready.Daemon.Transition.Query.{get-on_query}
use merge_ready.Daemon.Transition.SingleFlight.{spawns, spawns-append, busy_stays}
use merge_ready.Daemon.Transition.Tick.{unexpired, round_cost, tick_due}
use merge_ready.Daemon.Transition.Schedule.{
  after_tick, tick_backed_off, get-on_scheduler_tick, spawns-on_scheduler_tick,
}
use merge_ready.Daemon.Transition.Completion.{get-on_refresh_completed}
use merge_ready.Daemon.Transition.Reachable.{
  IsValidStore, Step, Step-IsValidStore, query, complete, tick, observe,
}

-- One event as a value, and its effect on the store.
pub data Event : Type 0 where
  on_queried : QueryEvent → RepoId → RefreshPolicy → Event
  on_completed : RepoId → RefreshCompletedEvent → Event
  on_ticked : SchedulerTickInput → Event
  on_observed : RateLimitObservedEvent → Event

abbrev pub apply : CacheStore → Event → CacheStore × List Effect
apply s (on_queried event repo_id policy) = on_query s event repo_id policy
apply s (on_completed repo_id event) = on_refresh_completed s repo_id event
apply s (on_ticked input) = on_scheduler_tick s input
apply s (on_observed event) = on_rate_limit_observed s event

unfoldable pub run : CacheStore → List Event → CacheStore × List Effect
run s [] = (s, [])
run s (ev ∷ evs) =
    let (s', effects) = apply s ev in let (last, later) = run s' evs in (last, effects ++ later)

-- The entry of `k` has a refresh in flight and nothing to print.
abbrev pub is_waiting : Option CacheEntryState → Bool
is_waiting o = is_some_and o (λ e. is_refreshing e && is_empty e.output)

abbrev pub waiting : RepoId → CacheStore → Bool
waiting k s = is_waiting (get k s.entries)

-- Any event but a result for `k`.
abbrev pub IsNoResult : RepoId → Event → Type 0
IsNoResult k (on_completed repo_id event) = repo_id ≢ k
IsNoResult k _ = Unit

-- No result for `k` arrives, and the entry of `k` does not expire.
abbrev pub IsUnanswered : RepoId → CacheStore → List Event → Type 0
IsUnanswered k s [] = Unit
IsUnanswered k s (ev ∷ evs) =
    IsNoResult k ev
    × (is_some (get k (apply s ev).0.entries) ≡ true)
    × IsUnanswered k (apply s ev).0 evs

abbrev Stays : RepoId → CacheStore × List Effect → Type 0
Stays k r = (spawns k r.1 ≡ 0) × (waiting k r.0 ≡ true)

waiting_query :
    (event : QueryEvent) (j : RepoId) (policy : RefreshPolicy) (o : Option CacheEntryState)
    → is_waiting o ≡ true
    → is_waiting (some (query_entry j event policy o).0) ≡ true
unfolding query_entry query_stale with_record_query with_reset_cold_count is_refreshing
waiting_query event j policy none h = cc
waiting_query event j policy (some e) h = ground arith

waiting_inactive : (e : CacheEntryState) → is_waiting (some e) ≡ true → is_active e ≡ false
unfolding is_active
waiting_inactive e h = ground arith

waiting_tick :
    (s : CacheStore) (input : SchedulerTickInput) (o : Option CacheEntryState)
    → is_waiting o ≡ true
    → (tick_due s.latest_rate_limit (round_cost s input) input (unexpired input o) ≡ false)
      × (is_some (after_tick s input o) ≡ true → after_tick s input o ≡ o)
waiting_tick s input none h = cc
waiting_tick s input (some e) h = ground (arith, waiting_inactive e h)

busy_of_waiting :
    (o : Option CacheEntryState) → is_waiting o ≡ true → is_some_and o is_refreshing ≡ true
busy_of_waiting none h = cc
busy_of_waiting (some e) h = ground arith

module _ (k : RepoId) (s : CacheStore) (distinct : HasDistinctKeys s.entries)
    (h : waiting k s ≡ true) where
  waits_query :
      (event : QueryEvent) (j : RepoId) (policy : RefreshPolicy)
      → Stays k (on_query s event j policy)
  waits_query event j policy = (
    (busy_stays policy k s event j (busy_of_waiting (get k s.entries) h)).0,
    ground (
      arith,
      get-on_query s event j policy k,
      waiting_query event j policy (get k s.entries) h,
      eqb_iff j k,
    ),
  )

  waits_tick :
      (input : SchedulerTickInput)
      → is_some (get k (on_scheduler_tick s input).0.entries) ≡ true
      → Stays k (on_scheduler_tick s input)
  unfolding spawns
  waits_tick input present = elim (Bool-cases (is_backed_off s input.now)) [
    | inl held ↦ rw (tick_backed_off s input held) (refl, h)
    | inr free ↦
        let (idle, same) = waiting_tick s input (get k s.entries) h in
        ground (
          arith,
          get-on_scheduler_tick s input distinct free k,
          spawns-on_scheduler_tick s input distinct free k,
        )
  ]

  no_effects :
      (j : RepoId) (event : RefreshCompletedEvent) → spawns k (on_refresh_completed s j event).1 ≡ 0
  unfolding on_refresh_completed spawns
  no_effects j event = refl

  waits_completed :
      (j : RepoId) (event : RefreshCompletedEvent)
      → j ≢ k
      → Stays k (on_refresh_completed s j event)
  waits_completed j event ne =
      (no_effects j event, ground (arith, get-on_refresh_completed s j event k, eqb_iff j k))

  waits_observed : (event : RateLimitObservedEvent) → Stays k (on_rate_limit_observed s event)
  unfolding on_rate_limit_observed with_backoff_until with_latest_rate_limit spawns
  waits_observed event = ground arith

waits :
    (k : RepoId) (s : CacheStore) (ev : Event)
    → IsValidStore s
    → waiting k s ≡ true
    → IsNoResult k ev
    → is_some (get k (apply s ev).0.entries) ≡ true
    → Stays k (apply s ev)
waits k s (on_queried event j policy) v h n p = waits_query k s v.distinct h event j policy
waits k s (on_completed j event) v h n p = waits_completed k s v.distinct h j event n
waits k s (on_ticked input) v h n p = waits_tick k s v.distinct h input p
waits k s (on_observed event) v h n p = waits_observed k s v.distinct h event

pub apply-Step : (s : CacheStore) (ev : Event) → Step s (apply s ev).0
apply-Step s (on_queried event j policy) = query event j policy refl
apply-Step s (on_completed j event) = complete j event refl
apply-Step s (on_ticked input) = tick input refl
apply-Step s (on_observed event) = observe event refl

-- In a valid store, an entry with a refresh in flight and nothing to print stays one, and no further
-- refresh of it is started, over any events among which no result for it arrives and before which
-- it does not expire.
pub no_retry_of_lost_refresh :
    (k : RepoId) (s : CacheStore) (evs : List Event)
    → IsValidStore s
    → waiting k s ≡ true
    → IsUnanswered k s evs
    → (spawns k (run s evs).1 ≡ 0) × (waiting k (run s evs).0 ≡ true)
unfolding run spawns
no_retry_of_lost_refresh k s [] v h u = (refl, h)
no_retry_of_lost_refresh k s (ev ∷ evs) v h u =
    let (s', effects) = apply s ev in
    let (none_now, still) = waits k s ev v h u.0 u.1 in
    let (none_later, last) =
      no_retry_of_lost_refresh k s' evs (Step-IsValidStore (apply-Step s ev) v) still u.2 in
    (rw (spawns-append, none_now, none_later) refl, last)
