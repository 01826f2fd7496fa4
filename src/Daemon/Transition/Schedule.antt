-- ===== src/Daemon/Transition/Schedule.antt =====
-- `on_scheduler_tick` as a whole: what becomes of an entry, and which refreshes are started.
use merge_ready.Prelude.{
  ◌≡◌, refl, true, false, Option, none, some, [], if◌then◌else◌, HasDistinctKeys, get, arith, ◌∙◌,
}
use merge_ready.Daemon.Entry.{CacheEntryState, is_active, with_mark_refreshing}
use merge_ready.Daemon.Freshness.{is_expired}
use merge_ready.Daemon.Store.{
  RepoId, CacheStore, is_backed_off, with_backoff_until, SchedulerTickInput,
}
use merge_ready.Daemon.Transition.{
  clear_backoff, release_lock, count_cold, tick_unlocked, tick_entry, tick_entries,
  on_scheduler_tick,
}
use merge_ready.Daemon.Transition.SingleFlight.{spawns}
use merge_ready.Daemon.Transition.Tick.{
  unexpired, round_cost, tick_due, ticked, interval-clear, cleared_idle, elapsed-clear,
  get-tick_entries, spawns-tick_entries,
}

-- What a pass that is not held back makes of an entry: an expired one goes; one whose refresh is
-- due is marked; any other only gives up a lock that has run out.
abbrev pub after_tick :
    CacheStore → SchedulerTickInput → Option CacheEntryState → Option CacheEntryState
after_tick store input none = none
after_tick store input (some e) =
    if is_expired e input.entry_max_age_secs input.now
    then none
    else if tick_due store.latest_rate_limit (round_cost store input) input (some e)
    then some (with_mark_refreshing (count_cold input (release_lock input e)) input.now)
    else if is_active e
    then some (release_lock input e)
    else some e

module _ (store : CacheStore) (input : SchedulerTickInput) where
  clear_lem :
      is_backed_off store input.now ≡ false
      → is_backed_off
          (with_backoff_until store (clear_backoff store.backoff_until input.now))
          input.now
        ≡ false
  unfolding is_backed_off with_backoff_until clear_backoff
  clear_lem h = ground arith

  -- While a backoff is in force the scheduler changes nothing and starts nothing.
  pub tick_backed_off :
      is_backed_off store input.now ≡ true → on_scheduler_tick store input ≡ (store, [])
  unfolding on_scheduler_tick is_backed_off with_backoff_until clear_backoff
  tick_backed_off h = ground arith

  abbrev awake : CacheStore
  awake = with_backoff_until store (clear_backoff store.backoff_until input.now)

  tick_awake :
      is_backed_off store input.now ≡ false
      → on_scheduler_tick store input ≡ tick_entries awake input
  unfolding on_scheduler_tick
  tick_awake h = rw (clear_lem h)

  after_of_ticked :
      (j : RepoId) (o : Option CacheEntryState)
      → ticked store.latest_rate_limit (round_cost store input) input j (unexpired input o) none
        ≡ after_tick store input o
  unfolding tick_entry tick_unlocked release_lock
  after_of_ticked j none = refl
  after_of_ticked j (some e) = ground (
    arith,
    interval-clear store.latest_rate_limit (round_cost store input) input e,
    cleared_idle store.latest_rate_limit (round_cost store input) input e,
    elapsed-clear store.latest_rate_limit (round_cost store input) input e,
  )

  -- For a store with distinct keys and no backoff in force, a tick drops the entries that have
  -- expired, marks those whose refresh is due, takes a lock that has run out from the other active
  -- ones, and leaves the rest as they are.
  pub get-on_scheduler_tick :
      HasDistinctKeys store.entries
      → is_backed_off store input.now ≡ false
      → (j : RepoId)
      → get j (on_scheduler_tick store input).0.entries
        ≡ after_tick store input (get j store.entries)
  unfolding with_backoff_until
  get-on_scheduler_tick distinct h j =
      rw (tick_awake h)
        (get-tick_entries awake input distinct j ∙ after_of_ticked j (get j store.entries))

  -- For a store with distinct keys and no backoff in force, a tick starts one refresh of a
  -- repository if it has an entry that has not expired and is due, and none otherwise.
  pub spawns-on_scheduler_tick :
      HasDistinctKeys store.entries
      → is_backed_off store input.now ≡ false
      → (j : RepoId)
      → spawns j (on_scheduler_tick store input).1 ≡ (
          if tick_due store.latest_rate_limit
            (round_cost store input)
            input
            (unexpired input (get j store.entries))
          then 1
          else 0)
  unfolding with_backoff_until
  spawns-on_scheduler_tick distinct h j =
      rw (tick_awake h) (spawns-tick_entries awake input distinct j)
