-- ===== src/Daemon/Transition/Tick.antt =====
-- The scheduler's pass over the map (`on_scheduler_tick` of transition.rs), key by key.
use merge_ready.Prelude.{
  ℕ, ◌+◌, ◌≡◌, refl, eqb, eqb_iff, Bool, false, not, ◌&&◌, ◌||◌, Option, none, some, List, [], ◌∷◌,
  ◌++◌, leb, if◌then◌else◌, HashMap, HasDistinctKeys, get, insert, get-insert, values, arith, ap,
  ◌∙◌,
}
use merge_ready.Time.{as_secs}
use merge_ready.Daemon.Snapshot.{RateLimitSnapshot}
use merge_ready.Daemon.Entry.{CacheEntryState, is_refreshing, is_active, with_clear_refresh_lock}
use merge_ready.Daemon.Freshness.{
  is_expired, is_cold, has_recent_query, refresh_lock_expired, fetched_at_elapsed,
}
use merge_ready.Daemon.Policy.{
  effective_mode, scale_interval, effective_refresh_interval_secs,
  effective_refresh_interval_secs_scaled,
}
use merge_ready.Daemon.Store.{RepoId, CacheStore, with_entries, SchedulerTickInput, Effect}
use merge_ready.Daemon.Transition.{
  retain_unexpired, total_refresh_cost, release_lock, tick_unlocked, tick_entry, tick_loop,
  tick_entries,
}
use merge_ready.Daemon.Transition.SingleFlight.{spawns, spawns-append}

-- What is left of a key's entry after the expired ones are dropped.
abbrev pub unexpired : SchedulerTickInput → Option CacheEntryState → Option CacheEntryState
unexpired input none = none
unexpired input (some e) = if is_expired e input.entry_max_age_secs input.now then none else some e

-- The calls that one round of refreshes costs.
abbrev pub round_cost : CacheStore → SchedulerTickInput → ℕ
round_cost store input =
    total_refresh_cost 0
      (values (retain_unexpired input.entry_max_age_secs input.now store.entries).0)

-- Whether the scheduler starts a refresh of the entry: it is active, has no refresh in flight but
-- one whose lock has run out, and its interval has passed since it was fetched.
abbrev pub tick_due :
    Option RateLimitSnapshot → ℕ → SchedulerTickInput → Option CacheEntryState → Bool
tick_due snapshot cost input none = false
tick_due snapshot cost input (some e) =
    is_active e
    && (not (is_refreshing e) || refresh_lock_expired e input.refresh_lock_timeout_secs input.now)
    && leb
        (effective_refresh_interval_secs_scaled input.policy e snapshot cost input.now
          input.now_wall)
        (as_secs (fetched_at_elapsed e input.now))

module _ (input : SchedulerTickInput) where
  get-retain :
      (j : RepoId) (m : HashMap CacheEntryState)
      → HasDistinctKeys m
      → get j (retain_unexpired input.entry_max_age_secs input.now m).0 ≡ unexpired input (get j m)
  unfolding retain_unexpired get
  get-retain j [] h = refl
  get-retain j ((k, e) ∷ m) h = ground (arith, get-retain j m, eqb_iff k j)

  pub retain-HasDistinctKeys :
      (m : HashMap CacheEntryState)
      → HasDistinctKeys m
      → HasDistinctKeys (retain_unexpired input.entry_max_age_secs input.now m).0
  unfolding retain_unexpired
  retain-HasDistinctKeys [] h = tt
  retain-HasDistinctKeys ((k, e) ∷ m) h = ground (arith, retain-HasDistinctKeys m, get-retain k m)

  spawns-retain :
      (j : RepoId) (m : HashMap CacheEntryState)
      → spawns j (retain_unexpired input.entry_max_age_secs input.now m).1 ≡ 0
  unfolding retain_unexpired spawns
  spawns-retain j [] = refl
  spawns-retain j ((k, e) ∷ m) = ground (arith, spawns-retain j m)

module _ (snapshot : Option RateLimitSnapshot) (cost : ℕ) (input : SchedulerTickInput) where
  -- The entry of a key after the loop.
  abbrev pub ticked :
      RepoId → Option CacheEntryState → Option CacheEntryState → Option CacheEntryState
  ticked j none old = old
  ticked j (some e) old = some (tick_entry j e snapshot cost input).0

  abbrev ticked_spawns : RepoId → Option CacheEntryState → ℕ
  ticked_spawns j none = 0
  ticked_spawns j (some e) = spawns j (tick_entry j e snapshot cost input).1

  get-tick_loop :
      (j : RepoId) (m updated : HashMap CacheEntryState) (effects : List Effect)
      → HasDistinctKeys m
      → get j (tick_loop snapshot cost input m updated effects).0
        ≡ ticked j (get j m) (get j updated)
  unfolding tick_loop get
  get-tick_loop j [] updated effects h = refl
  get-tick_loop j ((k, e) ∷ m) updated effects h =
      let (e', spawned) = tick_entry k e snapshot cost input in
      ground (
        arith,
        get-tick_loop j m (insert k e' updated) (effects ++ spawned),
        get-insert k j e' updated,
        eqb_iff k j,
      )

  spawns-tick_entry_ne :
      (j k : RepoId) (e : CacheEntryState)
      → eqb k j ≡ false
      → spawns j (tick_entry k e snapshot cost input).1 ≡ 0
  unfolding tick_entry tick_unlocked spawns
  spawns-tick_entry_ne j k e h = ground arith

  spawns-tick_loop :
      (j : RepoId) (m updated : HashMap CacheEntryState) (effects : List Effect)
      → HasDistinctKeys m
      → spawns j (tick_loop snapshot cost input m updated effects).1
        ≡ spawns j effects + ticked_spawns j (get j m)
  unfolding tick_loop get
  spawns-tick_loop j [] updated effects h = omega arith
  spawns-tick_loop j ((k, e) ∷ m) updated effects h =
      let (e', spawned) = tick_entry k e snapshot cost input in
      ground (
        arith,
        spawns-tick_loop j m (insert k e' updated) (effects ++ spawned),
        spawns-append j effects spawned,
        spawns-tick_entry_ne j k e,
        eqb_iff k j,
      )

  pub interval-clear :
      (e : CacheEntryState)
      → effective_refresh_interval_secs_scaled input.policy
          (with_clear_refresh_lock e)
          snapshot
          cost
          input.now
          input.now_wall
        ≡ effective_refresh_interval_secs_scaled input.policy e snapshot cost input.now
            input.now_wall
  unfolding with_clear_refresh_lock effective_refresh_interval_secs_scaled scale_interval
      effective_mode effective_refresh_interval_secs is_cold has_recent_query
  interval-clear e = ground arith

  pub cleared_idle : (e : CacheEntryState) → is_refreshing (with_clear_refresh_lock e) ≡ false
  unfolding with_clear_refresh_lock is_refreshing
  cleared_idle e = ground arith

  pub elapsed-clear :
      (e : CacheEntryState)
      → fetched_at_elapsed (with_clear_refresh_lock e) input.now ≡ fetched_at_elapsed e input.now
  unfolding with_clear_refresh_lock fetched_at_elapsed
  elapsed-clear e = refl

  spawns-tick_entry :
      (j : RepoId) (e : CacheEntryState)
      → spawns j (tick_entry j e snapshot cost input).1
        ≡ (if tick_due snapshot cost input (some e) then 1 else 0)
  unfolding tick_entry tick_unlocked release_lock spawns
  spawns-tick_entry j e =
      ground (arith, interval-clear e, cleared_idle e, elapsed-clear e, eqb_iff j j)

  ticked_spawns-due :
      (j : RepoId) (o : Option CacheEntryState)
      → ticked_spawns j o ≡ (if tick_due snapshot cost input o then 1 else 0)
  ticked_spawns-due j none = refl
  ticked_spawns-due j (some e) = spawns-tick_entry j e

module _ (store : CacheStore) (input : SchedulerTickInput)
    (distinct : HasDistinctKeys store.entries) where
  pub get-tick_entries :
      (j : RepoId)
      → get j (tick_entries store input).0.entries
        ≡ ticked store.latest_rate_limit
            (round_cost store input)
            input
            j
            (unexpired input (get j store.entries))
            none
  unfolding tick_entries with_entries get
  get-tick_entries j =
      let (kept, expired) = retain_unexpired input.entry_max_age_secs input.now store.entries in
      get-tick_loop store.latest_rate_limit (round_cost store input) input j kept [] expired
        (retain-HasDistinctKeys input store.entries distinct)
      ∙ ap (λ o. ticked store.latest_rate_limit (round_cost store input) input j o none)
          (get-retain input j store.entries distinct)

  pub spawns-tick_entries :
      (j : RepoId)
      → spawns j (tick_entries store input).1 ≡ (
          if tick_due store.latest_rate_limit
            (round_cost store input)
            input
            (unexpired input (get j store.entries))
          then 1
          else 0)
  unfolding tick_entries
  spawns-tick_entries j =
      let (kept, expired) = retain_unexpired input.entry_max_age_secs input.now store.entries in
      ground (
        arith,
        spawns-tick_loop store.latest_rate_limit (round_cost store input) input j kept [] expired
            (retain-HasDistinctKeys input store.entries distinct),
        spawns-retain input j store.entries,
        get-retain input j store.entries distinct,
        ticked_spawns-due store.latest_rate_limit (round_cost store input) input j (get j kept),
      )
