-- ===== src/Daemon/Transition/Backoff.antt =====
-- `on_rate_limit_observed`, and what it makes of the scheduler.
use merge_ready.Prelude.{
  ◌+◌, ◌-◌, ◌≤◌, ◌<◌, ◌≡◌, ◌≢◌, ◌↔◌, Bool, true, false, Option, none, some, [], if◌then◌else◌, ◌&&◌,
  le→leb, leb, Member, arith, lt→ltb,
}
use merge_ready.Time.{Instant}
use merge_ready.Daemon.Snapshot.{bottleneck_reset_at}
use merge_ready.Daemon.Store.{
  CacheStore, is_backed_off, with_backoff_until, with_latest_rate_limit, SchedulerTickInput,
  RateLimitObservedEvent, enter_backoff,
}
use merge_ready.Daemon.Transition.{
  backoff_safety_margin, backoff_effects, should_enter_backoff, reset_instant_from_snapshot,
  new_backoff_until, on_rate_limit_observed, on_scheduler_tick,
}
use merge_ready.Daemon.Transition.Schedule.{tick_backed_off}

abbrev pub observed : CacheStore → RateLimitObservedEvent → CacheStore
observed store event = (on_rate_limit_observed store event).0

-- When the bottleneck resets, on the monotonic clock, with the margin.
abbrev pub resume_at : RateLimitObservedEvent → Instant
resume_at event =
    event.now + (bottleneck_reset_at event.snapshot - event.now_wall) + backoff_safety_margin

effects_iff :
    (enter : Bool) (old new : Option Instant) (until : Instant)
    → Member (enter_backoff until) (backoff_effects enter old new)
      ↔ ((enter ≡ true) × (new ≡ some until) × (old ≢ some until))
effects_iff enter old none until = ground arith
effects_iff false old (some u) until = ground arith
effects_iff true none (some u) until = ground arith
effects_iff true (some t) (some u) until = ground arith

module _ (store : CacheStore) (event : RateLimitObservedEvent) where
  -- An observation that asks for a backoff sets it to the bottleneck's reset, if that is not in the
  -- past; any other leaves the backoff as it was.
  pub backoff_until-observed : (observed store event).backoff_until ≡ (
      if should_enter_backoff event.snapshot
        && leb event.now_wall (bottleneck_reset_at event.snapshot)
      then some (resume_at event)
      else store.backoff_until)
  unfolding on_rate_limit_observed new_backoff_until reset_instant_from_snapshot with_backoff_until
      with_latest_rate_limit
  backoff_until-observed = ground arith

  -- The notice of a backoff is given exactly if the quota is low and the backoff has moved to the
  -- instant that the notice names.
  pub enter_backoff_iff :
      (until : Instant)
      → Member (enter_backoff until) (on_rate_limit_observed store event).1 ↔ (
          (should_enter_backoff event.snapshot ≡ true)
          × ((observed store event).backoff_until ≡ some until)
          × (store.backoff_until ≢ some until))
  unfolding on_rate_limit_observed with_backoff_until with_latest_rate_limit
  enter_backoff_iff until =
      effects_iff (should_enter_backoff event.snapshot) store.backoff_until
        (new_backoff_until store event) until

  -- If an observation asks for a backoff and its bottleneck's reset is to come, then a tick of the
  -- scheduler before the instant of that reset changes nothing and starts nothing.
  pub quiet_until_reset :
      (input : SchedulerTickInput)
      → should_enter_backoff event.snapshot ≡ true
      → event.now_wall ≤ bottleneck_reset_at event.snapshot
      → input.now < resume_at event
      → on_scheduler_tick (observed store event) input ≡ (observed store event, [])
  unfolding is_backed_off
  quiet_until_reset input enter future early =
      tick_backed_off (observed store event) input
        (rw (backoff_until-observed, enter, le→leb _ _ future) (lt→ltb _ _ early))
