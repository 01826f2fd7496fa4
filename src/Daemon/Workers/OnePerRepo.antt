-- ===== src/Daemon/Workers/OnePerRepo.antt =====
-- The daemon with its workers: a repository has one worker at most.
use merge_ready.Prelude.{
  ℕ, ◌+◌, ◌≤◌, ◌≡◌, refl, eqb, eqb_iff, Text, Bool, true, false, ◌&&◌, ◌||◌, Option, none, some,
  List, [], ◌∷◌, ◌++◌, if◌then◌else◌, is_some_and, get, HasDistinctKeys, arith, inl, inr, ◌⊎◌,
  Bool-cases, Option-cases, All,
}
use merge_ready.Daemon.Entry.{CacheEntryState, is_refreshing, with_mark_refreshing}
use merge_ready.Daemon.Freshness.{is_expired, refresh_lock_expired}
use merge_ready.Daemon.Policy.{RefreshPolicy}
use merge_ready.Daemon.Store.{
  RepoId, CacheStore, new, is_backed_off, with_backoff_until, with_latest_rate_limit, QueryEvent,
  RefreshCompletedEvent, SchedulerTickInput, RateLimitObservedEvent, Effect, spawn_refresh,
  emit_output, record_expired, enter_backoff,
}
use merge_ready.Daemon.Transition.{
  on_query, on_refresh_completed, on_scheduler_tick, on_rate_limit_observed, release_lock,
  count_cold,
}
use merge_ready.Daemon.Transition.SingleFlight.{spawns, busy, busy_stays, one_spawn_busy}
use merge_ready.Daemon.Transition.Tick.{unexpired, round_cost, tick_due}
use merge_ready.Daemon.Transition.Schedule.{
  after_tick, tick_backed_off, get-on_scheduler_tick, spawns-on_scheduler_tick,
}
use merge_ready.Daemon.Transition.Completion.{get-on_refresh_completed}
use merge_ready.Daemon.Transition.Reachable.{IsValidStore, Step, Step-IsValidStore}
use merge_ready.Daemon.Workers.{
  current_repo_id, start_workers, System, without, SystemEvent, queried, ticked, observed, reported,
  lost, with_effects, step, steps,
}

-- How many workers report to `k`.
abbrev pub working : RepoId → List RepoId → ℕ
working k [] = 0
working k (j ∷ js) = (if eqb j k then 1 else 0) + working k js

-- Whether a tick gives up a refresh of the entry: its lock has run out, or the entry expires.
abbrev pub gives_up : SchedulerTickInput → Option CacheEntryState → Bool
gives_up input o = is_some_and o (λ e.
    is_refreshing e
    && (refresh_lock_expired e input.refresh_lock_timeout_secs input.now
        || is_expired e input.entry_max_age_secs input.now))

-- A started worker reports to `k` exactly if it was started for `k`: its directory has not switched
-- from `k` to another branch, nor to `k` from another.
abbrev pub IsSettled : RepoId → (Text → Option RepoId) → Effect → Type 0
IsSettled k repo_id_from_cwd (spawn_refresh id cwd) =
    eqb (current_repo_id repo_id_from_cwd id cwd) k ≡ eqb id k
IsSettled k repo_id_from_cwd (emit_output t) = Unit
IsSettled k repo_id_from_cwd (record_expired id) = Unit
IsSettled k repo_id_from_cwd (enter_backoff t) = Unit

-- An event that gives up no refresh of `k`, and whose workers are settled.
abbrev pub IsPatient : RepoId → CacheStore → SystemEvent → Type 0
IsPatient k s (queried repo_id_from_cwd event j policy) =
    All (IsSettled k repo_id_from_cwd) (on_query s event j policy).1
IsPatient k s (ticked repo_id_from_cwd input) =
    (gives_up input (get k s.entries) ≡ false)
    × All (IsSettled k repo_id_from_cwd) (on_scheduler_tick s input).1
IsPatient k s (observed event) = Unit
IsPatient k s (reported id event) = Unit
IsPatient k s (lost id) = Unit

working-append :
    (k : RepoId) (xs ys : List RepoId) → working k (xs ++ ys) ≡ working k xs + working k ys
working-append k [] ys = omega arith
working-append k (j ∷ xs) ys = omega (arith, working-append k xs ys)

working-without :
    (k id : RepoId) (js : List RepoId) {rest : List RepoId}
    → without id js ≡ some rest
    → working k js ≡ (if eqb id k then 1 else 0) + working k rest
unfolding without
working-without k id [] h = cc
working-without k id (j ∷ js) {rest} h = elim (Option-cases (without id js)) [
  | inl missing ↦ ground (arith, eqb_iff j id)
  | inr (others, found) ↦
      ground (arith, working-without k id js {rest = others} found, eqb_iff j id)
]

tick_of :
    (s : CacheStore) (input : SchedulerTickInput) (o : Option CacheEntryState)
    → gives_up input o ≡ false
    → ((tick_due s.latest_rate_limit (round_cost s input) input (unexpired input o) ≡ false)
        × (is_some_and o is_refreshing ≡ true
            → is_some_and (after_tick s input o) is_refreshing ≡ true))
      ⊎ ((tick_due s.latest_rate_limit (round_cost s input) input (unexpired input o) ≡ true)
          × (is_some_and o is_refreshing ≡ false)
          × (is_some_and (after_tick s input o) is_refreshing ≡ true))
unfolding is_refreshing release_lock count_cold with_mark_refreshing
tick_of s input none h = ground arith
tick_of s input (some e) h = ground arith

-- How the refreshes of `k` that a transition starts go with its entry: none, and one in flight
-- stays; or one, where none was in flight before and one is after.
abbrev Grows : RepoId → CacheStore → CacheStore × List Effect → Type 0
Grows k s r =
    ((spawns k r.1 ≡ 0) × (busy k s ≡ true → busy k r.0 ≡ true))
    ⊎ ((spawns k r.1 ≡ 1) × ((busy k s ≡ false) × (busy k r.0 ≡ true)))

query-Grows :
    (k : RepoId) (s : CacheStore) (event : QueryEvent) (j : RepoId) (policy : RefreshPolicy)
    → Grows k s (on_query s event j policy)
query-Grows k s event j policy = elim (Bool-cases (busy k s)) [
  | inl held ↦ let (idle, still) = busy_stays policy k s event j held in inl (idle, λ b. still)
  | inr free ↦ elim (one_spawn_busy policy k s event j) [
    | inl idle ↦ inl (idle, λ held. absurd (ground (arith, held, free)))
    | inr (once, now_busy) ↦ inr (once, (free, now_busy))
  ]
]

tick-Grows :
    (k : RepoId) (s : CacheStore) (input : SchedulerTickInput)
    → HasDistinctKeys s.entries
    → gives_up input (get k s.entries) ≡ false
    → Grows k s (on_scheduler_tick s input)
unfolding spawns
tick-Grows k s input distinct patient = elim (Bool-cases (is_backed_off s input.now)) [
  | inl held ↦ rw (tick_backed_off s input held) (inl (refl, λ b. b))
  | inr free ↦ elim (tick_of s input (get k s.entries) patient) [
    | inl (idle, still) ↦ inl (
      rw (spawns-on_scheduler_tick s input distinct free k, idle) refl,
      λ b. rw (get-on_scheduler_tick s input distinct free k) (still b),
    )
    | inr (due, was_free, now_busy) ↦ inr (
      rw (spawns-on_scheduler_tick s input distinct free k, due) refl,
      (was_free, rw (get-on_scheduler_tick s input distinct free k) now_busy),
    )
  ]
]

observe-busy :
    (k : RepoId) (s : CacheStore) (event : RateLimitObservedEvent)
    → busy k (on_rate_limit_observed s event).0 ≡ busy k s
unfolding on_rate_limit_observed with_backoff_until with_latest_rate_limit
observe-busy k s event = refl

-- One worker of `k` at most, and none where no refresh of `k` is in flight.
abbrev IsSingle : RepoId → System → Type 0
IsSingle k s = (working k s.workers ≤ 1) × (busy k s.store ≡ false → working k s.workers ≡ 0)

working-start_workers :
    (repo_id_from_cwd : Text → Option RepoId) (k : RepoId) (es : List Effect)
    → All (IsSettled k repo_id_from_cwd) es
    → working k (start_workers repo_id_from_cwd es) ≡ spawns k es
unfolding start_workers spawns
working-start_workers f k [] h = refl
working-start_workers f k (spawn_refresh id cwd ∷ es) h =
    rw h.0 (omega (arith, working-start_workers f k es h.1))
working-start_workers f k (emit_output t ∷ es) h = working-start_workers f k es h.1
working-start_workers f k (record_expired id ∷ es) h = working-start_workers f k es h.1
working-start_workers f k (enter_backoff t ∷ es) h = working-start_workers f k es h.1

report_busy :
    (k id : RepoId) (s : CacheStore) (event : RefreshCompletedEvent)
    → eqb id k ≡ false
    → busy k (on_refresh_completed s id event).0 ≡ busy k s
report_busy k id s event other = rw (get-on_refresh_completed s id event k, other) refl

module _ (k : RepoId) where
  started :
      (repo_id_from_cwd : Text → Option RepoId) (s : System) (r : CacheStore × List Effect)
      → All (IsSettled k repo_id_from_cwd) r.1
      → Grows k s.store r
      → IsSingle k s
      → IsSingle k (with_effects repo_id_from_cwd s.workers r)
  started repo_id_from_cwd s r settled g h =
      let count = working-append k (start_workers repo_id_from_cwd r.1) s.workers in
      let begun = working-start_workers repo_id_from_cwd k r.1 settled in
      elim g [
        | inl (idle, still) ↦
            ground (arith, count, begun, idle, still, h.0, h.1, Bool-cases (busy k s.store))
        | inr (once, (free, now_busy)) ↦
            ground (arith, count, begun, once, free, now_busy, h.0, h.1)
      ]

  step-IsSingle :
      (s : System) (ev : SystemEvent)
      → IsValidStore s.store
      → IsPatient k s.store ev
      → IsSingle k s
      → IsSingle k (step s ev)
  unfolding step
  step-IsSingle s (queried repo_id_from_cwd event j policy) v p h =
      started repo_id_from_cwd s (on_query s.store event j policy) p
        (query-Grows k s.store event j policy) h
  step-IsSingle s (ticked repo_id_from_cwd input) v p h =
      started repo_id_from_cwd s (on_scheduler_tick s.store input) p.1
        (tick-Grows k s.store input v.distinct p.0) h
  step-IsSingle s (observed event) v p h =
      (h.0, λ free. h.1 (rw (observe-busy k s.store event) at free))
  step-IsSingle s (reported id event) v p h = elim (Option-cases (without id s.workers)) [
    | inl missing ↦ rw missing h
    | inr (rest, found) ↦ rw found (
        ground (
          arith,
          working-without k id s.workers {rest = rest} found,
          h.0,
          h.1,
          report_busy k id s.store event,
        ))
  ]
  step-IsSingle s (lost id) v p h = elim (Option-cases (without id s.workers)) [
    | inl missing ↦ rw missing h
    | inr (rest, found) ↦
        rw found (ground (arith, working-without k id s.workers {rest = rest} found, h.0, h.1))
  ]

  step-IsValidStore :
      (s : System) (ev : SystemEvent) → IsValidStore s.store → IsValidStore (step s ev).store
  unfolding step
  step-IsValidStore s (queried repo_id_from_cwd event j policy) v =
      Step-IsValidStore (Step.query event j policy refl) v
  step-IsValidStore s (ticked repo_id_from_cwd input) v = Step-IsValidStore (Step.tick input refl) v
  step-IsValidStore s (observed event) v = Step-IsValidStore (Step.observe event refl) v
  step-IsValidStore s (reported id event) v = elim (Option-cases (without id s.workers)) [
    | inl missing ↦ rw missing v
    | inr (rest, found) ↦ rw found (Step-IsValidStore (Step.complete id event refl) v)
  ]
  step-IsValidStore s (lost id) v = elim (Option-cases (without id s.workers)) [
    | inl missing ↦ rw missing v
    | inr (rest, found) ↦ rw found v
  ]

  -- A run of such events.
  abbrev pub IsPatientRun : System → List SystemEvent → Type 0
  IsPatientRun s [] = Unit
  IsPatientRun s (ev ∷ evs) = IsPatient k s.store ev × IsPatientRun (step s ev) evs

  steps-IsSingle :
      (s : System) (evs : List SystemEvent)
      → IsValidStore s.store
      → IsSingle k s
      → IsPatientRun s evs
      → IsSingle k (steps s evs)
  unfolding steps
  steps-IsSingle s [] v h p = h
  steps-IsSingle s (ev ∷ evs) v h p =
      steps-IsSingle (step s ev) evs (step-IsValidStore s ev v) (step-IsSingle s ev v p.0 h) p.1

  -- Over any queries, ticks, observations, reports and losses of workers, a daemon that begins
  -- empty has one worker of a repository at most: if no tick gives up a refresh of it, by its lock
  -- having run out or its entry having expired, and if no directory has switched to or from the
  -- repository's branch where a worker is started in it.
  pub one_worker :
      (evs : List SystemEvent)
      → IsPatientRun (record { store = new; workers = [] }) evs
      → working k (steps (record { store = new; workers = [] }) evs).workers ≤ 1
  unfolding get
  one_worker evs p =
      (steps-IsSingle (record { store = new; workers = [] }) evs
        (record { distinct = tt; sound = tt }) ((omega arith), λ free. refl) p).0
