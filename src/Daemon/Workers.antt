-- ===== src/Daemon/Workers.antt =====
-- src/contexts/daemon/infrastructure/daemon_server.rs (spawn_refresh), scheduler.rs and
-- connection.rs: the workers that the daemon starts, beside its store. A worker is known by the id
-- that it will report its result to.
pub mod OnePerRepo
use merge_ready.Prelude.{
  ℕ, ◌+◌, Text, eqb, Bool, Option, none, some, List, [], ◌∷◌, ◌++◌, if◌then◌else◌,
}
use merge_ready.Daemon.Policy.{RefreshPolicy}
use merge_ready.Daemon.Store.{
  RepoId, CacheStore, QueryEvent, RefreshCompletedEvent, SchedulerTickInput, RateLimitObservedEvent,
  Effect, spawn_refresh, emit_output, record_expired, enter_backoff,
}
use merge_ready.Daemon.Transition.{
  on_query, on_refresh_completed, on_scheduler_tick, on_rate_limit_observed,
}

-- The id that `spawn_refresh` derives again from the directory, or else the stored one;
-- `repo_id_from_cwd` is what the file system gives at that time.
abbrev pub current_repo_id : (Text → Option RepoId) → RepoId → Text → RepoId
current_repo_id repo_id_from_cwd stored cwd = elim (repo_id_from_cwd cwd) [
  | none ↦ stored
  | some id ↦ id
]

-- The loop over the effects of a tick, and the end of a connection: only refreshes start a worker.
unfoldable pub start_workers : (Text → Option RepoId) → List Effect → List RepoId
start_workers repo_id_from_cwd [] = []
start_workers repo_id_from_cwd (spawn_refresh repo_id cwd ∷ es) =
    current_repo_id repo_id_from_cwd repo_id cwd ∷ start_workers repo_id_from_cwd es
start_workers repo_id_from_cwd (emit_output t ∷ es) = start_workers repo_id_from_cwd es
start_workers repo_id_from_cwd (record_expired id ∷ es) = start_workers repo_id_from_cwd es
start_workers repo_id_from_cwd (enter_backoff t ∷ es) = start_workers repo_id_from_cwd es

pub record System : Type 0 where
  pub store : CacheStore
  pub workers : List RepoId

-- The workers without the first one of an id.
unfoldable pub without : RepoId → List RepoId → Option (List RepoId)
without id [] = none
without id (j ∷ js) =
    if eqb j id then some js else elim (without id js) [ none ↦ none | some rest ↦ some (j ∷ rest) ]

-- What happens to the daemon: a query, a tick, an observation, the report of a worker, and the end
-- of a worker that reports nothing. Where workers are started, the event holds what the file system
-- answers to `repo_id_from_cwd` at that time.
pub data SystemEvent : Type 0 where
  queried : (Text → Option RepoId) → QueryEvent → RepoId → RefreshPolicy → SystemEvent
  ticked : (Text → Option RepoId) → SchedulerTickInput → SystemEvent
  observed : RateLimitObservedEvent → SystemEvent
  reported : RepoId → RefreshCompletedEvent → SystemEvent
  lost : RepoId → SystemEvent

abbrev pub with_effects : (Text → Option RepoId) → List RepoId → CacheStore × List Effect → System
with_effects repo_id_from_cwd workers (store, effects) = record {
  store = store;
  workers = start_workers repo_id_from_cwd effects ++ workers;
}

reported_by : System → RepoId → RefreshCompletedEvent → Option (List RepoId) → System
reported_by s id event none = s
reported_by s id event (some rest) = record {
  store = (on_refresh_completed s.store id event).0;
  workers = rest;
}

lost_by : System → Option (List RepoId) → System
lost_by s none = s
lost_by s (some rest) = record s { workers = rest }

unfoldable pub step : System → SystemEvent → System
unfolding reported_by lost_by
step s (queried repo_id_from_cwd event repo_id policy) =
    with_effects repo_id_from_cwd s.workers (on_query s.store event repo_id policy)
step s (ticked repo_id_from_cwd input) =
    with_effects repo_id_from_cwd s.workers (on_scheduler_tick s.store input)
step s (observed event) = record s { store = (on_rate_limit_observed s.store event).0 }
step s (reported id event) = reported_by s id event (without id s.workers)
step s (lost id) = lost_by s (without id s.workers)

unfoldable pub steps : System → List SystemEvent → System
steps s [] = s
steps s (ev ∷ evs) = steps (step s ev) evs
