-- ===== src/Daemon/Actor.antt =====
-- src/contexts/daemon/infrastructure/daemon_state_actor.rs and server_state.rs: the one task that
-- owns the daemon's state. Commands arrive over a channel and are handled one after the other, so
-- that a run of the task is a list of commands.
pub mod Safety
use merge_ready.Prelude.{ℕ, List, [], ◌∷◌, ◌++◌}
use merge_ready.Shared.{Request}
use merge_ready.Time.{Instant, SystemTime}
use merge_ready.Daemon.Policy.{RefreshPolicy}
use merge_ready.Daemon.Store.{CacheStore, new, SchedulerTickInput, RateLimitObservedEvent, Effect}
use merge_ready.Daemon.Transition.{on_scheduler_tick, on_rate_limit_observed}
use merge_ready.Daemon.Config.{DaemonServerConfig}
use merge_ready.Daemon.Handler.{ActionResult, Surroundings, process}

pub record DaemonState : Type 0 where
  pub cache_store : CacheStore
  pub started_at : Instant
  pub config : DaemonServerConfig

-- `DaemonState::new`, at an instant
unfoldable pub new_state : DaemonServerConfig → Instant → DaemonState
new_state config now = record { cache_store = new; started_at = now; config = config }

-- A command, with what its handling reads of the outside.
pub data DaemonCommand : Type 0 where
  process_request : Surroundings → Request → DaemonCommand
  tick : Instant → SystemTime → DaemonCommand
  apply_rate_limit : RateLimitObservedEvent → DaemonCommand

-- What is sent over the reply channel of a command.
pub data Reply : Type 0 where
  result : ActionResult → Reply
  effects : List Effect → Reply

abbrev pub with_store : DaemonState → CacheStore → DaemonState
with_store state store = record state { cache_store = store }

abbrev pub tick_input : DaemonServerConfig → Instant → SystemTime → SchedulerTickInput
tick_input config now now_wall = record {
  now = now;
  now_wall = now_wall;
  policy = config.policy;
  refresh_lock_timeout_secs = config.refresh_lock_timeout_secs;
  entry_max_age_secs = config.entry_max_age_secs;
}

unfoldable pub handle_command : DaemonState → DaemonCommand → DaemonState × Reply
handle_command state (process_request world request) =
    let (store, answer) =
      process world request state.cache_store state.config.policy state.started_at
        state.config.stale_ttl_secs in
    (with_store state store, result answer)
handle_command state (tick now now_wall) =
    let (store, es) = on_scheduler_tick state.cache_store (tick_input state.config now now_wall) in
    (with_store state store, effects es)
handle_command state (apply_rate_limit event) =
    let (store, es) = on_rate_limit_observed state.cache_store event in
    (with_store state store, effects es)

-- `run_actor` over the commands that arrive: the last state, and the replies in order.
unfoldable pub run_actor : DaemonState → List DaemonCommand → DaemonState × List Reply
run_actor state [] = (state, [])
run_actor state (cmd ∷ rest) =
    let (state', answer) = handle_command state cmd in
    let (last, answers) = run_actor state' rest in (last, answer ∷ answers)
