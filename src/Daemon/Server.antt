-- ===== src/Daemon/Server.antt =====
-- src/contexts/daemon/infrastructure/daemon_server.rs: the daemon from its start to its end, with
-- the tasks beside the loop that accepts connections: scheduler.rs, rate_limit_fetcher.rs,
-- socket_watcher.rs, signals.rs and the connections of connection.rs. A run is the list of what
-- happens, in any order. The files of other versions, which it removes beside, are in Restart.antt.
pub mod Clean
pub mod Moves
pub mod Ending
pub mod Stopped
pub mod TwoDaemons
use merge_ready.Prelude.{
  ℕ, zero, suc, ◌+◌, Text, Bool, true, false, not, ◌||◌, Option, none, some, List, [], ◌∷◌, ◌++◌,
  ◌==◌, if◌then◌else◌, is_none, Result, ok, err,
}
use merge_ready.Shared.{Request, Response}
use merge_ready.Time.{Instant, SystemTime}
use merge_ready.Daemon.Store.{RepoId, RateLimitObservedEvent, Effect}
use merge_ready.Daemon.Handler.{ActionResult, Surroundings}
use merge_ready.Daemon.Actor.{
  DaemonState, DaemonCommand, tick, apply_rate_limit, Reply, result, effects, handle_command,
}
use merge_ready.Daemon.Files.{Files, remove_file, socket_path}
use merge_ready.Daemon.Listener.{DaemonError, failure, Startup, bind, cleanup}
use merge_ready.Daemon.Workers.{start_workers}
use merge_ready.Daemon.Connection.{Stream, Connection, worker_of, handle}

-- Where `run` stands: in its loop, after the loop with what the loop gave, at its end.
pub data Phase : Type 0 where
  accepting : Phase
  joining : Bool → Phase
  returned : Phase

-- `waiting` counts the connections that are not yet served, `sleeping` those that have stopped the
-- daemon and wait before they say so, and `exits` the messages in the exit channel.
pub record Server : Type 0 where
  pub files : Files
  pub state : DaemonState
  pub workers : List RepoId
  pub waiting : ℕ
  pub sleeping : ℕ
  pub exits : ℕ
  pub watching : Bool
  pub cancelled : Bool
  pub phase : Phase

-- What `listener.accept()` has when the loop looks at it.
pub data Accept : Type 0 where
  nobody connected listener_error : Accept

pub data ServerEvent : Type 0 where
  polled : Accept → ServerEvent
  served : Surroundings → Stream → ServerEvent
  slept : ServerEvent
  scheduler_ticked : Instant → SystemTime → ServerEvent
  fetched : Option RateLimitObservedEvent → ServerEvent
  watcher_ticked : ServerEvent
  signalled : ServerEvent
  joined : ServerEvent
  -- What others do: a daemon of the same version starts, a file is removed.
  started_elsewhere : Startup → ServerEvent
  removed_elsewhere : Text → ServerEvent

unfoldable pub new_server : DaemonState → Files → Server
new_server state files = record {
  files = files;
  state = state;
  workers = [];
  waiting = 0;
  sleeping = 0;
  exits = 0;
  watching = true;
  cancelled = false;
  phase = accepting;
}

after_bind : DaemonState → Result DaemonError (Unit {0}) × Files → Result DaemonError Server × Files
unfolding new_server
after_bind state (ok _, files) = (ok (new_server state files), files)
after_bind state (err e, files) = (err e, files)

-- `run` up to its loop; `base_dir` is whether `ensure_socket_base_dir` makes the directory.
unfoldable pub start_server :
    Bool → Startup → Text → DaemonState → Files → Result DaemonError Server × Files
unfolding after_bind bind
start_server base_dir w version state fs =
    if base_dir then after_bind state (bind w version fs) else (err failure, fs)

-- The loop ends and the other tasks are cancelled.
abbrev leave : Bool → Server → Server
leave should_cleanup s = record s { cancelled = true; phase = joining should_cleanup }

pub accept : Accept → Server → Server
accept nobody s = s
accept connected s = record s { waiting = s.waiting + 1 }
accept listener_error s = leave true s

-- One round of `select!` in `accept_loop`, which looks at its branches in their order.
unfoldable pub poll : Accept → Server → Server
unfolding accept
poll a s = elim s.exits [
  | zero ↦ if s.cancelled then leave true s else accept a s
  | suc n ↦ leave false (record s { exits = n })
]

abbrev effects_of : Reply → List Effect
effects_of (result r) = []
effects_of (effects es) = es

abbrev worker_list : Option RepoId → List RepoId
worker_list none = []
worker_list (some id) = id ∷ []

-- `socket_watcher::run`, at a tick
unfoldable pub watch : Text → Server → Server
watch version s =
    if s.watching
    then if s.cancelled
      then record s { watching = false }
      else if is_none (s.files (socket_path version))
      then record s { cancelled = true; watching = false }
      else s
    else s

-- `install_shutdown_signals`, at a signal
unfoldable pub shut_down : Server → Server
shut_down s = record s { cancelled = true }

-- `restart::cleanup` at the end of `run`, where the loop asks for it.
unfoldable pub finish_run : Text → Bool → Server → Server
finish_run version should_cleanup s = record s {
  files = if should_cleanup then cleanup version s.files else s.files;
  phase = returned;
}

-- What others do to the files.
unfoldable pub others : Text → ServerEvent → Files → Files
others version (started_elsewhere w) fs = (bind w version fs).1
others version (removed_elsewhere name) fs = remove_file name fs
others version (polled a) fs = fs
others version (served world stream) fs = fs
others version slept fs = fs
others version (scheduler_ticked now now_wall) fs = fs
others version (fetched event) fs = fs
others version watcher_ticked fs = fs
others version signalled fs = fs
others version joined fs = fs

module _ (from_str : Text → Option Request) (to_string : Response → Option Text)
    (repo_id_from_cwd : Text → Option RepoId) (version : Text) where
  -- What `scheduler::run` and `rate_limit_fetcher::run` do with the state's task: both end once the
  -- daemon is cancelled.
  unfoldable pub command : DaemonCommand → Server → Server
  command cmd s =
      if s.cancelled
      then s
      else let (state, reply) = handle_command s.state cmd in
        record s {
          state = state;
          workers = start_workers repo_id_from_cwd (effects_of reply) ++ s.workers;
        }

  -- `scheduler::run` at a tick
  unfoldable pub run_tick : Instant → SystemTime → Server → Server
  unfolding command
  run_tick now now_wall s = command (tick now now_wall) s

  -- `rate_limit_fetcher::run` at a tick, which is a task only where the settings ask for it.
  unfoldable pub observe_limit : Option RateLimitObservedEvent → Server → Server
  unfolding command
  observe_limit none s = s
  observe_limit (some event) s =
      if s.state.config.rate_limit_aware then command (apply_rate_limit event) s else s

  -- What a connection leaves behind: with a stop, the files are removed and its wait begins.
  unfoldable pub after_connection : Connection → Server → Server
  after_connection c s = record s {
    files = if c.exits then cleanup version s.files else s.files;
    state = c.state;
    workers = worker_list c.worker ++ s.workers;
    sleeping = if c.exits then s.sleeping + 1 else s.sleeping;
  }

  -- What happens while the daemon's process is there.
  unfoldable pub happen : ServerEvent → Server → Server
  unfolding poll watch run_tick observe_limit shut_down after_connection others
  happen (polled a) s = elim s.phase [ accepting ↦ poll a s | joining b ↦ s | returned ↦ s ]
  happen (served world stream) s = elim s.waiting [
    | zero ↦ s
    | suc n ↦
        after_connection (handle from_str to_string repo_id_from_cwd world s.state stream)
          (record s { waiting = n })
  ]
  happen slept s = elim s.sleeping [
    | zero ↦ s
    | suc n ↦ record s { sleeping = n; exits = s.exits + 1 }
  ]
  happen (scheduler_ticked now now_wall) s = run_tick now now_wall s
  happen (fetched o) s = observe_limit o s
  happen watcher_ticked s = watch version s
  happen signalled s = shut_down s
  happen joined s = elim s.phase [
    | accepting ↦ s
    | joining should_cleanup ↦ finish_run version should_cleanup s
    | returned ↦ s
  ]
  happen (started_elsewhere w) s = record s { files = others version (started_elsewhere w) s.files }
  happen (removed_elsewhere name) s = record s {
    files = others version (removed_elsewhere name) s.files;
  }

  -- After `run` has returned, only others change the files.
  unfoldable pub react : ServerEvent → Server → Server
  unfolding happen others
  react ev s = elim s.phase [
    | accepting ↦ happen ev s
    | joining b ↦ happen ev s
    | returned ↦ record s { files = others version ev s.files }
  ]

  unfoldable pub run_server : Server → List ServerEvent → Server
  run_server s [] = s
  run_server s (ev ∷ evs) = run_server (react ev s) evs
