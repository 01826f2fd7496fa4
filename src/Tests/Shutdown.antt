-- ===== src/Tests/Shutdown.antt =====
-- Runs of a daemon that is stopped.
use merge_ready.Prelude.{
  ℕ, Text, codes, eqb, true, false, Option, none, some, List, [], ◌∷◌, ◌++◌, ◌≡◌, refl, ok, arith,
  if◌then◌else◌, has_newline, line_of, is_utf8, trim_start, trim_end, is_blank, whitespace_len,
}
use merge_ready.Shared.{Request, Response}
use merge_ready.Daemon.Store.{RepoId}
use merge_ready.Daemon.Config.{from_env}
use merge_ready.Daemon.Handler.{process}
use merge_ready.Daemon.Actor.{DaemonState, new_state}
use merge_ready.Daemon.Files.{write_file, remove_file, socket_path, pid_path}
use merge_ready.Daemon.Pid
use merge_ready.Daemon.Pid.{Signalled, no_such_process}
use merge_ready.Daemon.Listener.{TryBind, bound, Startup, bind, cleanup, bind_with_retry}
use merge_ready.Daemon.Connection.{Stream, handle, read_request_line, finish}
use merge_ready.Daemon.Server.{
  returned, Server, nobody, connected, ServerEvent, polled, served, slept, scheduler_ticked,
  watcher_ticked, signalled, joined, started_elsewhere, new_server, poll, finish_run,
  after_connection, happen, react, run_server,
}
use merge_ready.Daemon.Server.Clean.{IsClean}
use merge_ready.Daemon.Server.Ending.{run_server-IsClean}
use merge_ready.Daemon.Server.Stopped.{stop_ends}
use merge_ready.Daemon.Server.TwoDaemons.{second_cleanup}
use merge_ready.Tests.DaemonData.{at, wall}
use merge_ready.Tests.Server.{world, no_variables}

abbrev version : Text
version = codes "1.0.0"

abbrev stop_json : Text
stop_json = codes "{'action':'stop'}"

abbrev from_str : Text → Option Request
from_str s = if eqb s stop_json then some Request.stop else none

abbrev to_string : Response → Option Text
to_string r = none

abbrev nowhere : Text → Option RepoId
nowhere cwd = none

abbrev state : DaemonState
state = new_state (from_env no_variables) (at 0)

abbrev stop_stream : Stream
stop_stream = record { bytes = stop_json ++ 10 ∷ []; fails = false }

-- No process answers, and the socket is free.
abbrev all_gone : ℕ → Signalled
all_gone p = no_such_process

abbrev free : ℕ → TryBind
free i = bound

abbrev startup : Startup
startup = record {
  own_pid = 43;
  lock_opens = true;
  locks = true;
  test_kill = all_gone;
  try_bind = free;
  mode_set = true;
}

-- A daemon that has one client.
abbrev server : Server
server = record (new_server state (λ name. none)) { waiting = 1 }

stops : (handle from_str to_string nowhere world state stop_stream).exits ≡ true
unfolding handle read_request_line has_newline line_of is_utf8 trim_start trim_end is_blank
    whitespace_len eqb finish process
stops = refl

abbrev shutdown : List ServerEvent
shutdown = polled connected ∷ served world stop_stream ∷ slept ∷ polled nobody ∷ joined ∷ []

ended :
    (run_server from_str to_string nowhere version (new_server state (λ name. none)) shutdown).phase
    ≡ returned
unfolding run_server react happen poll after_connection finish_run new_server handle
    read_request_line has_newline line_of is_utf8 trim_start trim_end is_blank whitespace_len eqb
    finish process
ended = refl

run_server-IsClean_example :
    IsClean version
      (run_server from_str to_string nowhere version
        (new_server state (λ name. none))
        shutdown).files
run_server-IsClean_example =
    run_server-IsClean from_str to_string nowhere version state (λ name. none) shutdown
      (tt, (tt, (tt, (tt, (tt, tt))))) ended

stop_ends_example :
    (run_server from_str to_string nowhere version server (
      served world stop_stream
      ∷ signalled
      ∷ slept
      ∷ scheduler_ticked (at 62) (wall 62)
      ∷ polled nobody
      ∷ joined
      ∷ [])).phase
    ≡ returned
unfolding new_server
stop_ends_example =
    stop_ends from_str to_string nowhere version world stop_stream server 0 nobody (signalled ∷ [])
      (scheduler_ticked (at 62) (wall 62) ∷ []) [] [] refl refl stops

starts : (bind startup version (cleanup version (λ name. none))).0 ≡ ok tt
unfolding bind bind_with_retry cleanup Pid.read Pid.remove remove_file write_file eqb pid_path
    socket_path
starts = refl

second_cleanup_example :
    let next =
      run_server from_str to_string nowhere version server
        (served world stop_stream ∷ watcher_ticked ∷ started_elsewhere startup ∷ []) in
    (Pid.read (pid_path version) next.files ≡ some 43)
    × (next.files (socket_path version) ≡ some [])
    × IsClean version
        (run_server from_str to_string nowhere version next (polled nobody ∷ joined ∷ [])).files
unfolding new_server
second_cleanup_example =
    second_cleanup from_str to_string nowhere version world stop_stream server 0 startup nobody refl
      refl refl refl stops (omega arith) starts
