-- ===== src/Daemon/Connection.antt =====
-- src/contexts/daemon/infrastructure/connection.rs: one connection of a client to the daemon.
pub mod Served
use merge_ready.Prelude.{
  ℕ, Text, Bool, true, false, not, ◌&&◌, Option, none, some, List, [], ◌∷◌, ◌++◌, ltb,
  if◌then◌else◌, is_empty, length, take, trim, has_newline, line_of, is_utf8,
}
use merge_ready.Shared.{Request, Response}
use merge_ready.Daemon.Store.{RepoId}
use merge_ready.Daemon.Handler.{ActionResult, Surroundings, process}
use merge_ready.Daemon.Actor.{DaemonState, with_store}
use merge_ready.Daemon.Workers.{current_repo_id}

abbrev pub max_request_bytes : ℕ
max_request_bytes = 1048576

-- What a client sends, and whether reading on after it fails.
pub record Stream : Type 0 where
  pub bytes : Text
  pub fails : Bool

-- `read_line` on the first bytes of a stream: an error where the reading fails before a newline or
-- the limit, and where the line is not UTF-8.
unfoldable pub read_limited : ℕ → Stream → Option Text
unfolding has_newline line_of is_utf8
read_limited limit stream =
    let part = take limit stream.bytes in
    let line = line_of part in
    if stream.fails && not (has_newline part) && ltb (length part) limit
    then none
    else if is_utf8 line
    then some line
    else none

unless_empty : Option Text → Option Text
unless_empty none = none
unless_empty (some []) = none
unless_empty (some (c ∷ s)) = some (c ∷ s)

unfoldable pub read_request_line : Stream → Option Text
unfolding read_limited unless_empty
read_request_line stream = unless_empty (read_limited max_request_bytes stream)

-- What a connection leaves: the daemon's state, the bytes written to the client, the id that a
-- started worker reports to, and whether the daemon's files are removed and it is told to exit.
pub record Connection : Type 0 where
  pub state : DaemonState
  pub written : Text
  pub worker : Option RepoId
  pub exits : Bool

-- The connection is dropped without an answer.
abbrev pub dropped : DaemonState → Connection
dropped state = record { state = state; written = []; worker = none; exits = false }

-- `format!("{json}\n")`, where the response can be written.
abbrev pub write_response : Option Text → Text
write_response none = []
write_response (some json) = json ++ 10 ∷ []

-- `spawn_refresh`, where the result names a repository and a directory.
abbrev pub worker_of : (Text → Option RepoId) → Option RepoId → Option Text → Option RepoId
worker_of repo_id_from_cwd (some repo_id) (some cwd) =
    some (current_repo_id repo_id_from_cwd repo_id cwd)
worker_of repo_id_from_cwd (some repo_id) none = none
worker_of repo_id_from_cwd none _ = none

-- serde_json's `from_str` on a request and `to_string` on a response, and the file system's answer
-- to `repo_id_from_cwd`, are the parameters.
module _ (from_str : Text → Option Request) (to_string : Response → Option Text)
    (repo_id_from_cwd : Text → Option RepoId) (world : Surroundings) (state : DaemonState) where
  unfoldable pub finish : Request → Connection
  finish request =
      let (store, result) =
        process world request state.cache_store state.config.policy state.started_at
          state.config.stale_ttl_secs in
      record {
        state = with_store state store;
        written = write_response (to_string result.response);
        worker = worker_of repo_id_from_cwd result.refresh_repo_id result.refresh_cwd;
        exits = result.stop;
      }

  respond_to : Option Request → Connection
  unfolding finish
  respond_to none = dropped state
  respond_to (some request) = finish request

  parse_line : Option Text → Connection
  unfolding respond_to
  parse_line none = dropped state
  parse_line (some buf) = respond_to (from_str (trim buf))

  -- `handle`
  unfoldable pub handle : Stream → Connection
  unfolding parse_line read_request_line
  handle stream = parse_line (read_request_line stream)
