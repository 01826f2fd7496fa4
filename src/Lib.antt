-- ===== src/Lib.antt =====
-- merge-ready shows, in a shell prompt, what keeps a pull request from being merged. A daemon keeps
-- the rendered prompts of every repository and branch in a cache and refreshes them in the
-- background by the `gh` program; a client asks the daemon for the text of its directory.
--
-- Parts and files, with the paths of the repository:
--
-- Daemon, the background cache (src/contexts/daemon):
--   Snapshot       domain/rate_limit_snapshot.rs: the rate limit of GitHub's two interfaces.
--   Entry          domain/cache/entry.rs: one entry, its fetch state and its builders.
--   Freshness      the predicates on an entry and an instant, at the end of cache/transition.rs.
--   Policy         domain/refresh_policy.rs: how long to wait before an entry is refreshed again.
--   Store          domain/cache/store.rs, event.rs, effect.rs: the store, and what happens to it.
--   Transition     domain/cache/transition.rs: `on_query`, `on_refresh_completed`,
--                  `on_scheduler_tick` and `on_rate_limit_observed`, each from a store to a store and
--                  a list of effects, as in the source. Its children hold what is proved of them;
--                  Reachable has the step relation of all four.
--   Config         infrastructure/server_config.rs: the settings, from the environment.
--   Handler        infrastructure/request_handler.rs: the reply to a request of a client.
--   Actor          infrastructure/daemon_state_actor.rs: the one task that owns the state. It takes
--                  the commands of clients, of the scheduler and of the rate limit's observer from a
--                  channel, one after the other: a run is a list of commands.
--   Workers        infrastructure/scheduler.rs, daemon_server.rs `spawn_refresh`: the workers that are
--                  started, beside the store.
--   Watch          interface/cli/watch.rs: the table that `watch` prints.
--   RateLimitClient  infrastructure/rate_limit_client.rs: the cached rate limit.
--   RepoIds        infrastructure/repo_id.rs: the id of a directory's repository and branch.
--   Connection     infrastructure/connection.rs: one connection of a client, from the bytes it sends
--                  to the reply that is written.
--   Files, Pid     infrastructure/paths.rs, pid.rs: the names of the daemon's files, and the pid in
--                  one of them.
--   Listener       infrastructure/socket_listener.rs: the start of a daemon beside another, and what
--                  it leaves when it ends.
--   Client         infrastructure/daemon_client.rs: the requests of the command line.
--   Lifecycle      infrastructure/daemon_lifecycle.rs: whether the daemon runs, and how it is stopped.
--   Command        interface/cli/daemon.rs: the commands `daemon start`, `stop` and `status`.
--   Restart        infrastructure/restart.rs: the daemons and files of other versions.
--   Server         infrastructure/daemon_server.rs, with the tasks of scheduler.rs, signals.rs,
--                  rate_limit_fetcher.rs and socket_watcher.rs: a daemon from its start to its end.
--
-- Evaluation, from GitHub's answer to a text (src/contexts/evaluation):
--   State          domain/prompt: the verdict on a pull request, and the prompt.
--   Gh             infrastructure/gh.rs, gh/schema.rs, gh/mapper.rs: the verdict from the answer.
--   CompareUrl     infrastructure/gh/fetch.rs: the request that compares two branches.
--   Fetch          infrastructure/gh.rs `fetch_prompt`, gh/error.rs: the prompt or the error.
--   Display        application/prompt: the items that show a verdict.
--   Format, Token  domain/format_parser.rs, display_config/render.rs: formats, compiled and filled.
--   Style          domain/style_spec: the parser of styles, and their form for the terminal library.
--   Config         domain/display_config.rs: the tokens, compiled.
--   Loader         infrastructure/toml_loader.rs, display_config/defaults.rs: the configuration file,
--                  merged with the defaults, and its cache.
--   Render         interface/prompt.rs: the text, the refresh mode and the lines for `watch`.
--   Logger         infrastructure/logger.rs: the log's settings. Its child Rotation has the writer and
--                  the rotation of its files.
--
-- PromptClient, the program that a shell prompt runs (src_prompt/main.rs): it asks the daemon, starts
-- one where none answers, and prints.
--   Answer         `read_response` and `DeadlineReader`: how the answer is read from the socket.
--   Sanitize       `sanitize_output`: which control sequences are kept out of the prompt.
--   Session        one run of the client together with the daemon that answers it.
--
-- Refresh, a worker of the daemon (src/lib.rs `refresh_callback`): it fetches a prompt, renders it
-- and sends the daemon an update.
--
-- Shared is src/shared: the messages and the refresh modes. Time is the standard library's clocks,
-- Prelude its texts, lines, UTF-8, lists, maps, sorting, numbers and results. Tests runs the model
-- at concrete inputs.
--
-- How the parts meet: a query of a client is a command of the actor, which the handler gives to
-- `on_query`; its effects are the reply, and the refresh that a worker begins. The worker fetches a
-- prompt (Fetch), renders it (Render) and sends the result back as an update, which the handler
-- gives to `on_refresh_completed`. The scheduler and the observer of the rate limit send commands
-- of their own.
--
-- The client's request goes through Connection to Handler, and the reply through Answer and
-- Sanitize to the terminal. A second daemon of the same version meets the first in Listener, by the
-- pid file and the socket that the first has left there.
--
-- Conventions. A text is the list of its UTF-8 bytes, but in Watch and Sanitize that of its
-- characters. Instants and durations are nanoseconds. A `u64` or `u32` is a number, with the
-- saturating or wrapping operations of the source written out. A `HashMap` is an association list
-- with distinct keys, whose order stands for the order that the map happens to have. A panic is an
-- error value. What the program reads of the outside is an argument: the clocks, the file system,
-- the environment, decoded answers of `gh`, the order in which concurrent tasks end, what signals
-- and system calls return, and the terminal library's painting of a text. What a socket gives is
-- the list of its reads: `none` is a read that failed or came too late, `some []` the end of the
-- stream. A file of the daemon is known by its name in the daemon's directory, a file of the log by
-- its number, 0 for the active one. The names `MergeReady` and `merge_ready` of the source are
-- `ready_to_merge` here.
--
-- Fuel. `parse_loop` has one unit for each byte of the format and one more, and each round and each
-- nested parse takes at least one byte. `compile_fuel` has as much, and the content of a style is
-- shorter than its format. `decimal` has twenty digits, as many as a `u64` needs. `xor` has one
-- unit for each of 64 bits.
--
-- The loops of Answer, Sanitize, Listener, Lifecycle and Logger are structural recursion on what
-- they read or on the tries that the source allows.
--
-- Not modelled: the system calls under sockets, signals, processes and files, whose results are
-- arguments; the timers of the daemon's tasks, whose ticks are events in any order; git but for its
-- directory; the editor; the JSON and TOML decoders; and the entry points of the command line.
pub mod Prelude
pub mod PromptClient
pub mod Time
pub mod Shared
pub mod Daemon
pub mod Evaluation
pub mod Refresh
mod Tests
