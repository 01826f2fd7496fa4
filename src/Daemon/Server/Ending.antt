-- ===== src/Daemon/Server/Ending.antt =====
-- How a daemon ends, whatever happens in its run and in whatever order.
use merge_ready.Prelude.{
  ℕ, zero, suc, ◌+◌, ◌≡◌, refl, inl, inr, Text, Bool, true, false, Option, none, some, List, [],
  ◌∷◌, All, Bool-cases, arith, not, ◌||◌, ltb, is_none, if◌then◌else◌,
}
use merge_ready.Shared.{Request, Response}
use merge_ready.Daemon.Store.{RepoId, RateLimitObservedEvent}
use merge_ready.Daemon.Handler.{Surroundings}
use merge_ready.Daemon.Actor.{DaemonState, DaemonCommand, tick, apply_rate_limit}
use merge_ready.Daemon.Files.{Files, socket_path}
use merge_ready.Daemon.Connection.{Stream, Connection, handle}
use merge_ready.Daemon.Server.{
  Phase, accepting, joining, returned, Server, Accept, nobody, connected, listener_error,
  ServerEvent, polled, served, slept, scheduler_ticked, fetched, watcher_ticked, signalled, joined,
  started_elsewhere, removed_elsewhere, new_server, poll, accept, watch, finish_run, others,
  command, after_connection, happen, react, run_server,
}
use merge_ready.Daemon.Server.Clean.{
  IsClean, cleanup-IsClean, remove_file-IsClean, IsAlone, poll_awake,
}

abbrev has_stopped : Phase → Bool
has_stopped accepting = false
has_stopped (joining should_cleanup) = not should_cleanup
has_stopped returned = true

-- A stop that is on its way to the loop, a loop that has heard of one, and a daemon that has ended
-- leave no files.
abbrev IsTidy : Text → Server → Type 0
IsTidy version s =
    (has_stopped s.phase || ltb 0 (s.sleeping + s.exits)) ≡ true → IsClean version s.files

poll-IsTidy :
    (version : Text) (a : Accept) (s : Server) → IsTidy version s → IsTidy version (poll a s)
unfolding poll accept
poll-IsTidy version a s t = by_exits s.exits refl
  where
    by_accept : (a : Accept) → s.exits ≡ 0 → IsTidy version (accept a s)
    by_accept nobody e = t
    by_accept connected e = t
    by_accept listener_error e = λ h. t (ground arith)

    by_exits : (n : ℕ) → s.exits ≡ n → IsTidy version (poll a s)
    by_exits zero e = elim (Bool-cases s.cancelled) [
      | inl c ↦ rw (e, poll, c) (λ h. t (ground arith))
      | inr c ↦ rw (poll_awake a s e c) (by_accept a e)
    ]
    by_exits (suc n) e = rw (e, poll) (λ h. t (ground arith))

watch-IsTidy : (version : Text) (s : Server) → IsTidy version s → IsTidy version (watch version s)
unfolding watch
watch-IsTidy version s t = elim (Bool-cases s.watching) [
  | inr w ↦ rw (w, watch) t
  | inl w ↦ elim (Bool-cases s.cancelled) [
    | inl c ↦ rw (w, watch, c) t
    | inr c ↦ elim (Bool-cases (is_none (s.files (socket_path version)))) [
      | inl n ↦ rw (w, watch, c, n) t
      | inr n ↦ rw (w, watch, c, n) t
    ]
  ]
]

finish_run-IsTidy :
    (version : Text) (b : Bool) (s : Server)
    → s.phase ≡ joining b
    → IsTidy version s
    → IsTidy version (finish_run version b s)
unfolding finish_run
finish_run-IsTidy version true s h t = λ _. cleanup-IsClean version s.files
finish_run-IsTidy version false s h t = λ _. t (ground arith)

others-IsTidy :
    (version : Text) (ev : ServerEvent) (s : Server)
    → IsAlone ev
    → IsTidy version s
    → IsTidy version (record s { files = others version ev s.files })
unfolding others
others-IsTidy version (started_elsewhere w) s alone t = absurd alone
others-IsTidy version (removed_elsewhere name) s alone t =
    λ h. remove_file-IsClean version name s.files (t h)
others-IsTidy version (polled a) s alone t = t
others-IsTidy version (served world stream) s alone t = t
others-IsTidy version slept s alone t = t
others-IsTidy version (scheduler_ticked now now_wall) s alone t = t
others-IsTidy version (fetched event) s alone t = t
others-IsTidy version watcher_ticked s alone t = t
others-IsTidy version signalled s alone t = t
others-IsTidy version joined s alone t = t

module _ (from_str : Text → Option Request) (to_string : Response → Option Text)
    (repo_id_from_cwd : Text → Option RepoId) (version : Text) where
  command-IsTidy :
      (cmd : DaemonCommand) (s : Server)
      → IsTidy version s
      → IsTidy version (command from_str to_string repo_id_from_cwd version cmd s)
  unfolding command
  command-IsTidy cmd s t = elim (Bool-cases s.cancelled) [
    | inl c ↦ rw (c, command) t
    | inr c ↦ rw (c, command) t
  ]

  after_connection-IsTidy :
      (c : Connection) (s : Server)
      → IsTidy version s
      → IsTidy version (after_connection from_str to_string repo_id_from_cwd version c s)
  unfolding after_connection
  after_connection-IsTidy c s t = elim (Bool-cases c.exits) [
    | inl e ↦ rw (e, after_connection) (λ _. cleanup-IsClean version s.files)
    | inr e ↦ rw (e, after_connection) t
  ]

  served-IsTidy :
      (world : Surroundings) (stream : Stream) (s : Server) (n : ℕ)
      → s.waiting ≡ n
      → IsTidy version s
      → IsTidy version (happen from_str to_string repo_id_from_cwd version (served world stream) s)
  unfolding happen
  served-IsTidy world stream s zero e t = rw (e, happen) t
  served-IsTidy world stream s (suc n) e t =
      rw (e, happen)
        (after_connection-IsTidy (handle from_str to_string repo_id_from_cwd world s.state stream)
          (record s { waiting = n }) t)

  slept-IsTidy :
      (s : Server) (n : ℕ)
      → s.sleeping ≡ n
      → IsTidy version s
      → IsTidy version (happen from_str to_string repo_id_from_cwd version slept s)
  unfolding happen
  slept-IsTidy s zero e t = rw (e, happen) t
  slept-IsTidy s (suc n) e t = rw (e, happen) (λ h. t (ground arith))

  fetched-IsTidy :
      (o : Option RateLimitObservedEvent) (s : Server)
      → IsTidy version s
      → IsTidy version (happen from_str to_string repo_id_from_cwd version (fetched o) s)
  unfolding happen
  fetched-IsTidy none s t = t
  fetched-IsTidy (some event) s t = if_aware s.state.config.rate_limit_aware
    where
      if_aware :
          (b : Bool)
          → IsTidy version (
              if b
              then command from_str to_string repo_id_from_cwd version (apply_rate_limit event) s
              else s)
      if_aware true = command-IsTidy (apply_rate_limit event) s t
      if_aware false = t

  polled-IsTidy :
      (a : Accept) (s : Server) (p : Phase)
      → s.phase ≡ p
      → IsTidy version s
      → IsTidy version (happen from_str to_string repo_id_from_cwd version (polled a) s)
  unfolding happen
  polled-IsTidy a s accepting e t = rw (e, happen) (poll-IsTidy version a s t)
  polled-IsTidy a s (joining b) e t = rw (e, happen) t
  polled-IsTidy a s returned e t = rw (e, happen) t

  joined-IsTidy :
      (s : Server) (p : Phase)
      → s.phase ≡ p
      → IsTidy version s
      → IsTidy version (happen from_str to_string repo_id_from_cwd version joined s)
  unfolding happen
  joined-IsTidy s accepting e t = rw (e, happen) t
  joined-IsTidy s (joining b) e t = rw (e, happen) (finish_run-IsTidy version b s e t)
  joined-IsTidy s returned e t = rw (e, happen) t

  happen-IsTidy :
      (ev : ServerEvent) (s : Server)
      → IsAlone ev
      → IsTidy version s
      → IsTidy version (happen from_str to_string repo_id_from_cwd version ev s)
  unfolding happen
  happen-IsTidy (polled a) s alone t = polled-IsTidy a s s.phase refl t
  happen-IsTidy (served world stream) s alone t = served-IsTidy world stream s s.waiting refl t
  happen-IsTidy slept s alone t = slept-IsTidy s s.sleeping refl t
  happen-IsTidy (scheduler_ticked now now_wall) s alone t = command-IsTidy (tick now now_wall) s t
  happen-IsTidy (fetched event) s alone t = fetched-IsTidy event s t
  happen-IsTidy watcher_ticked s alone t = watch-IsTidy version s t
  happen-IsTidy signalled s alone t = t
  happen-IsTidy joined s alone t = joined-IsTidy s s.phase refl t
  happen-IsTidy (started_elsewhere w) s alone t = absurd alone
  happen-IsTidy (removed_elsewhere name) s alone t =
      others-IsTidy version (removed_elsewhere name) s tt t

  react-IsTidy :
      (ev : ServerEvent) (s : Server) (p : Phase)
      → s.phase ≡ p
      → IsAlone ev
      → IsTidy version s
      → IsTidy version (react from_str to_string repo_id_from_cwd version ev s)
  unfolding react
  react-IsTidy ev s accepting e alone t = rw (e, react) (happen-IsTidy ev s alone t)
  react-IsTidy ev s (joining b) e alone t = rw (e, react) (happen-IsTidy ev s alone t)
  react-IsTidy ev s returned e alone t = rw (e, react) (others-IsTidy version ev s alone t)

  run_server-IsTidy :
      (evs : List ServerEvent) (s : Server)
      → All IsAlone evs
      → IsTidy version s
      → IsTidy version (run_server from_str to_string repo_id_from_cwd version s evs)
  unfolding run_server
  run_server-IsTidy [] s alone t = t
  run_server-IsTidy (ev ∷ evs) s alone t =
      run_server-IsTidy evs (react from_str to_string repo_id_from_cwd version ev s) alone.1
        (react-IsTidy ev s s.phase refl alone.0 t)

  -- Whatever happens in its run, and in whatever order, a daemon that has ended has left neither
  -- its socket nor its pid file: where no other daemon of its version starts in the meantime.
  pub run_server-IsClean :
      (state : DaemonState) (files : Files) (evs : List ServerEvent)
      → All IsAlone evs
      → (run_server from_str to_string repo_id_from_cwd version (new_server state files) evs).phase
        ≡ returned
      → IsClean version
          (run_server from_str to_string repo_id_from_cwd version
            (new_server state files)
            evs).files
  unfolding new_server
  run_server-IsClean state files evs alone ended =
      run_server-IsTidy evs (new_server state files) alone (λ h. cc) (rw ended refl)
