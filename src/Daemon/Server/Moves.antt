-- ===== src/Daemon/Server/Moves.antt =====
-- What an event of a daemon's run changes of the counts and the phase that its end depends on.
use merge_ready.Prelude.{
  ℕ, zero, suc, ◌+◌, ◌≡◌, refl, inl, inr, Text, Bool, true, false, Option, none, some, Bool-cases,
  if◌then◌else◌, arith,
}
use merge_ready.Shared.{Request, Response}
use merge_ready.Daemon.Store.{RepoId, RateLimitObservedEvent}
use merge_ready.Daemon.Handler.{Surroundings}
use merge_ready.Daemon.Actor.{DaemonCommand, tick, apply_rate_limit}
use merge_ready.Daemon.Connection.{Stream, Connection, handle}
use merge_ready.Daemon.Server.{
  Phase, accepting, joining, returned, Server, Accept, nobody, connected, listener_error,
  ServerEvent, polled, served, slept, scheduler_ticked, fetched, watcher_ticked, signalled, joined,
  started_elsewhere, removed_elsewhere, poll, accept, watch, finish_run, command, after_connection,
  happen, react,
}
use merge_ready.Daemon.Server.Clean.{poll_awake}

-- How one event changes what concerns the end.
pub data Move (s t : Server) : Type 0 where
  kept : t.sleeping ≡ s.sleeping → t.exits ≡ s.exits → t.phase ≡ s.phase → Move s t
  asked : t.sleeping ≡ s.sleeping + 1 → t.exits ≡ s.exits → t.phase ≡ s.phase → Move s t
  told : s.sleeping ≡ t.sleeping + 1 → t.exits ≡ s.exits + 1 → t.phase ≡ s.phase → Move s t
  left : (b : Bool) → s.phase ≡ accepting → t.phase ≡ joining b → Move s t
  ended : (b : Bool) → s.phase ≡ joining b → t.phase ≡ returned → Move s t

still : (s : Server) → Move s s
still s = kept refl refl refl

of_waiting : (s : Server) (n : ℕ) {t : Server} → Move (record s { waiting = n }) t → Move s t
of_waiting s n (kept a b c) = kept a b c
of_waiting s n (asked a b c) = asked a b c
of_waiting s n (told a b c) = told a b c
of_waiting s n (left b e h) = left b e h
of_waiting s n (ended b e h) = ended b e h

accept-Move : (a : Accept) (s : Server) → s.phase ≡ accepting → Move s (accept a s)
unfolding accept
accept-Move nobody s e = still s
accept-Move connected s e = kept refl refl refl
accept-Move listener_error s e = left true e refl

poll-Move :
    (a : Accept) (s : Server) (n : ℕ) → s.exits ≡ n → s.phase ≡ accepting → Move s (poll a s)
unfolding poll
poll-Move a s zero h e = elim (Bool-cases s.cancelled) [
  | inl c ↦ left true e (ground arith)
  | inr c ↦ rw (poll_awake a s h c) (accept-Move a s e)
]
poll-Move a s (suc n) h e = left false e (ground arith)

watch-Move : (version : Text) (s : Server) → Move s (watch version s)
unfolding watch
watch-Move version s = kept (ground arith) (ground arith) (ground arith)

module _ (from_str : Text → Option Request) (to_string : Response → Option Text)
    (repo_id_from_cwd : Text → Option RepoId) (version : Text) where
  command-Move :
      (cmd : DaemonCommand) (s : Server)
      → Move s (command from_str to_string repo_id_from_cwd version cmd s)
  unfolding command
  command-Move cmd s = kept (ground arith) (ground arith) (ground arith)

  after_connection-Move :
      (c : Connection) (s : Server)
      → Move s (after_connection from_str to_string repo_id_from_cwd version c s)
  unfolding after_connection
  after_connection-Move c s = elim (Bool-cases c.exits) [
    | inl e ↦ asked (ground arith) refl refl
    | inr e ↦ kept (ground arith) refl refl
  ]

  pub served_by :
      (world : Surroundings) (stream : Stream) (s : Server) (n : ℕ)
      → s.waiting ≡ suc n
      → happen from_str to_string repo_id_from_cwd version (served world stream) s
        ≡ after_connection from_str to_string repo_id_from_cwd version
            (handle from_str to_string repo_id_from_cwd world s.state stream)
            (record s { waiting = n })
  unfolding happen
  served_by world stream s n e = rw (e, happen) refl

  pub polled_by :
      (a : Accept) (s : Server)
      → s.phase ≡ accepting
      → happen from_str to_string repo_id_from_cwd version (polled a) s ≡ poll a s
  unfolding happen
  polled_by a s e = ground arith

  pub alive_by :
      (ev : ServerEvent) (s : Server)
      → s.phase ≡ accepting
      → react from_str to_string repo_id_from_cwd version ev s
        ≡ happen from_str to_string repo_id_from_cwd version ev s
  unfolding react
  alive_by ev s e = ground arith

  pub joining_by :
      (ev : ServerEvent) (s : Server) (b : Bool)
      → s.phase ≡ joining b
      → react from_str to_string repo_id_from_cwd version ev s
        ≡ happen from_str to_string repo_id_from_cwd version ev s
  unfolding react
  joining_by ev s b e = ground arith

  served-Move :
      (world : Surroundings) (stream : Stream) (s : Server) (n : ℕ)
      → s.waiting ≡ n
      → Move s (happen from_str to_string repo_id_from_cwd version (served world stream) s)
  unfolding happen
  served-Move world stream s zero e = kept (ground arith) (ground arith) (ground arith)
  served-Move world stream s (suc n) e = rw (served_by world stream s n e) (
      of_waiting s n (
        after_connection-Move (handle from_str to_string repo_id_from_cwd world s.state stream)
          (record s { waiting = n })))

  slept-Move :
      (s : Server) (n : ℕ)
      → s.sleeping ≡ n
      → Move s (happen from_str to_string repo_id_from_cwd version slept s)
  unfolding happen
  slept-Move s zero e = kept (ground arith) (ground arith) (ground arith)
  slept-Move s (suc n) e = told (ground arith) (ground arith) (ground arith)

  fetched-Move :
      (o : Option RateLimitObservedEvent) (s : Server)
      → Move s (happen from_str to_string repo_id_from_cwd version (fetched o) s)
  unfolding happen
  fetched-Move none s = still s
  fetched-Move (some event) s = if_aware s.state.config.rate_limit_aware
    where
      if_aware :
          (b : Bool)
          → Move s (
              if b
              then command from_str to_string repo_id_from_cwd version (apply_rate_limit event) s
              else s)
      if_aware true = command-Move (apply_rate_limit event) s
      if_aware false = still s

  polled-Move :
      (a : Accept) (s : Server) (p : Phase)
      → s.phase ≡ p
      → Move s (happen from_str to_string repo_id_from_cwd version (polled a) s)
  unfolding happen
  polled-Move a s accepting e = rw (polled_by a s e) (poll-Move a s s.exits refl e)
  polled-Move a s (joining b) e = kept (ground arith) (ground arith) (ground arith)
  polled-Move a s returned e = kept (ground arith) (ground arith) (ground arith)

  joined-Move :
      (s : Server) (p : Phase)
      → s.phase ≡ p
      → Move s (happen from_str to_string repo_id_from_cwd version joined s)
  unfolding happen finish_run
  joined-Move s accepting e = kept (ground arith) (ground arith) (ground arith)
  joined-Move s (joining b) e = ended b e (ground arith)
  joined-Move s returned e = kept (ground arith) (ground arith) (ground arith)

  happen-Move :
      (ev : ServerEvent) (s : Server)
      → Move s (happen from_str to_string repo_id_from_cwd version ev s)
  unfolding happen
  happen-Move (polled a) s = polled-Move a s s.phase refl
  happen-Move (served world stream) s = served-Move world stream s s.waiting refl
  happen-Move slept s = slept-Move s s.sleeping refl
  happen-Move (scheduler_ticked now now_wall) s = command-Move (tick now now_wall) s
  happen-Move (fetched event) s = fetched-Move event s
  happen-Move watcher_ticked s = watch-Move version s
  happen-Move signalled s = kept refl refl refl
  happen-Move joined s = joined-Move s s.phase refl
  happen-Move (started_elsewhere w) s = kept refl refl refl
  happen-Move (removed_elsewhere name) s = kept refl refl refl

  pub react-Move :
      (ev : ServerEvent) (s : Server) (p : Phase)
      → s.phase ≡ p
      → Move s (react from_str to_string repo_id_from_cwd version ev s)
  unfolding react
  react-Move ev s accepting e = rw (alive_by ev s e) (happen-Move ev s)
  react-Move ev s (joining b) e = rw (joining_by ev s b e) (happen-Move ev s)
  react-Move ev s returned e = kept (ground arith) (ground arith) (ground arith)
