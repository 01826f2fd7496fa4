-- ===== src/Daemon/Server/TwoDaemons.antt =====
-- A daemon that has been stopped and the next one of its version, which starts before the first has
-- ended.
use merge_ready.Prelude.{
  ℕ, suc, ◌≤◌, ◌≡◌, ◌∙◌, refl, ap, sym, subst, Text, true, Option, some, [], ◌∷◌, ok, u32_max,
  is_none, arith,
}
use merge_ready.Shared.{Request, Response}
use merge_ready.Daemon.Store.{RepoId}
use merge_ready.Daemon.Handler.{Surroundings}
use merge_ready.Daemon.Files.{socket_path, pid_path}
use merge_ready.Daemon.Pid
use merge_ready.Daemon.Listener.{Startup, bind, cleanup}
use merge_ready.Daemon.Listener.Exclusion.{bind_ok}
use merge_ready.Daemon.Connection.{Stream, handle}
use merge_ready.Daemon.Server.{
  accepting, joining, Server, Accept, polled, served, watcher_ticked, started_elsewhere, joined,
  poll, watch, finish_run, others, after_connection, happen, react, run_server,
}
use merge_ready.Daemon.Server.Clean.{IsClean, cleanup-IsClean}
use merge_ready.Daemon.Server.Moves.{alive_by, joining_by, served_by, polled_by}

-- A daemon whose files are gone and whose tasks are cancelled, but whose loop still goes on.
record IsAlarmed (version : Text) (s t : Server) : Type 0 where
  cleaned : t.files ≡ cleanup version s.files
  looping : t.phase ≡ accepting
  cancels : t.cancelled ≡ true
  unheard : t.exits ≡ s.exits

watch-IsAlarmed :
    (version : Text) (s t : Server)
    → t.files ≡ cleanup version s.files
    → t.phase ≡ accepting
    → t.watching ≡ true
    → t.exits ≡ s.exits
    → is_none (t.files (socket_path version)) ≡ true
    → IsAlarmed version s (watch version t)
unfolding watch
watch-IsAlarmed version s t f p w x gone = record {
  cleaned = ground arith;
  looping = ground arith;
  cancels = ground arith;
  unheard = ground arith;
}

-- The loop's round gives that the files are to be cleaned up.
poll_cancelled :
    (a : Accept) (s : Server)
    → s.exits ≡ 0
    → s.cancelled ≡ true
    → ((poll a s).phase ≡ joining true) × ((poll a s).files ≡ s.files)
unfolding poll
poll_cancelled a s x c = (ground arith, ground arith)

module _ (from_str : Text → Option Request) (to_string : Response → Option Text)
    (repo_id_from_cwd : Text → Option RepoId) (version : Text) where
  -- The daemon has answered the stop, and its watcher has missed the socket.
  alarmed :
      (world : Surroundings) (stream : Stream) (s : Server) (n : ℕ)
      → s.phase ≡ accepting
      → s.waiting ≡ suc n
      → s.watching ≡ true
      → (handle from_str to_string repo_id_from_cwd world s.state stream).exits ≡ true
      → IsAlarmed version s (
          run_server from_str to_string repo_id_from_cwd version s
            (served world stream ∷ watcher_ticked ∷ []))
  unfolding run_server happen after_connection
  alarmed world stream s n e w watching stops =
      let c = handle from_str to_string repo_id_from_cwd world s.state stream in
      let t =
        after_connection from_str to_string repo_id_from_cwd version c (record s { waiting = n }) in
      let files : t.files ≡ cleanup version s.files = ground arith in
      rw
        (alive_by from_str to_string repo_id_from_cwd version (served world stream) s e
          ∙ served_by from_str to_string repo_id_from_cwd version world stream s n w)
        (rw (alive_by from_str to_string repo_id_from_cwd version watcher_ticked t e) (
          watch-IsAlarmed version s t files e watching refl (
            ap (λ fs. is_none (fs (socket_path version))) files
            ∙ ap is_none (cleanup-IsClean version s.files).0)))

  joined_cleans :
      (s : Server)
      → s.phase ≡ joining true
      → (happen from_str to_string repo_id_from_cwd version joined s).files
        ≡ cleanup version s.files
  unfolding happen finish_run
  joined_cleans s phase = ground arith

  started_by :
      (w : Startup) (s : Server)
      → s.phase ≡ accepting
      → react from_str to_string repo_id_from_cwd version (started_elsewhere w) s
        ≡ record s { files = (bind w version s.files).1 }
  unfolding happen others
  started_by w s e = alive_by from_str to_string repo_id_from_cwd version (started_elsewhere w) s e

  end_cleans :
      (a : Accept) (s : Server)
      → s.phase ≡ accepting
      → s.exits ≡ 0
      → s.cancelled ≡ true
      → (run_server from_str to_string repo_id_from_cwd version s (polled a ∷ joined ∷ [])).files
        ≡ cleanup version s.files
  unfolding run_server happen finish_run
  end_cleans a s e x c =
      let (phase, files) = poll_cancelled a s x c in
      rw
        (alive_by from_str to_string repo_id_from_cwd version (polled a) s e
          ∙ polled_by from_str to_string repo_id_from_cwd version a s e)
        (rw (joining_by from_str to_string repo_id_from_cwd version joined (poll a s) true phase)
          (joined_cleans (poll a s) phase ∙ ap (cleanup version) files))

  -- A stopped daemon that has not yet ended removes the files of the next one of its version: its
  -- own watcher takes the removed socket for a loss and cancels it, the next daemon takes the
  -- socket, and the loop that has heard of the cancellation before the stop cleans up again.
  pub second_cleanup :
      (world : Surroundings) (stream : Stream) (s : Server) (n : ℕ) (w : Startup) (a : Accept)
      → s.phase ≡ accepting
      → s.waiting ≡ suc n
      → s.watching ≡ true
      → s.exits ≡ 0
      → (handle from_str to_string repo_id_from_cwd world s.state stream).exits ≡ true
      → w.own_pid ≤ u32_max
      → (bind w version (cleanup version s.files)).0 ≡ ok tt
      → let next =
          run_server from_str to_string repo_id_from_cwd version s
            (served world stream ∷ watcher_ticked ∷ started_elsewhere w ∷ []) in
        (Pid.read (pid_path version) next.files ≡ some w.own_pid)
        × (next.files (socket_path version) ≡ some [])
        × IsClean version
            (run_server from_str to_string repo_id_from_cwd version next
              (polled a ∷ joined ∷ [])).files
  unfolding run_server others
  second_cleanup world stream s n w a e waits watching x stops small starts =
      let t =
        run_server from_str to_string repo_id_from_cwd version s
          (served world stream ∷ watcher_ticked ∷ []) in
      let i = alarmed world stream s n e waits watching stops in
      let u = record t { files = (bind w version t.files).1 } in
      let at : react from_str to_string repo_id_from_cwd version (started_elsewhere w) t ≡ u =
        started_by w t i.looping in
      let files : (bind w version t.files).1 ≡ (bind w version (cleanup version s.files)).1 =
        ap (λ fs. (bind w version fs).1) i.cleaned in
      let recorded = bind_ok w version (cleanup version s.files) small starts in
      rw at (
        ap (Pid.read (pid_path version)) files ∙ recorded.0,
        ap (λ fs. fs (socket_path version)) files ∙ recorded.1,
        subst (IsClean version) (sym (end_cleans a u i.looping (i.unheard ∙ x) i.cancels))
            (cleanup-IsClean version u.files),
      )
