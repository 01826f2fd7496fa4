-- ===== src/Daemon/Server/Stopped.antt =====
-- A daemon that is asked to stop ends: once the connection's wait is over, the loop has had a round
-- and the tasks are joined, whatever else happens in between.
use merge_ready.Prelude.{
  ℕ, zero, suc, ◌+◌, ◌≤◌, ◌≡◌, refl, Text, true, Option, List, [], ◌∷◌, ◌++◌, ap, sym, ◌∙◌, arith,
}
use merge_ready.Shared.{Request, Response}
use merge_ready.Daemon.Store.{RepoId}
use merge_ready.Daemon.Handler.{Surroundings}
use merge_ready.Daemon.Connection.{Stream, handle}
use merge_ready.Daemon.Server.{
  Phase, accepting, joining, returned, Server, Accept, ServerEvent, polled, served, slept, joined,
  poll, finish_run, after_connection, happen, react, run_server,
}
use merge_ready.Daemon.Server.Moves.{
  Move, kept, asked, told, left, ended, react-Move, served_by, alive_by, polled_by,
}

-- How far the end has come: a stop is on its way to the loop, its message is in the channel, the
-- loop has ended, and so has the daemon.
abbrev IsAsked : Server → Type 0
IsAsked s = s.phase ≡ accepting → 1 ≤ s.sleeping + s.exits

abbrev IsTold : Server → Type 0
IsTold s = s.phase ≡ accepting → 1 ≤ s.exits

abbrev IsLeft : Server → Type 0
IsLeft s = s.phase ≡ accepting → ⊥

abbrev IsOver : Server → Type 0
IsOver s = s.phase ≡ returned

Move-IsAsked : (s t : Server) → Move s t → IsAsked s → IsAsked t
Move-IsAsked s t (kept a b c) i = λ h. omega (arith, i (sym c ∙ h))
Move-IsAsked s t (asked a b c) i = λ h. omega arith
Move-IsAsked s t (told a b c) i = λ h. omega arith
Move-IsAsked s t (left b e h) i = λ g. cc
Move-IsAsked s t (ended b e h) i = λ g. cc

Move-IsTold : (s t : Server) → Move s t → IsTold s → IsTold t
Move-IsTold s t (kept a b c) i = λ h. omega (arith, i (sym c ∙ h))
Move-IsTold s t (asked a b c) i = λ h. omega (arith, i (sym c ∙ h))
Move-IsTold s t (told a b c) i = λ h. omega arith
Move-IsTold s t (left b e h) i = λ g. cc
Move-IsTold s t (ended b e h) i = λ g. cc

Move-IsLeft : (s t : Server) → Move s t → IsLeft s → IsLeft t
Move-IsLeft s t (kept a b c) i = λ h. i (sym c ∙ h)
Move-IsLeft s t (asked a b c) i = λ h. i (sym c ∙ h)
Move-IsLeft s t (told a b c) i = λ h. i (sym c ∙ h)
Move-IsLeft s t (left b e h) i = λ g. i e
Move-IsLeft s t (ended b e h) i = λ g. cc

Move-IsOver : (s t : Server) → Move s t → IsOver s → IsOver t
Move-IsOver s t (kept a b c) i = c ∙ i
Move-IsOver s t (asked a b c) i = c ∙ i
Move-IsOver s t (told a b c) i = c ∙ i
Move-IsOver s t (left b e h) i = cc
Move-IsOver s t (ended b e h) i = h

module _ (from_str : Text → Option Request) (to_string : Response → Option Text)
    (repo_id_from_cwd : Text → Option RepoId) (version : Text) where
  -- What every move keeps, a run keeps.
  kept_by_run :
      (P : Server → Type 0)
      → ((s t : Server) → Move s t → P s → P t)
      → (s : Server) (evs : List ServerEvent) → P s
      → P (run_server from_str to_string repo_id_from_cwd version s evs)
  unfolding run_server
  kept_by_run P on s [] p = p
  kept_by_run P on s (ev ∷ evs) p =
      kept_by_run P on (react from_str to_string repo_id_from_cwd version ev s) evs
        (on s _ (react-Move from_str to_string repo_id_from_cwd version ev s s.phase refl) p)

  run_server-append :
      (s : Server) (evs rest : List ServerEvent)
      → run_server from_str to_string repo_id_from_cwd version s (evs ++ rest)
        ≡ run_server from_str to_string repo_id_from_cwd version
            (run_server from_str to_string repo_id_from_cwd version s evs)
            rest
  unfolding run_server
  run_server-append s [] rest = refl
  run_server-append s (ev ∷ evs) rest =
      run_server-append (react from_str to_string repo_id_from_cwd version ev s) evs rest

  react-IsLeft :
      (ev : ServerEvent) (s : Server)
      → IsLeft s
      → IsLeft (react from_str to_string repo_id_from_cwd version ev s)
  react-IsLeft ev s i =
      Move-IsLeft s (react from_str to_string repo_id_from_cwd version ev s)
        (react-Move from_str to_string repo_id_from_cwd version ev s s.phase refl) i

  tells :
      (s : Server) (p : Phase) (n : ℕ)
      → s.phase ≡ p
      → s.sleeping ≡ n
      → IsAsked s
      → IsTold (react from_str to_string repo_id_from_cwd version slept s)
  unfolding happen
  tells s accepting zero e h i =
      rw (alive_by from_str to_string repo_id_from_cwd version slept s e) (λ g. ground (arith, i e))
  tells s accepting (suc n) e h i =
      rw (alive_by from_str to_string repo_id_from_cwd version slept s e) (λ g. ground arith)
  tells s (joining b) n e h i = λ g. absurd (react-IsLeft slept s (λ k. cc) g)
  tells s returned n e h i = λ g. absurd (react-IsLeft slept s (λ k. cc) g)

  leaves :
      (a : Accept) (s : Server) (p : Phase)
      → s.phase ≡ p
      → IsTold s
      → IsLeft (react from_str to_string repo_id_from_cwd version (polled a) s)
  unfolding poll
  leaves a s accepting e i =
      rw
        (alive_by from_str to_string repo_id_from_cwd version (polled a) s e
          ∙ polled_by from_str to_string repo_id_from_cwd version a s e)
        (λ g. ground (arith, i e))
  leaves a s (joining b) e i = react-IsLeft (polled a) s (λ k. cc)
  leaves a s returned e i = react-IsLeft (polled a) s (λ k. cc)

  ends :
      (s : Server) (p : Phase)
      → s.phase ≡ p
      → IsLeft s
      → IsOver (react from_str to_string repo_id_from_cwd version joined s)
  unfolding react happen finish_run
  ends s accepting e i = absurd (i e)
  ends s (joining b) e i = ground arith
  ends s returned e i = ground arith

  served-IsAsked :
      (world : Surroundings) (stream : Stream) (s : Server) (n : ℕ)
      → s.phase ≡ accepting
      → s.waiting ≡ suc n
      → (handle from_str to_string repo_id_from_cwd world s.state stream).exits ≡ true
      → IsAsked (react from_str to_string repo_id_from_cwd version (served world stream) s)
  unfolding after_connection
  served-IsAsked world stream s n e w stops =
      rw
        (alive_by from_str to_string repo_id_from_cwd version (served world stream) s e
          ∙ served_by from_str to_string repo_id_from_cwd version world stream s n w)
        (λ g. ground arith)

  -- A daemon that answers a request to stop ends: once, after it, the wait of a connection is over,
  -- the loop has then had a round and the tasks are joined after that, with whatever else happens
  -- in between.
  pub stop_ends :
      (world : Surroundings) (stream : Stream) (s : Server) (n : ℕ) (a : Accept)
      (before between after rest : List ServerEvent)
      → s.phase ≡ accepting
      → s.waiting ≡ suc n
      → (handle from_str to_string repo_id_from_cwd world s.state stream).exits ≡ true
      → (run_server from_str to_string repo_id_from_cwd version s (
          served world stream
          ∷ (before ++ slept ∷ (between ++ polled a ∷ (after ++ joined ∷ rest))))).phase
        ≡ returned
  unfolding run_server
  stop_ends world stream s n a before between after rest e w stops =
      let run = run_server from_str to_string repo_id_from_cwd version in
      let next = react from_str to_string repo_id_from_cwd version in
      let s1 = run (next (served world stream) s) before in
      let i1 =
        kept_by_run IsAsked Move-IsAsked (next (served world stream) s) before
          (served-IsAsked world stream s n e w stops) in
      let s2 = run (next slept s1) between in
      let i2 =
        kept_by_run IsTold Move-IsTold (next slept s1) between
          (tells s1 s1.phase s1.sleeping refl refl i1) in
      let s3 = run (next (polled a) s2) after in
      let i3 =
        kept_by_run IsLeft Move-IsLeft (next (polled a) s2) after (leaves a s2 s2.phase refl i2) in
      let i4 = kept_by_run IsOver Move-IsOver (next joined s3) rest (ends s3 s3.phase refl i3) in
      ap (λ t. t.phase)
        (run_server-append (next (served world stream) s) before
            (slept ∷ (between ++ polled a ∷ (after ++ joined ∷ rest)))
          ∙ run_server-append (next slept s1) between (polled a ∷ (after ++ joined ∷ rest))
          ∙ run_server-append (next (polled a) s2) after (joined ∷ rest))
      ∙ i4
