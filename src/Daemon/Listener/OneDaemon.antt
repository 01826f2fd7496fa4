-- ===== src/Daemon/Listener/OneDaemon.antt =====
-- The daemons of one version over time: starts under the lock, ends with and without cleaning up.
use merge_ready.Prelude.{
  ℕ, ◌≤◌, ◌≡◌, ◌∙◌, refl, inl, inr, Text, true, some, List, [], ◌∷◌, ◌++◌, ok, err, All, length,
  Bool-cases, u32_max, arith,
}
use merge_ready.Daemon.Files.{Files, pid_path}
use merge_ready.Daemon.Files.Names.{lock-ne-pid}
use merge_ready.Daemon.Pid
use merge_ready.Daemon.Pid.{is_alive}
use merge_ready.Daemon.Listener.{DaemonError, Startup, bind, cleanup}
use merge_ready.Daemon.Listener.Exclusion.{create_lock_ne, read_ext, bind_excluded, bind_ok}

-- The files, and the daemons that hold the socket: those that have taken it and have neither
-- cleaned up nor ended since.
pub record Daemons : Type 0 where
  pub files : Files
  pub running : List ℕ

pub data Step (version : Text) : Daemons → Daemons → Type 0 where
  started :
      (s : Daemons) (w : Startup)
      → All (λ p. is_alive w.test_kill p ≡ true) s.running
      → w.own_pid ≤ u32_max
      → (bind w version s.files).0 ≡ ok tt
      → Step version s
          (record { files = (bind w version s.files).1; running = w.own_pid ∷ s.running })
  turned_away :
      (s : Daemons) (w : Startup) (e : DaemonError)
      → All (λ p. is_alive w.test_kill p ≡ true) s.running
      → (bind w version s.files).0 ≡ err e
      → Step version s (record { files = (bind w version s.files).1; running = s.running })
  stopped :
      (s : Daemons) (p : ℕ) (before after : List ℕ)
      → s.running ≡ before ++ p ∷ after
      → Step version s (record { files = cleanup version s.files; running = before ++ after })
  died :
      (s : Daemons) (p : ℕ) (before after : List ℕ)
      → s.running ≡ before ++ p ∷ after
      → Step version s (record { files = s.files; running = before ++ after })

pub data Reach (version : Text) (s : Daemons) : Daemons → Type 0 where
  here : Reach version s s
  next : {t u : Daemons} → Reach version s t → Step version t u → Reach version s u

-- No daemon holds the socket, or the one that the pid file names.
abbrev IsRecorded : Text → Files → List ℕ → Type 0
IsRecorded version files [] = Unit
IsRecorded version files (p ∷ []) = Pid.read (pid_path version) files ≡ some p
IsRecorded version files (p ∷ q ∷ rest) = ⊥

abbrev IsExclusive : Text → Daemons → Type 0
IsExclusive version s = IsRecorded version s.files s.running

-- Whatever becomes of a start, the pid file of a living daemon stays.
bind_kept :
    (w : Startup) (version : Text) (fs : Files) (p : ℕ)
    → Pid.read (pid_path version) fs ≡ some p
    → is_alive w.test_kill p ≡ true
    → (bind w version fs).1 (pid_path version) ≡ fs (pid_path version)
unfolding bind
bind_kept w version fs p recorded alive = elim (Bool-cases w.lock_opens) [
  | inr shut ↦ rw (shut, bind) refl
  | inl opens ↦ elim (Bool-cases w.locks) [
    | inr free ↦ rw (opens, free, bind) (create_lock_ne (pid_path version) fs (lock-ne-pid version))
    | inl locks ↦ (bind_excluded w version fs p opens locks recorded alive).1
  ]
]

started-IsRecorded :
    (version : Text) (w : Startup) (fs : Files) (running : List ℕ)
    → IsRecorded version fs running
    → All (λ p. is_alive w.test_kill p ≡ true) running
    → w.own_pid ≤ u32_max
    → (bind w version fs).0 ≡ ok tt
    → IsRecorded version (bind w version fs).1 (w.own_pid ∷ running)
started-IsRecorded version w fs [] i alive small h = (bind_ok w version fs small h).0
started-IsRecorded version w fs (p ∷ []) i alive small h =
    absurd (cc ((bind_ok w version fs small h).2 p i))
started-IsRecorded version w fs (p ∷ q ∷ rest) i alive small h = i

turned_away-IsRecorded :
    (version : Text) (w : Startup) (fs : Files) (running : List ℕ)
    → IsRecorded version fs running
    → All (λ p. is_alive w.test_kill p ≡ true) running
    → IsRecorded version (bind w version fs).1 running
turned_away-IsRecorded version w fs [] i alive = tt
turned_away-IsRecorded version w fs (p ∷ []) i alive =
    read_ext (pid_path version) (bind w version fs).1 fs (bind_kept w version fs p i alive.0) ∙ i
turned_away-IsRecorded version w fs (p ∷ q ∷ rest) i alive = i

-- With one daemon less there is none.
removed-IsRecorded :
    (version : Text) (fs gs : Files) (p : ℕ) (running before after : List ℕ)
    → running ≡ before ++ p ∷ after
    → IsRecorded version fs running
    → IsRecorded version gs (before ++ after)
removed-IsRecorded version fs gs p running [] [] e i = tt
removed-IsRecorded version fs gs p running [] (q ∷ after) e i = absurd (rw e at i)
removed-IsRecorded version fs gs p running (r ∷ []) after e i = absurd (rw e at i)
removed-IsRecorded version fs gs p running (r ∷ q ∷ before) after e i = absurd (rw e at i)

Step-IsExclusive :
    {version : Text} {s t : Daemons}
    → Step version s t
    → IsExclusive version s
    → IsExclusive version t
Step-IsExclusive {version} (started s w alive small h) i =
    started-IsRecorded version w s.files s.running i alive small h
Step-IsExclusive {version} (turned_away s w e alive h) i =
    turned_away-IsRecorded version w s.files s.running i alive
Step-IsExclusive {version} (stopped s p before after e) i =
    removed-IsRecorded version s.files (cleanup version s.files) p s.running before after e i
Step-IsExclusive {version} (died s p before after e) i =
    removed-IsRecorded version s.files s.files p s.running before after e i

Reach-IsExclusive :
    {version : Text} {s t : Daemons}
    → IsExclusive version s
    → Reach version s t
    → IsExclusive version t
Reach-IsExclusive i here = i
Reach-IsExclusive i (next r st) = Step-IsExclusive st (Reach-IsExclusive i r)

length-recorded :
    (version : Text) (fs : Files) (running : List ℕ)
    → IsRecorded version fs running
    → length running ≤ 1
length-recorded version fs [] i = omega arith
length-recorded version fs (p ∷ []) i = omega arith
length-recorded version fs (p ∷ q ∷ rest) i = absurd i

-- Whatever files there are at first, and in whatever order daemons start, are turned away, stop and
-- die, at most one holds the socket at a time, and the pid file names it: where a daemon removes its
-- files once, as it gives the socket up, and the living are seen to be alive.
pub one_daemon :
    (version : Text) (files : Files) {t : Daemons}
    → Reach version (record { files = files; running = [] }) t
    → (length t.running ≤ 1)
      × ((p : ℕ) → t.running ≡ p ∷ [] → Pid.read (pid_path version) t.files ≡ some p)
one_daemon version files {t} r =
    let i = Reach-IsExclusive tt r in
    (length-recorded version t.files t.running i, λ p e. rw e at i)
