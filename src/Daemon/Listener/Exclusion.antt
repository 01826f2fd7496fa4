-- ===== src/Daemon/Listener/Exclusion.antt =====
-- One daemon of a version at a time.
use merge_ready.Prelude.{
  ℕ, zero, suc, ◌+◌, ◌≤◌, ◌<◌, ◌≡◌, ◌∙◌, refl, sym, ap, inl, inr, Text, eqb, true, false, Option,
  none, some, [], Result, ok, err, Bool-cases, u32_max, decimal, ◌-◌, ◌==◌, arith,
}
use merge_ready.Daemon.Files.{Files, write_file, socket_path, pid_path, lock_path}
use merge_ready.Daemon.Files.Names.{
  lock-ne-pid, lock-ne-socket, pid-ne-socket, get-write_ne, get-write_self,
}
use merge_ready.Daemon.Pid
use merge_ready.Daemon.Pid.{Signalled, is_alive}
use merge_ready.Daemon.Pid.RoundTrip.{read-write}
use merge_ready.Daemon.Listener.{
  DaemonError, already_running, failure, TryBind, bound, in_use, refused, bind_loop,
  bind_with_retry, bind_retry_max, Startup, create_lock, claim, bound_as, listen, bind,
}

abbrev pub outcome : TryBind → Result DaemonError (Unit {0})
outcome bound = ok tt
outcome in_use = err already_running
outcome refused = err failure

-- What is to be shown of a result after attempts from `i` on with `left` retries.
pub record Tried (try_bind : ℕ → TryBind) (left i : ℕ) (r : Result DaemonError (Unit {0}) × ℕ)
    : Type 0 where
  pub made : i < r.1
  pub bounded : r.1 ≤ i + left + 1
  pub last : r.0 ≡ outcome (try_bind (r.1 - 1))
  pub busy : (k : ℕ) → i ≤ k → k + 1 < r.1 → try_bind k ≡ in_use
  pub given_up : try_bind (r.1 - 1) ≡ in_use → r.1 ≡ i + left + 1

one_attempt :
    (try_bind : ℕ → TryBind) (left i : ℕ) (r : Result DaemonError (Unit {0}))
    → r ≡ outcome (try_bind i)
    → (try_bind i ≡ in_use → left ≡ 0)
    → Tried try_bind left i (r, i + 1)
one_attempt try_bind left i r h k =
    let at : i + 1 - 1 ≡ i = omega arith in
    record {
      made = omega arith;
      bounded = omega arith;
      last = rw at h;
      busy = λ m low high. absurd (omega arith);
      given_up = λ e. omega (arith, k (ap try_bind (sym at) ∙ e));
    }

after_busy :
    (try_bind : ℕ → TryBind) (left i : ℕ) (r : Result DaemonError (Unit {0}) × ℕ)
    → try_bind i ≡ in_use
    → Tried try_bind left (i + 1) r
    → Tried try_bind (suc left) i r
after_busy try_bind left i r e t = record {
  made = omega arith;
  bounded = omega arith;
  last = t.last;
  busy = λ k low high. elim (Bool-cases (k == i)) [
    | inl same ↦ let at : k ≡ i = ground arith in rw at e
    | inr other ↦ t.busy k (ground arith) high
  ];
  given_up = λ g. omega (arith, t.given_up g);
}

bind_loop-Tried :
    (try_bind : ℕ → TryBind) (left i : ℕ) → Tried try_bind left i (bind_loop try_bind left i)
unfolding bind_loop
bind_loop-Tried try_bind zero i = by_cases (try_bind i) refl
  where
    by_cases : (t : TryBind) → try_bind i ≡ t → Tried try_bind zero i (bind_loop try_bind zero i)
    by_cases bound e = rw (e, bind_loop) (one_attempt try_bind zero i _ (rw e refl) (λ _. refl))
    by_cases in_use e = rw (e, bind_loop) (one_attempt try_bind zero i _ (rw e refl) (λ _. refl))
    by_cases refused e = rw (e, bind_loop) (one_attempt try_bind zero i _ (rw e refl) (λ _. refl))
bind_loop-Tried try_bind (suc left) i =
    by_cases (try_bind i) refl (bind_loop-Tried try_bind left (i + 1))
  where
    by_cases :
        (t : TryBind)
        → try_bind i ≡ t
        → Tried try_bind left (i + 1) (bind_loop try_bind left (i + 1))
        → Tried try_bind (suc left) i (bind_loop try_bind (suc left) i)
    by_cases bound e later =
        rw (e, bind_loop) (one_attempt try_bind (suc left) i _ (rw e refl) (λ k. cc))
    by_cases in_use e later = rw (e, bind_loop) (after_busy try_bind left i _ e later)
    by_cases refused e later =
        rw (e, bind_loop) (one_attempt try_bind (suc left) i _ (rw e refl) (λ k. cc))

-- The socket is tried again only where the address is in use, and the result is that of the last
-- attempt; where that one too finds the address in use, all the retries are spent.
pub bind_with_retry-Tried :
    (try_bind : ℕ → TryBind) (retry_max : ℕ)
    → Tried try_bind retry_max 0 (bind_with_retry try_bind retry_max)
unfolding bind_with_retry
bind_with_retry-Tried try_bind retry_max = bind_loop-Tried try_bind retry_max 0

pub create_lock_ne : (n : Text) (fs : Files) → eqb lock_path n ≡ false → create_lock fs n ≡ fs n
unfolding create_lock
create_lock_ne n fs h = ground (arith, get-write_ne lock_path n [] fs)

pub read_ext :
    (path : Text) (fs gs : Files) → fs path ≡ gs path → Pid.read path fs ≡ Pid.read path gs
unfolding Pid.read
read_ext path fs gs h = ap reading h
  where
    reading : Option Text → Option ℕ
    reading o = Pid.read path (λ _. o)

bind_claimed :
    (w : Startup) (version : Text) (fs : Files)
    → w.lock_opens ≡ true
    → w.locks ≡ true
    → bind w version fs
      ≡ listen w version (create_lock fs) (claim w.test_kill version (create_lock fs))
unfolding bind
bind_claimed w version fs opens locks = rw (opens, locks) refl

claim_alive :
    (test_kill : ℕ → Signalled) (version : Text) (fs : Files) (p : ℕ)
    → Pid.read (pid_path version) fs ≡ some p
    → is_alive test_kill p ≡ true
    → claim test_kill version fs ≡ none
unfolding claim
claim_alive test_kill version fs p recorded alive = rw (recorded, claim, alive) refl

-- A daemon that is recorded and alive keeps its place: a second one is turned away, and the socket
-- and the pid file stay as they are.
pub bind_excluded :
    (w : Startup) (version : Text) (fs : Files) (p : ℕ)
    → w.lock_opens ≡ true
    → w.locks ≡ true
    → Pid.read (pid_path version) fs ≡ some p
    → is_alive w.test_kill p ≡ true
    → ((bind w version fs).0 ≡ err already_running)
      × ((bind w version fs).1 (pid_path version) ≡ fs (pid_path version))
      × ((bind w version fs).1 (socket_path version) ≡ fs (socket_path version))
unfolding listen
bind_excluded w version fs p opens locks recorded alive =
    let locked = create_lock fs in
    let same_pid = create_lock_ne (pid_path version) fs (lock-ne-pid version) in
    let same_socket = create_lock_ne (socket_path version) fs (lock-ne-socket version) in
    let taken : claim w.test_kill version locked ≡ none =
      claim_alive w.test_kill version locked p
        (read_ext (pid_path version) locked fs same_pid ∙ recorded) alive in
    let turned : bind w version fs ≡ (err already_running, locked) =
      bind_claimed w version fs opens locks ∙ ap (listen w version locked) taken in
    rw turned (refl, same_pid, same_socket)

bind_locked :
    (w : Startup) (version : Text) (fs : Files)
    → (bind w version fs).0 ≡ ok tt
    → (w.lock_opens ≡ true) × (w.locks ≡ true)
unfolding bind
bind_locked w version fs h = ground arith

-- What the files are once the socket is taken.
abbrev published : Startup → Text → Files → Files
published w version fs =
    Pid.write w.own_pid (pid_path version) (write_file (socket_path version) [] fs)

bound_as_ok :
    (w : Startup) (version : Text) (fs : Files) (r : Result DaemonError (Unit {0}))
    → (bound_as w version fs r).0 ≡ ok tt
    → bound_as w version fs r ≡ (ok tt, published w version fs)
unfolding bound_as
bound_as_ok w version fs (ok _) h = ground arith
bound_as_ok w version fs (err e) h = cc

listen_ok :
    (w : Startup) (version : Text) (before : Files) (o : Option Files)
    → (listen w version before o).0 ≡ ok tt
    → (fs : Files) × (o ≡ some fs) × (listen w version before o ≡ (ok tt, published w version fs))
unfolding listen
listen_ok w version before none h = cc
listen_ok w version before (some fs) h =
    (fs, refl, bound_as_ok w version fs (bind_with_retry w.try_bind bind_retry_max).0 h)

claim_dead :
    (test_kill : ℕ → Signalled) (version : Text) (fs : Files) {gs : Files} (p : ℕ)
    → claim test_kill version fs ≡ some gs
    → Pid.read (pid_path version) fs ≡ some p
    → is_alive test_kill p ≡ false
claim_dead test_kill version fs p claimed recorded = elim (Bool-cases (is_alive test_kill p)) [
  | inl alive ↦ absurd (cc (claim_alive test_kill version fs p recorded alive))
  | inr dead ↦ dead
]

-- A daemon that takes the socket has found no living one recorded, and is itself recorded.
pub bind_ok :
    (w : Startup) (version : Text) (fs : Files)
    → w.own_pid ≤ u32_max
    → (bind w version fs).0 ≡ ok tt
    → (Pid.read (pid_path version) (bind w version fs).1 ≡ some w.own_pid)
      × ((bind w version fs).1 (socket_path version) ≡ some [])
      × ((p : ℕ) → Pid.read (pid_path version) fs ≡ some p → is_alive w.test_kill p ≡ false)
unfolding Pid.write
bind_ok w version fs small h =
    let (opens, locks) = bind_locked w version fs h in
    let locked = create_lock fs in
    let step = bind_claimed w version fs opens locks in
    let (claimed, is_claimed, result) =
      listen_ok w version locked (claim w.test_kill version locked)
        (sym (ap (λ r. r.0) step) ∙ h) in
    let taken : bind w version fs ≡ (ok tt, published w version claimed) = step ∙ result in
    rw taken (
      read-write w.own_pid (pid_path version) (write_file (socket_path version) [] claimed) small,
      get-write_ne (pid_path version) (socket_path version) (decimal w.own_pid)
            (write_file (socket_path version) [] claimed) (pid-ne-socket version)
          ∙ get-write_self (socket_path version) [] claimed,
      λ p recorded. claim_dead w.test_kill version locked p is_claimed (
          read_ext (pid_path version) locked fs
            (create_lock_ne (pid_path version) fs (lock-ne-pid version))
          ∙ recorded),
    )
