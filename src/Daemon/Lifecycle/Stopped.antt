-- ===== src/Daemon/Lifecycle/Stopped.antt =====
-- What the answer of `stop` means.
use merge_ready.Prelude.{
  ℕ, Text, Bool, true, false, not, none, some, List, [], ◌∷◌, ◌++◌, any, ◌≡◌, refl, inl, inr,
  Bool-cases, arith,
}
use merge_ready.Daemon.Files.{Files, pid_path}
use merge_ready.Daemon.Files.Names.{get-remove_self}
use merge_ready.Daemon.Pid
use merge_ready.Daemon.Pid.{Signalled, Poll, is_alive, terminate, wait_until_gone}
use merge_ready.Daemon.Lifecycle.{
  get_pid, Stop, terminate_and_wait, waited, wait_or_terminate, after_answer, without_answer, stop,
}

-- In one of the rounds the process does not answer.
abbrev pub seen_gone : ℕ → List Poll → Bool
seen_gone p polls = any (λ poll. not (is_alive poll.test_kill p)) polls

-- The process has been seen gone, and the file is removed.
abbrev Gone : ℕ → Text → List Poll → Files → Type 0
Gone p path polls fs = (seen_gone p polls ≡ true) × (fs path ≡ none)

wait_until_gone-Gone :
    (p : ℕ) (path : Text) (polls : List Poll) (fs : Files)
    → (wait_until_gone p path polls fs).0 ≡ true
    → Gone p path polls (wait_until_gone p path polls fs).1
unfolding wait_until_gone Pid.remove
wait_until_gone-Gone p path [] fs h = cc
wait_until_gone-Gone p path (poll ∷ polls) fs h =
    ground (arith, wait_until_gone-Gone p path polls fs, get-remove_self path fs)

seen_gone-append_left :
    (p : ℕ) (xs ys : List Poll) → seen_gone p xs ≡ true → seen_gone p (xs ++ ys) ≡ true
seen_gone-append_left p [] ys h = cc
seen_gone-append_left p (x ∷ xs) ys h = ground (arith, seen_gone-append_left p xs ys)

seen_gone-append_right :
    (p : ℕ) (xs ys : List Poll) → seen_gone p ys ≡ true → seen_gone p (xs ++ ys) ≡ true
seen_gone-append_right p [] ys h = h
seen_gone-append_right p (x ∷ xs) ys h = ground (arith, seen_gone-append_right p xs ys)

terminate_and_wait-Gone :
    (w : Stop) (p : ℕ) (path : Text) (fs : Files)
    → (terminate_and_wait w p path fs).0 ≡ true
    → Gone p path w.polls_later (terminate_and_wait w p path fs).1
unfolding terminate_and_wait
terminate_and_wait-Gone w p path fs h = elim (Bool-cases (terminate w.kill p)) [
  | inl sent ↦
      rw (sent, terminate_and_wait)
        (wait_until_gone-Gone p path w.polls_later fs (rw (sent, terminate_and_wait) at h))
  | inr unsent ↦ absurd (cc (rw (unsent, terminate_and_wait) at h))
]

wait_or_terminate-Gone :
    (w : Stop) (p : ℕ) (path : Text) (fs : Files)
    → (wait_or_terminate w p path fs).0 ≡ true
    → Gone p path (w.polls ++ w.polls_later) (wait_or_terminate w p path fs).1
unfolding wait_or_terminate
wait_or_terminate-Gone w p path fs =
    after (wait_until_gone p path w.polls fs) (wait_until_gone-Gone p path w.polls fs)
  where
    after :
        (r : Bool × Files)
        → (r.0 ≡ true → Gone p path w.polls r.1)
        → (waited w p path r).0 ≡ true
        → Gone p path (w.polls ++ w.polls_later) (waited w p path r).1
    after (true, gs) first h =
        let (gone, removed) = first refl in
        (seen_gone-append_left p w.polls w.polls_later gone, removed)
    after (false, gs) first h =
        let (gone, removed) = terminate_and_wait-Gone w p path gs h in
        (seen_gone-append_right p w.polls w.polls_later gone, removed)

answered :
    (w : Stop) (version : Text) (fs : Files) (p : ℕ)
    → get_pid w.test_kill version fs ≡ some p
    → w.answered ≡ true
    → stop w version fs ≡ wait_or_terminate w p (pid_path version) fs
unfolding stop after_answer
answered w version fs p live yes_answer = simp (yes_answer, live) refl

unanswered :
    (w : Stop) (version : Text) (fs : Files) (p : ℕ)
    → get_pid w.test_kill version fs ≡ some p
    → w.answered ≡ false
    → stop w version fs ≡ without_answer w (pid_path version) fs (some p)
unfolding stop
unanswered w version fs p live no_answer = simp (no_answer, live) refl

without_answer-Gone :
    (w : Stop) (p : ℕ) (path : Text) (fs : Files)
    → (without_answer w path fs (some p)).0 ≡ true
    → Gone p path w.polls_later (without_answer w path fs (some p)).1
unfolding without_answer
without_answer-Gone w p path fs h = elim (Bool-cases (is_alive w.test_kill_later p)) [
  | inl alive ↦
      rw (alive, without_answer)
        (terminate_and_wait-Gone w p path fs (rw (alive, without_answer) at h))
  | inr gone ↦ absurd (cc (rw (gone, without_answer) at h))
]

-- Where the pid file names a living process, `stop` reports success only once that process has
-- been seen gone, and then the pid file is removed: whether the daemon answered the request, or
-- had to be terminated.
pub stop_lem :
    (w : Stop) (version : Text) (fs : Files) (p : ℕ)
    → get_pid w.test_kill version fs ≡ some p
    → (stop w version fs).0 ≡ true
    → (seen_gone p (w.polls ++ w.polls_later) ≡ true)
      × ((stop w version fs).1 (pid_path version) ≡ none)
stop_lem w version fs p live h = elim (Bool-cases w.answered) [
  | inl yes_answer ↦
      let e : stop w version fs ≡ wait_or_terminate w p (pid_path version) fs =
        answered w version fs p live yes_answer in
      rw e (wait_or_terminate-Gone w p (pid_path version) fs (rw e at h))
  | inr no_answer ↦
      let e : stop w version fs ≡ without_answer w (pid_path version) fs (some p) =
        unanswered w version fs p live no_answer in
      let (gone, removed) = without_answer-Gone w p (pid_path version) fs (rw e at h) in
      rw e (seen_gone-append_right p w.polls w.polls_later gone, removed)
]
