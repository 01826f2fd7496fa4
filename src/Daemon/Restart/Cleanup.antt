-- ===== src/Daemon/Restart/Cleanup.antt =====
-- Which files a clean-up of other versions removes, and which it leaves.
use merge_ready.Prelude.{
  ℕ, ◌-◌, ◌≡◌, ◌≢◌, ◌∙◌, ◌⊎◌, refl, sym, ap, ap₂, inl, inr, Text, codes, eqb, eqb_iff, eqb_refl,
  starts_with, Bool, true, false, Option, none, some, List, [], ◌∷◌, ◌++◌, if◌then◌else◌, filter,
  length, length-append, take, drop, take-append-drop, Member, Bool-cases, arith,
}
use merge_ready.Daemon.Files.{
  Files, remove_file, socket_path, pid_path, ends_with, is_old_pid_file, old_daemon_pid_files,
  before_last_dot, file_stem, stem_of,
}
use merge_ready.Daemon.Pid
use merge_ready.Daemon.Pid.{Poll, is_alive, wait_until_gone}
use merge_ready.Daemon.Restart.{
  OldDaemon, old_socket, ended, cleanup_one, cleanup_all, cleanup_old_versions,
}

-- The files with two names removed.
abbrev without_both : Text → Files → Text → Option Text
without_both name fs m = if eqb name m then none else if eqb (old_socket name) m then none else fs m

wait_until_gone_ne :
    (p : ℕ) (name : Text) (polls : List Poll) (fs : Files) (m : Text)
    → eqb name m ≡ false
    → (wait_until_gone p name polls fs).1 m ≡ fs m
unfolding wait_until_gone Pid.remove remove_file
wait_until_gone_ne p name [] fs m h = refl
wait_until_gone_ne p name (poll ∷ polls) fs m h =
    ground (arith, wait_until_gone_ne p name polls fs m)

ended_lem :
    (w : OldDaemon) (name : Text) (fs : Files) (o : Option ℕ) (m : Text)
    → ended w name fs o m ≡ without_both name fs m
unfolding ended remove_file
ended_lem w name fs none m = refl
ended_lem w name fs (some p) m = ground (arith, wait_until_gone_ne p name w.polls fs m)

cleanup_one_lem :
    (w : OldDaemon) (name : Text) (fs : Files) (m : Text)
    → cleanup_one w name fs m ≡ without_both name fs m
unfolding cleanup_one
cleanup_one_lem w name fs m = ended_lem w name fs (Pid.read name fs) m

-- A file that no clean-up names stays.
cleanup_all_kept :
    (world : Text → OldDaemon) (names : List Text) (fs : Files) (m : Text)
    → ((n : Text) → Member n names → (eqb n m ≡ false) × (eqb (old_socket n) m ≡ false))
    → cleanup_all world names fs m ≡ fs m
unfolding cleanup_all
cleanup_all_kept world [] fs m h = refl
cleanup_all_kept world (n ∷ names) fs m h =
    let (a, b) = h n (inl refl) in
    cleanup_all_kept world names (cleanup_one (world n) n fs) m (λ k i. h k (inr i))
    ∙ cleanup_one_lem (world n) n fs m
    ∙ rw (a, b) refl

-- What is gone stays gone.
cleanup_all_gone :
    (world : Text → OldDaemon) (names : List Text) (fs : Files) (m : Text)
    → fs m ≡ none
    → cleanup_all world names fs m ≡ none
unfolding cleanup_all
cleanup_all_gone world [] fs m h = h
cleanup_all_gone world (n ∷ names) fs m h =
    cleanup_all_gone world names (cleanup_one (world n) n fs) m
      (cleanup_one_lem (world n) n fs m ∙ ground arith)

cleanup_all_removed :
    (world : Text → OldDaemon) (names : List Text) (fs : Files) (n : Text)
    → Member n names
    → (cleanup_all world names fs n ≡ none) × (cleanup_all world names fs (old_socket n) ≡ none)
unfolding cleanup_all
cleanup_all_removed world [] fs n i = absurd i
cleanup_all_removed world (k ∷ names) fs n (inl e) = (
  cleanup_all_gone world names (cleanup_one (world k) k fs) n
      (cleanup_one_lem (world k) k fs n ∙ rw (e, eqb_refl k) refl),
  cleanup_all_gone world names (cleanup_one (world k) k fs) (old_socket n) (
      cleanup_one_lem (world k) k fs (old_socket n)
      ∙ rw (e, eqb_refl (old_socket k)) (ground arith)),
)
cleanup_all_removed world (k ∷ names) fs n (inr i) =
    cleanup_all_removed world names (cleanup_one (world k) k fs) n i

ends_with-split : (s suffix : Text) → ends_with s suffix ≡ true → (p : Text) × (s ≡ p ++ suffix)
unfolding ends_with
ends_with-split s suffix h =
    let k = length s - length suffix in
    let tail : drop k s ≡ suffix = ground (arith, eqb_iff (drop k s) suffix) in
    (take k s, sym (take-append-drop k s) ∙ ap (λ t. take k s ++ t) tail)

before_last_dot-pid : (p : Text) → before_last_dot (p ++ codes ".pid") ≡ some p
unfolding before_last_dot
before_last_dot-pid [] = refl
before_last_dot-pid (c ∷ p) = rw (before_last_dot-pid p, before_last_dot) refl

file_stem-pid : (c : ℕ) (p : Text) → file_stem ((c ∷ p) ++ codes ".pid") ≡ c ∷ p
unfolding file_stem
file_stem-pid c p = ap (stem_of ((c ∷ p) ++ codes ".pid")) (before_last_dot-pid (c ∷ p))

append_cancel_right : (p q s : Text) → p ++ s ≡ q ++ s → p ≡ q
append_cancel_right [] [] s e = refl
append_cancel_right [] (d ∷ q) s e =
    absurd (omega (arith, ap (length {0}) e, length-append {0} q s))
append_cancel_right (c ∷ p) [] s e =
    absurd (omega (arith, ap (length {0}) e, length-append {0} p s))
append_cancel_right (c ∷ p) (d ∷ q) s e =
    let parts : (c ≡ d) × (p ++ s ≡ q ++ s) = ground arith in
    ap₂ (λ (x : ℕ) (t : Text). x ∷ t) parts.0 (append_cancel_right p q s parts.1)

-- The last character of a text, which a name's ending decides.
last_of : Text → ℕ
last_of [] = 0
last_of (c ∷ []) = c
last_of (c ∷ d ∷ s) = last_of (d ∷ s)

last_of-append : (p s : Text) (c : ℕ) → last_of (p ++ c ∷ s) ≡ last_of (c ∷ s)
unfolding last_of
last_of-append [] s c = refl
last_of-append (a ∷ []) s c = refl
last_of-append (a ∷ b ∷ p) s c = last_of-append (b ∷ p) s c

eqb-ne : (s t : Text) → s ≢ t → eqb s t ≡ false
eqb-ne s t h = elim (Bool-cases (eqb s t)) [
  | inl same ↦ absurd (h ((eqb_iff s t).0 same))
  | inr other ↦ other
]

endings_differ : (p q : Text) → (p ++ codes ".pid") ≢ (q ++ codes ".sock")
unfolding last_of
endings_differ p q e =
    let same : last_of (p ++ codes ".pid") ≡ last_of (q ++ codes ".sock") = ap last_of e in
    absurd (
      omega
        (arith, same, last_of-append p (codes "pid") b'.', last_of-append q (codes "sock") b'.'))

-- A pid file of another version has a name of its own, and so has the socket beside it.
old_names :
    (version n : Text)
    → is_old_pid_file version n ≡ true
    → ((eqb n (pid_path version) ≡ false) × (eqb n (socket_path version) ≡ false))
      × ((eqb (old_socket n) (pid_path version) ≡ false)
          × (eqb (old_socket n) (socket_path version) ≡ false))
unfolding is_old_pid_file pid_path socket_path starts_with
old_names version n h =
    let prefixed : starts_with (codes "daemon-") n ≡ true = ground arith in
    let ending : ends_with n (codes ".pid") ≡ true = ground arith in
    let other : eqb n (pid_path version) ≡ false = ground arith in
    let (p, split) = ends_with-split n (codes ".pid") ending in by_stem p split prefixed other
  where
    full : Text
    full = codes "daemon-" ++ version

    by_stem :
        (p : Text)
        → n ≡ p ++ codes ".pid"
        → starts_with (codes "daemon-") n ≡ true
        → eqb n (pid_path version) ≡ false
        → ((eqb n (pid_path version) ≡ false) × (eqb n (socket_path version) ≡ false))
          × ((eqb (old_socket n) (pid_path version) ≡ false)
              × (eqb (old_socket n) (socket_path version) ≡ false))
    by_stem [] split prefixed other =
        let impossible : false ≡ true = rw split at prefixed in absurd (cc impossible)
    by_stem (c ∷ p) split prefixed other =
        let stem : file_stem n ≡ c ∷ p = ap file_stem split ∙ file_stem-pid c p in
        let sock : old_socket n ≡ (c ∷ p) ++ codes ".sock" = ap (λ t. t ++ codes ".sock") stem in
        (
          (
            other,
            eqb-ne n (socket_path version) (λ e. endings_differ (c ∷ p) full (sym split ∙ e)),
          ),
          (
            eqb-ne (old_socket n) (pid_path version)
                (λ e. endings_differ full (c ∷ p) (sym e ∙ sock)),
            eqb-ne (old_socket n) (socket_path version) (λ e.
                let q = append_cancel_right (c ∷ p) full (codes ".sock") (sym sock ∙ e) in
                let same : n ≡ pid_path version = split ∙ ap (λ t. t ++ codes ".pid") q in
                cc ((eqb_iff n (pid_path version)).1 same)),
          ),
        )

filter-Member :
    (test : Text → Bool) (names : List Text) (n : Text)
    → Member n (filter test names)
    → test n ≡ true
filter-Member test [] n i = absurd i
filter-Member test (k ∷ names) n i = elim (Bool-cases (test k)) [
  | inl kept ↦ at_head kept (filter-Member test names n) (rw kept at i)
  | inr dropped ↦ filter-Member test names n (rw dropped at i)
]
  where
    at_head :
        test k ≡ true
        → (Member n (filter test names) → test n ≡ true)
        → (n ≡ k) ⊎ Member n (filter test names)
        → test n ≡ true
    at_head kept later (inl e) = rw e kept
    at_head kept later (inr i) = later i

Member-filter :
    (test : Text → Bool) (names : List Text) (n : Text)
    → Member n names
    → test n ≡ true
    → Member n (filter test names)
Member-filter test [] n i h = absurd i
Member-filter test (k ∷ names) n (inl e) h = rw (sym e, h) (inl refl)
Member-filter test (k ∷ names) n (inr i) h =
    let later = Member-filter test names n i h in
    elim (Bool-cases (test k)) [ inl kept ↦ rw kept (inr later) | inr dropped ↦ rw dropped later ]

module _ (world : Text → OldDaemon) (version : Text) (names : List Text) (fs : Files) where
  -- The clean-up removes the pid file and the socket of each other version that the directory
  -- lists, and leaves the pid file and the socket of its own version as they are.
  pub cleanup_old_versions_lem :
      ((n : Text)
        → Member n names
        → is_old_pid_file version n ≡ true
        → (cleanup_old_versions world version names fs n ≡ none)
          × (cleanup_old_versions world version names fs (old_socket n) ≡ none))
      × ((cleanup_old_versions world version names fs (pid_path version) ≡ fs (pid_path version))
          × (cleanup_old_versions world version names fs (socket_path version)
              ≡ fs (socket_path version)))
  unfolding cleanup_old_versions old_daemon_pid_files
  cleanup_old_versions_lem = (
    λ n i old.
        cleanup_all_removed world (old_daemon_pid_files version names) fs n
          (Member-filter (is_old_pid_file version) names n i old),
    (
      cleanup_all_kept world (old_daemon_pid_files version names) fs (pid_path version) (λ n i.
          let (own, beside) =
            old_names version n (filter-Member (is_old_pid_file version) names n i) in
          (own.0, beside.0)),
      cleanup_all_kept world (old_daemon_pid_files version names) fs (socket_path version) (λ n i.
          let (own, beside) =
            old_names version n (filter-Member (is_old_pid_file version) names n i) in
          (own.1, beside.1)),
    ),
  )
