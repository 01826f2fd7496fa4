-- ===== src/Daemon/Command/ExitCodes.antt =====
-- The exit code of `daemon start`.
use merge_ready.Prelude.{
  ℕ, ◌≤◌, ◌≡◌, ◌≢◌, ◌∙◌, ◌↔◌, refl, ap, Text, codes, eqb, eqb_iff, Bool, true, false, Option, none,
  some, [], ◌∷◌, ◌++◌, pos, negsuc, zero, suc, inl, inr, Bool-cases, arith,
}
use merge_ready.Daemon.Command.{
  Waited, exited, wait_failed, from_wait, exit_code, exit_of, StartOutcome, line_read, ended,
  timed_out, Child, supervise_spawned, supervise, interpret, launch,
}

-- The inner process has come up and said so.
abbrev pub IsUp : Child → Type 0
IsUp child =
    (child.spawn_error ≡ none)
    × ((waited : Waited) × (child.event ≡ line_read (some (codes "ready" ++ 10 ∷ [])) waited))

-- An early end never counts as success, and its code is one of a byte.
exit_of_bounds :
    (w : Waited)
    → (1 ≤ exit_code (exit_of (from_wait w))) × (exit_code (exit_of (from_wait w)) ≤ 255)
unfolding exit_of from_wait exit_code
exit_of_bounds (exited none) = omega arith
exit_of_bounds (exited (some (pos zero))) = omega arith
exit_of_bounds (exited (some (pos (suc n)))) = ground arith
exit_of_bounds (exited (some (negsuc n))) = omega arith
exit_of_bounds wait_failed = omega arith

-- What a code says: it is a byte, and 0 exactly where the inner process is up.
abbrev Tells : Type 0 → ℕ → Type 0
Tells Up c = (c ≤ 255) × ((c ≡ 0) ↔ Up)

failing : {Up : Type 0} (c : ℕ) → (1 ≤ c) × (c ≤ 255) → ¬ Up → Tells Up c
failing c h down = (h.1, (λ e. absurd (omega (arith, e, h)), λ up. absurd (down up)))

not_ready :
    (t : Text) (w : Waited) {event : StartOutcome}
    → eqb t (codes "ready" ++ 10 ∷ []) ≡ false
    → (v : Waited) × (event ≡ line_read (some (codes "ready" ++ 10 ∷ [])) v)
    → event ≢ line_read (some t) w
not_ready t w other (v, up) q =
    let same : t ≡ codes "ready" ++ 10 ∷ [] = cc in
    cc ((eqb_iff t (codes "ready" ++ 10 ∷ [])).1 same)

supervise-Tells :
    (child : Child) (secs : ℕ) → Tells (IsUp child) (exit_code (interpret (supervise child secs)).0)
unfolding supervise interpret exit_code
supervise-Tells child secs = by_spawn child.spawn_error child.event refl refl
  where
    Wanted : Option Text → StartOutcome → Type 0
    Wanted e event =
        Tells (IsUp child) (exit_code (interpret (supervise_spawned e event child.stderr secs)).0)

    by_spawn :
        (e : Option Text) (event : StartOutcome)
        → child.spawn_error ≡ e
        → child.event ≡ event
        → Wanted e event
    by_spawn (some e) event p q = failing 1 (omega arith) (λ up. cc (up.0))
    by_spawn none (ended w) p q = failing _ (exit_of_bounds w) (λ up. cc (up.1.1))
    by_spawn none timed_out p q = failing 1 (omega arith) (λ up. cc (up.1.1))
    by_spawn none (line_read none w) p q = failing _ (exit_of_bounds w) (λ up. cc (up.1.1))
    by_spawn none (line_read (some t) w) p q =
        elim (Bool-cases (eqb t (codes "ready" ++ 10 ∷ []))) [
          | inl same ↦
              let is_ready : t ≡ codes "ready" ++ 10 ∷ [] =
                (eqb_iff t (codes "ready" ++ 10 ∷ [])).0 same in
              rw same (
                omega arith,
                (λ e. (p, (w, q ∙ ap (λ l. line_read (some l) w) is_ready)), λ up. refl),
              )
          | inr other ↦ rw other (failing _ (exit_of_bounds w) (λ up. not_ready t w other up.1 q))
        ]

-- The exit code of `daemon start` is one of a byte, and it is 0 exactly where the executable is
-- found and the inner process starts and prints its line `ready` before anything else.
pub launch_lem :
    (exe_found : Bool) (child : Child) (secs : ℕ)
    → (exit_code (launch exe_found child secs).0 ≤ 255)
      × ((exit_code (launch exe_found child secs).0 ≡ 0) ↔ ((exe_found ≡ true) × IsUp child))
unfolding launch exit_code
launch_lem true child secs =
    let (small, up) = supervise-Tells child secs in (small, (λ e. (refl, up.0 e), λ h. up.1 h.1))
launch_lem false child secs = failing 1 (omega arith) (λ h. cc (h.0))
