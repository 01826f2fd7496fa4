-- ===== src/Daemon/Files/Names.antt =====
-- The names of the daemon's files differ, and a file is changed by its name only.
use merge_ready.Prelude.{
  Text, codes, eqb, eqb_refl, false, none, some, [], ◌∷◌, ◌++◌, ◌≡◌, refl, arith,
}
use merge_ready.Daemon.Files.{Files, write_file, remove_file, socket_path, pid_path, lock_path}

pub eqb-append : (p s t : Text) → eqb (p ++ s) (p ++ t) ≡ eqb s t
unfolding eqb
eqb-append [] s t = refl
eqb-append (c ∷ p) s t = ground (arith, eqb-append p s t)

pub socket-ne-pid : (version : Text) → eqb (socket_path version) (pid_path version) ≡ false
unfolding socket_path pid_path eqb
socket-ne-pid version = eqb-append version (codes ".sock") (codes ".pid")

pub pid-ne-socket : (version : Text) → eqb (pid_path version) (socket_path version) ≡ false
unfolding socket_path pid_path eqb
pid-ne-socket version = eqb-append version (codes ".pid") (codes ".sock")

-- The name of the lock goes on with a dot where the others have a dash.
pub lock-ne-pid : (version : Text) → eqb lock_path (pid_path version) ≡ false
unfolding pid_path eqb
lock-ne-pid version = refl

pub lock-ne-socket : (version : Text) → eqb lock_path (socket_path version) ≡ false
unfolding socket_path eqb
lock-ne-socket version = refl

pub get-write_self : (n content : Text) (fs : Files) → write_file n content fs n ≡ some content
unfolding write_file
get-write_self n content fs = ground (arith, eqb_refl n)

pub get-write_ne :
    (n m content : Text) (fs : Files) → eqb n m ≡ false → write_file n content fs m ≡ fs m
unfolding write_file
get-write_ne n m content fs h = ground arith

pub get-remove_self : (n : Text) (fs : Files) → remove_file n fs n ≡ none
unfolding remove_file
get-remove_self n fs = ground (arith, eqb_refl n)

pub get-remove_ne : (n m : Text) (fs : Files) → eqb n m ≡ false → remove_file n fs m ≡ fs m
unfolding remove_file
get-remove_ne n m fs h = ground arith

pub ruleset file_laws = (
  socket-ne-pid, pid-ne-socket, lock-ne-pid, lock-ne-socket, get-write_self, get-write_ne,
  get-remove_self, get-remove_ne,
)
