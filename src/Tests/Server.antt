-- ===== src/Tests/Server.antt =====
-- Runs of the daemon's actor, its settings and its clients.
use merge_ready.Prelude.{
  Text, codes, Bool, true, false, Option, none, some, List, [], ◌∷◌, ◌≡◌, refl, decimal, eqb,
  if◌then◌else◌,
}
use merge_ready.Shared.{query}
use merge_ready.Daemon.Transition.Reachable.{IsValidStore}
use merge_ready.Daemon.Config.{from_env}
use merge_ready.Daemon.Handler.{Surroundings}
use merge_ready.Daemon.Actor.{
  DaemonCommand, process_request, tick, apply_rate_limit, new_state, run_actor,
}
use merge_ready.Daemon.Actor.Safety.{run_actor-IsValidStore}
use merge_ready.Daemon.RepoIds.{FileSystem, PathBuf, look_in, repo_info_from_cwd}
use merge_ready.Daemon.RepoIds.Toplevel.{repo_info_from_cwd-below}
use merge_ready.Tests.DaemonData.{at, wall, main, observation}

-- A machine with the one repository `/repo`.
abbrev pub world : Surroundings
world = record {
  now = at 60;
  now_wall = wall 60;
  repo_info_from_cwd = λ cwd. if eqb cwd (codes "/repo") then some (main, codes "main") else none;
  version = codes "1.0.0";
}

abbrev pub no_variables : Text → Option Text
no_variables key = none

abbrev commands : List DaemonCommand
commands =
    process_request world (query (codes "/repo"))
    ∷ tick (at 62) (wall 62)
    ∷ apply_rate_limit observation
    ∷ []

run_actor-IsValidStore_example :
    IsValidStore (run_actor (new_state (from_env no_variables) (at 0)) commands).0.cache_store
run_actor-IsValidStore_example = run_actor-IsValidStore (from_env no_variables) (at 0) commands

-- Every variable is `7`.
abbrev sevens : Text → Option Text
sevens key = some (decimal 7)

-- A file system with one repository, whose head is the branch `main`.
abbrev files : FileSystem
files = record {
  is_dir = is_repo_git;
  is_file = λ path. false;
  read_to_string = λ path. some (codes "ref: refs/heads/main");
}
  where
    is_repo_git : PathBuf → Bool
    is_repo_git (a ∷ b ∷ []) = true
    is_repo_git _ = false

repo_info_from_cwd-below_example :
    repo_info_from_cwd files (codes "src" ∷ codes "repo" ∷ [])
    ≡ repo_info_from_cwd files (codes "repo" ∷ [])
unfolding look_in
repo_info_from_cwd-below_example =
    repo_info_from_cwd-below files (codes "src" ∷ []) (codes "repo" ∷ []) (refl, tt)
