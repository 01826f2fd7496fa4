-- ===== src/Daemon/Actor/Safety.antt =====
-- Whatever commands arrive, the actor's store is one that the cache's transitions reach.
use merge_ready.Prelude.{ℕ, List, [], ◌∷◌, Option-cases, inl, inr, refl}
use merge_ready.Shared.{Request, query, update}
use merge_ready.Time.{Instant}
use merge_ready.Daemon.Policy.{RefreshPolicy}
use merge_ready.Daemon.Store.{CacheStore}
use merge_ready.Daemon.Transition.Reachable.{
  Reach, Step, start, next, IsValidStore, Reach-IsValidStore,
}
use merge_ready.Daemon.Config.{DaemonServerConfig}
use merge_ready.Daemon.Handler.{Surroundings, process, process_query, process_update}
use merge_ready.Daemon.Actor.{
  DaemonState, DaemonCommand, process_request, tick, apply_rate_limit, handle_command, run_actor,
  new_state,
}

process-Reach :
    (world : Surroundings) (request : Request) (store : CacheStore) (policy : RefreshPolicy)
    (started_at : Instant) (ttl : ℕ)
    → Reach store
    → Reach (process world request store policy started_at ttl).0
unfolding process process_query process_update
process-Reach world (query cwd) store policy started_at ttl r =
    elim (Option-cases (world.repo_info_from_cwd cwd)) [
      | inl missing ↦ rw (missing, process) r
      | inr ((repo_id, branch), found) ↦
          rw (found, process) (next r (Step.query _ repo_id policy refl))
    ]
process-Reach world (update repo_id text mode prs) store policy started_at ttl r =
    next r (Step.complete repo_id _ refl)
process-Reach world Request.stop store policy started_at ttl r = r
process-Reach world Request.status store policy started_at ttl r = r
process-Reach world Request.entries store policy started_at ttl r = r

handle_command-Reach :
    (state : DaemonState) (cmd : DaemonCommand)
    → Reach state.cache_store
    → Reach (handle_command state cmd).0.cache_store
unfolding handle_command
handle_command-Reach state (process_request world request) r =
    process-Reach world request state.cache_store state.config.policy state.started_at
      state.config.stale_ttl_secs r
handle_command-Reach state (tick now now_wall) r = next r (Step.tick _ refl)
handle_command-Reach state (apply_rate_limit event) r = next r (Step.observe event refl)

run_actor-Reach :
    (state : DaemonState) (commands : List DaemonCommand)
    → Reach state.cache_store
    → Reach (run_actor state commands).0.cache_store
unfolding run_actor
run_actor-Reach state [] r = r
run_actor-Reach state (cmd ∷ rest) r =
    run_actor-Reach (handle_command state cmd).0 rest (handle_command-Reach state cmd r)

-- The store of a daemon that was started with any settings, after any commands in any order, is
-- valid: one entry for each repository, and each entry with a lock exactly while it is refreshed,
-- and a bounded count.
pub run_actor-IsValidStore :
    (config : DaemonServerConfig) (now : Instant) (commands : List DaemonCommand)
    → IsValidStore (run_actor (new_state config now) commands).0.cache_store
unfolding new_state
run_actor-IsValidStore config now commands =
    Reach-IsValidStore (run_actor-Reach (new_state config now) commands start)
