-- ===== src/Refresh/Shown.antt =====
-- What a client is shown after a worker has sent its update.
use merge_ready.Prelude.{ℕ, ◌≤◌, ◌≡◌, ◌∙◌, refl, ap, Text, some, get, Result, map}
use merge_ready.Shared.{query, output}
use merge_ready.Time.{Instant}
use merge_ready.Daemon.Entry.{CacheEntryState}
use merge_ready.Daemon.Freshness.{elapsed_secs}
use merge_ready.Daemon.Policy.{RefreshPolicy, effective_ttl}
use merge_ready.Daemon.Store.{RepoId, CacheStore, RefreshCompletedEvent}
use merge_ready.Daemon.Transition.{on_query}
use merge_ready.Daemon.Transition.Completion.{completed, complete_with, query-completed}
use merge_ready.Daemon.Handler.{
  Surroundings, reply, apply_effects, effects_to_action_result, process_query, process_update,
  process,
}
use merge_ready.Daemon.Handler.Requests.{query_event}
use merge_ready.Evaluation.State.{Prompt}
use merge_ready.Evaluation.Style.{StyleSpec}
use merge_ready.Evaluation.Config.{CompiledDisplayConfig}
use merge_ready.Evaluation.Fetch.{RepositoryError}
use merge_ready.Refresh.{to_pr_output, rendered, refresh_callback}

module _ (paint : StyleSpec → Text → Text) (config : CompiledDisplayConfig)
    (prompt_result : Result RepositoryError Prompt) where
  -- The completion that a worker's update is, where it arrives.
  abbrev pub completion : Surroundings → RefreshCompletedEvent
  completion world =
      let result = rendered paint config prompt_result in
      record {
        output = result.output;
        pr_outputs = map to_pr_output result.pr_outputs;
        refresh_mode = result.refresh_mode;
        now = world.now;
        now_wall = world.now_wall;
      }

  module _ (arrival asking : Surroundings) (store : CacheStore) (policy : RefreshPolicy)
      (started_at : Instant) (ttl : ℕ) (repo_id : RepoId) where
    process-refresh_callback :
        (process arrival
          (refresh_callback paint config repo_id prompt_result)
          store
          policy
          started_at
          ttl).0
        ≡ completed store repo_id (completion arrival)
    unfolding process process_update refresh_callback
    process-refresh_callback = refl

    query_process :
        (s : CacheStore) (cwd branch : Text)
        → asking.repo_info_from_cwd cwd ≡ some (repo_id, branch)
        → (process asking (query cwd) s policy started_at ttl).1
          ≡ effects_to_action_result
              (on_query s (query_event asking cwd branch ttl) repo_id policy).1
    unfolding process process_query
    query_process s cwd branch found = rw (found, process) refl

    -- Once a worker's update has arrived for a repository that has been asked for, a client in it is
    -- answered with the text that the worker has made of GitHub's answer, of an error too, and no
    -- new refresh is started: as long as the update is not older than the time to live.
    pub refresh_shown :
        (cwd branch : Text) (e : CacheEntryState)
        → get repo_id store.entries ≡ some e
        → asking.repo_info_from_cwd cwd ≡ some (repo_id, branch)
        → elapsed_secs arrival.now asking.now
          ≤ effective_ttl policy (complete_with (completion arrival) e) ttl
        → (process asking
            (query cwd)
            (process arrival
              (refresh_callback paint config repo_id prompt_result)
              store
              policy
              started_at
              ttl).0
            policy
            started_at
            ttl).1
          ≡ reply (output (rendered paint config prompt_result).output)
    unfolding effects_to_action_result apply_effects
    refresh_shown cwd branch e known found young =
        ap (λ s. (process asking (query cwd) s policy started_at ttl).1) process-refresh_callback
        ∙ query_process (completed store repo_id (completion arrival)) cwd branch found
        ∙ ap effects_to_action_result (
            query-completed store repo_id (completion arrival) (query_event asking cwd branch ttl)
              policy e known young)
