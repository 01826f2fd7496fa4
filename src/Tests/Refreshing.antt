-- ===== src/Tests/Refreshing.antt =====
-- A run of a worker, and the query that follows.
use merge_ready.Prelude.{codes, eqb, ◌≡◌, refl, arith, get, Result, ok}
use merge_ready.Shared.{query, output}
use merge_ready.Daemon.Freshness.{elapsed_secs}
use merge_ready.Daemon.Policy.{effective_ttl}
use merge_ready.Daemon.Entry.{with_refresh_completed}
use merge_ready.Daemon.Handler.{Surroundings, reply, process}
use merge_ready.Evaluation.State.{Prompt, no_pull_request}
use merge_ready.Evaluation.Fetch.{RepositoryError}
use merge_ready.Evaluation.Render.{render, render_prompt}
use merge_ready.Refresh.{rendered, refresh_callback}
use merge_ready.Refresh.Shown.{refresh_shown}
use merge_ready.Tests.DaemonData.{at, wall, main, store, fetched, policy}
use merge_ready.Tests.EvaluationData.{plain_paint, display}
use merge_ready.Tests.Server.{world}

abbrev arrival : Surroundings
arrival = record world { now = at 57; now_wall = wall 57 }

abbrev prompt_result : Result RepositoryError Prompt
prompt_result = ok no_pull_request

refresh_shown_example :
    (process world
      (query (codes "/repo"))
      (process arrival
        (refresh_callback plain_paint display main prompt_result)
        store
        policy
        (at 0)
        5).0
      policy
      (at 0)
      5).1
    ≡ reply (output (rendered plain_paint display prompt_result).output)
unfolding get eqb elapsed_secs effective_ttl with_refresh_completed render render_prompt
refresh_shown_example =
    refresh_shown plain_paint display prompt_result arrival world store policy (at 0) 5 main
      (codes "/repo") (codes "main") fetched refl refl (omega arith)
