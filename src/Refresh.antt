-- ===== src/Refresh.antt =====
-- src/lib.rs (refresh_callback): what a worker of the daemon does, from GitHub's answer on the pull
-- requests of a branch to the update that it sends to the daemon.
pub mod Shown
use merge_ready.Prelude.{ℕ, Text, List, map, Result, map_err}
use merge_ready.Shared.{RefreshMode, PrOutput, Request, update}
use merge_ready.Daemon.Store.{RepoId}
use merge_ready.Evaluation.State.{PrId, Prompt}
use merge_ready.Evaluation.Style.{StyleSpec}
use merge_ready.Evaluation.Config.{CompiledDisplayConfig}
use merge_ready.Evaluation.Fetch.{RepositoryError, into_token}
use merge_ready.Evaluation.Render.{RenderResult, render}

abbrev to_pr_output : PrId × Text → PrOutput
to_pr_output (pr_id, output) = record { pr_id = pr_id; output = output }

abbrev pub rendered :
    (StyleSpec → Text → Text) → CompiledDisplayConfig → Result RepositoryError Prompt → RenderResult
rendered paint config prompt_result = render paint config (map_err into_token prompt_result)

-- `refresh_callback`, from the result of `fetch_prompt` and the configuration that is loaded; the
-- request is what it sends. The line that it may write to the log is left out.
unfoldable pub refresh_callback :
    (StyleSpec → Text → Text)
    → CompiledDisplayConfig
    → RepoId
    → Result RepositoryError Prompt
    → Request
refresh_callback paint config repo_id prompt_result =
    let result = rendered paint config prompt_result in
    update repo_id result.output result.refresh_mode (map to_pr_output result.pr_outputs)
