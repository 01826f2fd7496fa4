-- ===== src/Tests/EvaluationData.antt =====
-- Pull requests, a display configuration and a way to paint, for the runs of the evaluation.
use merge_ready.Prelude.{ℕ, Text, codes, false, Option, none, some, List, [], ◌∷◌}
use merge_ready.Evaluation.State.{CiState, UnblockedState, blocked, unblocked, PullRequest}
use merge_ready.Evaluation.Gh.{CheckContext, check_run, unknown, GhPrNode}
use merge_ready.Evaluation.Style.{StyleSpec}
use merge_ready.Evaluation.Token.{CompiledSegment, CompiledSegments}
use merge_ready.Evaluation.Config.{CompiledTokenConfig, CompiledDisplayConfig}

abbrev pub plain_paint : StyleSpec → Text → Text
plain_paint style t = t

abbrev pub pending_pr : PullRequest
pending_pr = record {
  id = 7;
  state =
      blocked
        (record { branch_sync = none; ci = some CiState.pending; review = none; generic = none });
}

abbrev pub ready_pr : PullRequest
ready_pr = record { id = 3; state = unblocked UnblockedState.ready_to_merge }

-- A failed run and its successful repetition, and a run of another name.
abbrev pub old_run : CheckContext
old_run =
    check_run (codes "build") (codes "COMPLETED") (some (codes "FAILURE"))
      (some (codes "2024-01-01T00:00:00Z"))

abbrev pub new_run : CheckContext
new_run =
    check_run (codes "build") (codes "COMPLETED") (some (codes "SUCCESS"))
      (some (codes "2024-01-02T00:00:00Z"))

abbrev pub runs : List CheckContext
runs = old_run ∷ new_run ∷ unknown ∷ []

abbrev pub node : GhPrNode
node = record {
  number = 12;
  state = codes "OPEN";
  is_draft = false;
  mergeable = codes "MERGEABLE";
  merge_state_status = codes "CLEAN";
  review_decision = some (codes "APPROVED");
  base_ref_name = codes "main";
  head_ref_name = codes "feature";
  commits = some runs ∷ [];
}

abbrev pub closed_node : GhPrNode
closed_node = record node { number = 11; state = codes "MERGED" }

abbrev pub up_to_date : Text → Text → Option ℕ
up_to_date base head = some 0

abbrev pub token : Text → CompiledTokenConfig
token symbol = record {
  symbol = symbol;
  label = [];
  segments = CompiledSegments.cons (CompiledSegment.text (codes "$symbol")) (
      CompiledSegments.cons
        (CompiledSegment.conditional
          (CompiledSegments.cons (CompiledSegment.text (codes " $pr_ids")) CompiledSegments.nil))
        CompiledSegments.nil);
}

abbrev pub display : CompiledDisplayConfig
display = record {
  ready_to_merge = token (codes "ready");
  no_pull_request = token (codes "none");
  conflict = token (codes "conflict");
  update_branch = token (codes "behind");
  sync_unknown = token (codes "sync?");
  ci_fail = token (codes "fail");
  ci_action = token (codes "action");
  ci_pending = token (codes "wait");
  changes_requested = token (codes "changes");
  review_required = token (codes "review");
  draft = token (codes "draft");
  status_calculating = token (codes "status");
  blocked_unknown = token (codes "blocked");
  error = record { symbol = codes "x"; segments = CompiledSegments.nil };
}
