-- ===== src/Evaluation/Gh.antt =====
-- src/contexts/evaluation/infrastructure/gh: what GitHub's answer says of a pull request
-- (gh.rs, gh/schema.rs, gh/mapper.rs, gh/error.rs).
pub mod Newest
pub mod Verdict
use merge_ready.Prelude.{
  ℕ, Text, codes, eqb, Bool, true, false, not, ◌&&◌, ◌||◌, Option, none, some, List, [], ◌∷◌, map,
  any, is_some, is_empty, if◌then◌else◌, ◌==◌, leb, ltb, HashMap, get, insert, values,
}
use merge_ready.Evaluation.State.{
  BranchSyncState, CiState, ReviewState, UnblockedState, State, PullRequest, evaluate, calculating,
}

-- One entry of a commit's check rollup; times are ISO 8601 texts.
pub data CheckContext : Type 0 where
  check_run : Text → Text → Option Text → Option Text → CheckContext
  status_context : Text → Text → Option Text → CheckContext
  unknown : CheckContext

pub data CheckBucket : Type 0 where
  fail cancel action_required pending other : CheckBucket

unfoldable pub name : CheckContext → Option Text
name (check_run n status conclusion started_at) = some n
name (status_context n state created_at) = some n
name unknown = none

abbrev unwrap_or_empty : Option Text → Text
unwrap_or_empty none = []
unwrap_or_empty (some t) = t

unfoldable pub recency : CheckContext → Text
recency (check_run n status conclusion started_at) = unwrap_or_empty started_at
recency (status_context n state created_at) = unwrap_or_empty created_at
recency unknown = []

conclusion_bucket : Option Text → CheckBucket
conclusion_bucket none = other
conclusion_bucket (some c) =
    if eqb c (codes "ACTION_REQUIRED")
    then action_required
    else if eqb c (codes "CANCELLED")
    then cancel
    else if eqb c (codes "FAILURE") || eqb c (codes "TIMED_OUT") || eqb c (codes "STARTUP_FAILURE")
    then fail
    else other

unfoldable pub context_to_bucket : CheckContext → CheckBucket
unfolding conclusion_bucket
context_to_bucket (check_run n status conclusion started_at) =
    if not (eqb status (codes "COMPLETED")) then pending else conclusion_bucket conclusion
context_to_bucket (status_context n state created_at) =
    if eqb state (codes "PENDING") || eqb state (codes "EXPECTED")
    then pending
    else if eqb state (codes "ERROR") || eqb state (codes "FAILURE")
    then fail
    else other
context_to_bucket unknown = other

-- `GhPrNode`, with `commits.nodes.first()` and its rollup flattened to the list of its contexts.
pub record GhPrNode : Type 0 where
  pub number : ℕ
  pub state : Text
  pub is_draft : Bool
  pub mergeable : Text
  pub merge_state_status : Text
  pub review_decision : Option Text
  pub base_ref_name : Text
  pub head_ref_name : Text
  pub commits : List (Option (List CheckContext))

unfoldable pub translate_sync : Text → Option ℕ → Option BranchSyncState
translate_sync mergeable behind_by =
    if eqb mergeable (codes "CONFLICTING") then some BranchSyncState.conflict else elim behind_by [
      | none ↦ some BranchSyncState.sync_unknown
      | some n ↦ if n == 0 then none else some BranchSyncState.update_branch
    ]

unfoldable pub needs_compare : Text → Bool
needs_compare mergeable = not (eqb mergeable (codes "CONFLICTING"))

unfoldable pub translate_review : Option Text → Option ReviewState
translate_review none = none
translate_review (some d) =
    if eqb d (codes "CHANGES_REQUESTED")
    then some ReviewState.changes_requested
    else if eqb d (codes "REVIEW_REQUIRED")
    then some ReviewState.review_required
    else none

unfoldable pub translate_unblocked : Bool → Text → Option UnblockedState
translate_unblocked is_draft merge_state_status =
    if is_draft
    then some UnblockedState.draft
    else if eqb merge_state_status (codes "CLEAN") || eqb merge_state_status (codes "HAS_HOOKS")
    then some UnblockedState.ready_to_merge
    else none

abbrev pub is_failure : CheckBucket → Bool
is_failure fail = true
is_failure cancel = true
is_failure _ = false

abbrev pub is_action : CheckBucket → Bool
is_action action_required = true
is_action _ = false

abbrev pub is_pending : CheckBucket → Bool
is_pending pending = true
is_pending _ = false

unfoldable pub aggregate_ci : List CheckBucket → Option CiState
aggregate_ci buckets =
    if any is_failure buckets
    then some CiState.fail
    else if any is_action buckets
    then some CiState.action_required
    else if any is_pending buckets
    then some CiState.pending
    else none

-- `prev >= ctx` on texts: bytes, lexicographically.
unfoldable pub text_leb : Text → Text → Bool
text_leb [] t = true
text_leb (_ ∷ _) [] = false
text_leb (a ∷ s) (b ∷ t) = let rest = text_leb s t in ltb a b || (a == b && rest)

-- `node.commits.nodes.first()` and its rollup, the empty list if either is missing.
abbrev contexts_of : List (Option (List CheckContext)) → List CheckContext
contexts_of [] = []
contexts_of (none ∷ rest) = []
contexts_of (some contexts ∷ rest) = contexts

-- One round of the loop: keep the newest run of each name.
keep_newest :
    CheckContext → Text → Option CheckContext → HashMap CheckContext → HashMap CheckContext
keep_newest ctx n none latest = insert n ctx latest
keep_newest ctx n (some prev) latest =
    if text_leb (recency ctx) (recency prev) then latest else insert n ctx latest

keep_named : CheckContext → Option Text → HashMap CheckContext → HashMap CheckContext
unfolding keep_newest
keep_named ctx none latest = latest
keep_named ctx (some n) latest = keep_newest ctx n (get n latest) latest

unfoldable pub latest_runs : HashMap CheckContext → List CheckContext → HashMap CheckContext
unfolding keep_named
latest_runs latest [] = latest
latest_runs latest (ctx ∷ rest) = latest_runs (keep_named ctx (name ctx) latest) rest

unfoldable pub ci_from_node : GhPrNode → Option CiState
ci_from_node node =
    aggregate_ci (map context_to_bucket (values (latest_runs [] (contexts_of node.commits))))

-- `evaluate_single_pr`: `behind_by` is what the compare call answers for the two branches, if it
-- is made.
unfoldable pub evaluate_single_pr : (Text → Text → Option ℕ) → GhPrNode → PullRequest
evaluate_single_pr fetch_behind_by node =
    if eqb node.merge_state_status (codes "MERGE_STATE_UNKNOWN")
      || eqb node.merge_state_status (codes "UNKNOWN")
    then record { id = node.number; state = calculating }
    else (let behind_by =
          if needs_compare node.mergeable
          then fetch_behind_by node.base_ref_name node.head_ref_name
          else none in
        record {
          id = node.number;
          state =
              evaluate (translate_sync node.mergeable behind_by) (ci_from_node node)
                (translate_review node.review_decision)
                (translate_unblocked node.is_draft node.merge_state_status);
        })
