-- ===== src/Evaluation/State.antt =====
-- src/contexts/evaluation/domain/prompt: the state of a branch's pull requests
-- (prompt.rs, pull_request.rs, id.rs, state.rs, state/blocked.rs, state/unblocked.rs).
-- The constructor `MergeReady` is `ready_to_merge` here, since the library has its name.
use merge_ready.Prelude.{
  ℕ, Bool, false, ◌||◌, Option, none, some, List, is_empty, is_some, if◌then◌else◌,
}

pub data BranchSyncState : Type 0 where
  conflict update_branch sync_unknown : BranchSyncState

pub data CiState : Type 0 where
  fail action_required pending : CiState

pub data ReviewState : Type 0 where
  changes_requested review_required : ReviewState

pub data GenericBlockedState : Type 0 where
  blocked_unknown : GenericBlockedState

pub record BlockedState : Type 0 where
  pub branch_sync : Option BranchSyncState
  pub ci : Option CiState
  pub review : Option ReviewState
  pub generic : Option GenericBlockedState

pub data UnblockedState : Type 0 where
  ready_to_merge draft : UnblockedState

pub data State : Type 0 where
  blocked : BlockedState → State
  unblocked : UnblockedState → State
  calculating : State

unfoldable pub without_blocker : Option UnblockedState → State
without_blocker (some u) = unblocked u
without_blocker none =
    blocked
      (record { branch_sync = none; ci = none; review = none; generic = some blocked_unknown })

unfoldable pub evaluate :
    Option BranchSyncState → Option CiState → Option ReviewState → Option UnblockedState → State
unfolding without_blocker
evaluate branch_sync ci review unblocked_state =
    if is_some branch_sync || is_some ci || is_some review
    then blocked (record { branch_sync = branch_sync; ci = ci; review = review; generic = none })
    else without_blocker unblocked_state

abbrev pub PrId : Type 0
PrId = ℕ

pub record PullRequest : Type 0 where
  pub id : PrId
  pub state : State

pub data Prompt : Type 0 where
  no_repository unsupported_repository default_branch no_pull_request : Prompt
  pull_requests : List PullRequest → Prompt

-- Every pull request is merged or closed: polling may stop.
unfoldable pub is_terminal : Prompt → Bool
is_terminal (pull_requests prs) = is_empty prs
is_terminal _ = false
