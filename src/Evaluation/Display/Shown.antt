-- ===== src/Evaluation/Display/Shown.antt =====
-- src/contexts/evaluation/application/prompt/display_item.rs: every state is shown.
use merge_ready.Prelude.{
  ℕ, ◌||◌, Option, none, some, is_some, length, ◌+◌, if◌then◌else◌, ◌≡◌, arith,
}
use merge_ready.Evaluation.State.{
  BranchSyncState, CiState, ReviewState, UnblockedState, evaluate, without_blocker,
}
use merge_ready.Evaluation.Display.{
  from_state, from_blocked, sync_item, ci_item, review_item, generic_item,
}

abbrev pub count : {A : Type 0} → Option A → ℕ
count none = 0
count (some a) = 1

-- An evaluated state shows one item for each blocker, and exactly one if there is none.
pub length-from_state :
    (sync : Option BranchSyncState) (ci : Option CiState) (review : Option ReviewState)
    (u : Option UnblockedState)
    → length (from_state (evaluate sync ci review u)) ≡ (
        if is_some sync || is_some ci || is_some review
        then count sync + count ci + count review
        else 1)
unfolding from_state from_blocked sync_item ci_item review_item generic_item evaluate
    without_blocker
length-from_state sync ci review u = ground arith
