-- ===== src/Evaluation/Display.antt =====
-- src/contexts/evaluation/application: the tokens that show a state
-- (prompt.rs, prompt/display_item.rs).
pub mod Shown
use merge_ready.Prelude.{Option, none, some, List, [], ◌∷◌, ◌++◌, map}
use merge_ready.Evaluation.State.{
  BranchSyncState, CiState, ReviewState, GenericBlockedState, UnblockedState, BlockedState, State,
  blocked, unblocked, calculating, PrId, PullRequest,
}

pub data DisplayItem : Type 0 where
  conflict update_branch sync_unknown ci_fail ci_action ci_pending : DisplayItem
  changes_requested review_required ready_to_merge draft : DisplayItem
  status_calculating blocked_unknown : DisplayItem

unfoldable pub sync_item : Option BranchSyncState → List DisplayItem
sync_item none = []
sync_item (some BranchSyncState.conflict) = conflict ∷ []
sync_item (some BranchSyncState.update_branch) = update_branch ∷ []
sync_item (some BranchSyncState.sync_unknown) = sync_unknown ∷ []

unfoldable pub ci_item : Option CiState → List DisplayItem
ci_item none = []
ci_item (some CiState.fail) = ci_fail ∷ []
ci_item (some CiState.action_required) = ci_action ∷ []
ci_item (some CiState.pending) = ci_pending ∷ []

unfoldable pub review_item : Option ReviewState → List DisplayItem
review_item none = []
review_item (some ReviewState.changes_requested) = changes_requested ∷ []
review_item (some ReviewState.review_required) = review_required ∷ []

unfoldable pub generic_item : Option GenericBlockedState → List DisplayItem
generic_item none = []
generic_item (some GenericBlockedState.blocked_unknown) = blocked_unknown ∷ []

unfoldable pub from_blocked : BlockedState → List DisplayItem
unfolding sync_item ci_item review_item generic_item
from_blocked b =
    sync_item b.branch_sync ++ ci_item b.ci ++ review_item b.review ++ generic_item b.generic

unfoldable pub from_state : State → List DisplayItem
unfolding from_blocked
from_state (blocked b) = from_blocked b
from_state (unblocked UnblockedState.ready_to_merge) = ready_to_merge ∷ []
from_state (unblocked UnblockedState.draft) = draft ∷ []
from_state calculating = status_calculating ∷ []

abbrev pub item_of : PullRequest → PrId × List DisplayItem
item_of pr = (pr.id, from_state pr.state)

unfoldable pub to_display_items : List PullRequest → List (PrId × List DisplayItem)
to_display_items = map item_of
