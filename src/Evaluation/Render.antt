-- ===== src/Evaluation/Render.antt =====
-- src/contexts/evaluation/interface/prompt.rs: what is shown for the pull requests of a branch.
pub mod Grouping
pub mod Order
use merge_ready.Prelude.{
  ℕ, zero, suc, ◌+◌, ◌/◌, ◌%◌, Text, codes, Bool, true, false, ◌||◌, Option, none, some, List, [],
  ◌∷◌, ◌++◌, map, any, length, ltb, decimal, if◌then◌else◌, Result, ok, err, sort_by_key,
}
use merge_ready.Shared.{RefreshMode, hot, warm, terminal}
use merge_ready.Evaluation.State.{
  PrId, PullRequest, Prompt, no_repository, unsupported_repository, default_branch, no_pull_request,
  pull_requests, is_terminal,
}
use merge_ready.Evaluation.Display.{DisplayItem, ci_pending, status_calculating, to_display_items}
use merge_ready.Evaluation.Style.{StyleSpec}
use merge_ready.Evaluation.Config.{
  CompiledDisplayConfig, render_token, render_error_token, item_to_token,
}

pub record RenderResult : Type 0 where
  pub output : Text
  pub refresh_mode : RefreshMode
  pub pr_outputs : List (PrId × Text)

pub DisplayItem-discrete : Discrete DisplayItem
DisplayItem-discrete = hlevel

-- `==` on display items
unfoldable pub same_item : DisplayItem → DisplayItem → Bool
same_item a b = elim (DisplayItem-discrete a b) [ yes _ ↦ true | no _ ↦ false ]

abbrev pub Items : Type 0
Items = List (PrId × List DisplayItem)

abbrev pub Groups : Type 0
Groups = List (DisplayItem × List PrId)

-- One round of the inner loop: the id goes to the group of its item, or begins one.
unfoldable pub add_to_group : DisplayItem → PrId → Groups → Groups
add_to_group item pr_id [] = (item, pr_id ∷ []) ∷ []
add_to_group item pr_id ((d, ids) ∷ groups) =
    if same_item d item
    then (d, ids ++ pr_id ∷ []) ∷ groups
    else (d, ids) ∷ add_to_group item pr_id groups

unfoldable pub add_all : PrId → List DisplayItem → Groups → Groups
add_all pr_id [] groups = groups
add_all pr_id (item ∷ items) groups = add_all pr_id items (add_to_group item pr_id groups)

unfoldable pub group_loop : Items → Groups → Groups
group_loop [] groups = groups
group_loop ((pr_id, items) ∷ rest) groups = group_loop rest (add_all pr_id items groups)

unfoldable pub group_by_display_item : Items → Groups
group_by_display_item items = group_loop items []

-- `join(" ")`
unfoldable pub join_spaces : List Text → Text
join_spaces [] = []
join_spaces (t ∷ []) = t
join_spaces (t ∷ u ∷ rest) = t ++ (b' ' ∷ join_spaces (u ∷ rest))

unfoldable pub join_pr_ids : List PrId → Text
join_pr_ids ids = join_spaces (map (λ id. b'#' ∷ decimal id) ids)

-- The items for which polling is quick.
abbrev pub is_in_progress : DisplayItem → Bool
is_in_progress ci_pending = true
is_in_progress status_calculating = true
is_in_progress _ = false

abbrev pub has_progress : PrId × List DisplayItem → Bool
has_progress (pr_id, items) = any is_in_progress items

abbrev pub pr_key : PrId × List DisplayItem → PrId
pr_key (pr_id, items) = pr_id

module _ (paint : StyleSpec → Text → Text) (config : CompiledDisplayConfig) where
  unfoldable pub render_watch_items : List DisplayItem → Text
  render_watch_items items =
      join_spaces (map (λ item. render_token paint (item_to_token item config) (some [])) items)

  unfoldable pub render_group : Bool → DisplayItem × List PrId → Text
  render_group multiple (item, ids) =
      render_token paint (item_to_token item config)
        (some (if multiple then join_pr_ids ids else []))

  abbrev watch_line : PrId × List DisplayItem → PrId × Text
  watch_line (pr_id, items) = (pr_id, render_watch_items items)

  -- The arm of `render` for pull requests, on the sorted items.
  unfoldable pub render_items : Items → RenderResult
  render_items items = record {
    output = join_spaces (map (render_group (ltb 1 (length items))) (group_by_display_item items));
    refresh_mode = if any has_progress items then hot else warm;
    pr_outputs = map watch_line items;
  }

  unfoldable pub render_prompt : Prompt → RenderResult
  render_prompt no_repository = record { output = []; refresh_mode = warm; pr_outputs = [] }
  render_prompt unsupported_repository = record {
    output = [];
    refresh_mode = warm;
    pr_outputs = [];
  }
  render_prompt default_branch = record { output = []; refresh_mode = warm; pr_outputs = [] }
  render_prompt no_pull_request = record {
    output = render_token paint config.no_pull_request none;
    refresh_mode = warm;
    pr_outputs = [];
  }
  render_prompt (pull_requests prs) =
      if is_terminal (pull_requests prs)
      then record { output = []; refresh_mode = terminal; pr_outputs = [] }
      else render_items (sort_by_key pr_key (to_display_items prs))

  -- `render`; an error is its message.
  unfoldable pub render : Result Text Prompt → RenderResult
  render (ok prompt) = render_prompt prompt
  render (err message) = record {
    output = render_error_token paint config.error message;
    refresh_mode = warm;
    pr_outputs = [];
  }
