-- ===== src/Evaluation/Render/Order.antt =====
-- src/contexts/evaluation/interface/prompt.rs, render and render_pull_requests: what the order in
-- which pull requests arrive, and their states, do to the prompt and to the pace of its refresh.
use merge_ready.Prelude.{
  Text, Bool, true, false, ◌||◌, some, List, [], ◌∷◌, any, is_empty, if◌then◌else◌, ok, ◌≡◌, refl,
  ap, ◌∙◌, arith, Permᴰ, HasDistinctIds, IsFresh, sort_by_key, sort-perm, any-sort,
}
use merge_ready.Shared.{RefreshMode, hot, warm, terminal}
use merge_ready.Evaluation.State.{
  State, blocked, unblocked, calculating, CiState, PrId, PullRequest, pull_requests, is_terminal,
}
use merge_ready.Evaluation.Display.{
  from_state, from_blocked, sync_item, ci_item, review_item, generic_item, item_of,
  to_display_items,
}
use merge_ready.Evaluation.Style.{StyleSpec}
use merge_ready.Evaluation.Config.{CompiledDisplayConfig}
use merge_ready.Evaluation.Render.{
  has_progress, is_in_progress, pr_key, render, render_prompt, render_items,
}

abbrev pub pr_id : PullRequest → PrId
pr_id pr = pr.id

-- Work of GitHub's that a pull request waits for.
pub awaits_github : State → Bool
awaits_github calculating = true
awaits_github (blocked b) = elim b.ci [ some CiState.pending ↦ true | _ ↦ false ]
awaits_github (unblocked u) = false

-- The pace the prompt asks for.
pub pace : List PullRequest → RefreshMode
unfolding awaits_github
pace [] = terminal
pace (pr ∷ prs) = if any (λ p. awaits_github p.state) (pr ∷ prs) then hot else warm

any-from_state : (s : State) → any is_in_progress (from_state s) ≡ awaits_github s
unfolding from_state from_blocked sync_item ci_item review_item generic_item awaits_github
any-from_state s = ground arith

any-to_display_items :
    (prs : List PullRequest)
    → any has_progress (to_display_items prs) ≡ any (λ p. awaits_github p.state) prs
unfolding to_display_items
any-to_display_items [] = refl
any-to_display_items (pr ∷ prs) = λ i. any-from_state pr.state i || any-to_display_items prs i

Permᴰ-to_display_items :
    {prs qs : List PullRequest} → Permᴰ prs qs → Permᴰ (to_display_items prs) (to_display_items qs)
unfolding to_display_items
Permᴰ-to_display_items Permᴰ.nil = Permᴰ.nil
Permᴰ-to_display_items (Permᴰ.cons e p) = Permᴰ.cons (ap item_of e) (Permᴰ-to_display_items p)
Permᴰ-to_display_items (Permᴰ.swap e f) = Permᴰ.swap (ap item_of e) (ap item_of f)
Permᴰ-to_display_items (Permᴰ.trans p q) =
    Permᴰ.trans (Permᴰ-to_display_items p) (Permᴰ-to_display_items q)

IsFresh-to_display_items :
    (pr : PullRequest) (prs : List PullRequest)
    → IsFresh pr_id pr prs
    → IsFresh pr_key (item_of pr) (to_display_items prs)
unfolding to_display_items
IsFresh-to_display_items pr [] h = tt
IsFresh-to_display_items pr (q ∷ prs) h = (h.0, IsFresh-to_display_items pr prs h.1)

HasDistinctIds-to_display_items :
    (prs : List PullRequest)
    → HasDistinctIds pr_id prs
    → HasDistinctIds pr_key (to_display_items prs)
unfolding to_display_items
HasDistinctIds-to_display_items [] h = tt
HasDistinctIds-to_display_items (pr ∷ prs) h =
    (IsFresh-to_display_items pr prs h.0, HasDistinctIds-to_display_items prs h.1)

is_empty-perm : {prs qs : List PullRequest} → Permᴰ prs qs → is_empty prs ≡ is_empty qs
is_empty-perm Permᴰ.nil = refl
is_empty-perm (Permᴰ.cons e p) = refl
is_empty-perm (Permᴰ.swap e f) = refl
is_empty-perm (Permᴰ.trans p q) = is_empty-perm p ∙ is_empty-perm q

module _ (paint : StyleSpec → Text → Text) (config : CompiledDisplayConfig) where
  by_sort :
      {prs qs : List PullRequest}
      → Permᴰ prs qs
      → HasDistinctIds pr_id prs
      → sort_by_key pr_key (to_display_items prs) ≡ sort_by_key pr_key (to_display_items qs)
  by_sort {prs = prs} p h =
      sort-perm pr_key (Permᴰ-to_display_items p) (HasDistinctIds-to_display_items prs h)

  -- For pull requests with distinct ids, the rendered prompt, its refresh mode and the lines for
  -- `watch` do not depend on the order in which the pull requests arrive.
  pub render-perm :
      {prs qs : List PullRequest}
      → Permᴰ prs qs
      → HasDistinctIds pr_id prs
      → render paint config (ok (pull_requests prs)) ≡ render paint config (ok (pull_requests qs))
  unfolding render render_prompt is_terminal
  render-perm p h = λ i.
      if is_empty-perm p i
      then record { output = []; refresh_mode = terminal; pr_outputs = [] }
      else render_items paint config (by_sort p h i)

  -- The refresh mode of rendered pull requests: terminal if there is none, hot if one of them is
  -- calculated by GitHub or blocked with its checks pending, and warm otherwise.
  pub refresh_mode-render :
      (prs : List PullRequest)
      → (render paint config (ok (pull_requests prs))).refresh_mode ≡ pace prs
  unfolding render render_prompt is_terminal render_items pace
  refresh_mode-render [] = refl
  refresh_mode-render (pr ∷ prs) =
      ap (λ t. if t then hot else warm)
        (any-sort pr_key has_progress (to_display_items (pr ∷ prs))
          ∙ any-to_display_items (pr ∷ prs))
