-- ===== src/Evaluation/Fetch/Arrival.antt =====
-- `fetch_prompt`: the order in which the concurrent evaluations end has no effect.
use merge_ready.Prelude.{
  ℕ, suc, ◌≤◌, ◌<◌, Text, true, Option, some, List, [], ◌∷◌, map, All, Result, ok, collect, ◌>>=◌,
  sort_by_key, sort-perm, sort_of_sorted, IsSorted, HasDistinctIds, Permᴰ, ◌≡◌, refl, sym, ap, ◌∙◌,
  arith, filter, ◌≢◌,
}
use merge_ready.Evaluation.State.{pull_requests}
use merge_ready.Evaluation.Gh.{GhPrNode, evaluate_single_pr}
use merge_ready.Evaluation.Fetch.{
  GhError, Repository, Evaluated, Tasks, index, outcome, is_open, number, unwrap_or_empty,
  evaluate_all, prompt_of, join_all, prompt_of_open, prompt_of_all, prompt_of_answer, fetch_prompt,
}

module _ (fetch_behind_by : Text → Text → Option ℕ) where
  late :
      (bound idx : ℕ) (prs : List GhPrNode)
      → bound < idx
      → All (λ t. bound < index t) (evaluate_all fetch_behind_by idx prs)
  unfolding evaluate_all
  late bound idx [] h = tt
  late bound idx (p ∷ prs) h = (h, late bound (suc idx) prs (omega (arith, h)))

  sorted_of_late :
      (bound : ℕ) (l : List (ℕ × Evaluated))
      → All (λ t. bound < index t) l
      → All (λ t. bound ≤ index t) l
  sorted_of_late bound [] h = tt
  sorted_of_late bound (t ∷ l) h = (omega (arith, h.0), sorted_of_late bound l h.1)

  distinct_of_late :
      (bound : ℕ) (l : List (ℕ × Evaluated))
      → All (λ t. bound < index t) l
      → All (λ t. bound ≢ index t) l
  distinct_of_late bound [] h = tt
  distinct_of_late bound (t ∷ l) h = ((λ e. omega (arith, h.0, e)), distinct_of_late bound l h.1)

  evaluate_all-IsSorted :
      (idx : ℕ) (prs : List GhPrNode) → IsSorted index (evaluate_all fetch_behind_by idx prs)
  unfolding evaluate_all
  evaluate_all-IsSorted idx [] = tt
  evaluate_all-IsSorted idx (p ∷ prs) = (
    sorted_of_late idx _ (late idx (suc idx) prs (omega arith)),
    evaluate_all-IsSorted (suc idx) prs,
  )

  evaluate_all-HasDistinctIds :
      (idx : ℕ) (prs : List GhPrNode) → HasDistinctIds index (evaluate_all fetch_behind_by idx prs)
  unfolding evaluate_all
  evaluate_all-HasDistinctIds idx [] = tt
  evaluate_all-HasDistinctIds idx (p ∷ prs) = (
    distinct_of_late idx _ (late idx (suc idx) prs (omega arith)),
    evaluate_all-HasDistinctIds (suc idx) prs,
  )

  collect-evaluate_all :
      (idx : ℕ) (prs : List GhPrNode)
      → collect (map outcome (evaluate_all fetch_behind_by idx prs))
        ≡ ok (map (evaluate_single_pr fetch_behind_by) prs)
  unfolding evaluate_all collect
  collect-evaluate_all idx [] = refl
  collect-evaluate_all idx (p ∷ prs) =
      ap (λ r. r >>= (λ rs. ok (evaluate_single_pr fetch_behind_by p ∷ rs)))
        (collect-evaluate_all (suc idx) prs)

module _ (tasks : Tasks) (complete : (l : List (ℕ × Evaluated)) → Permᴰ l (tasks.arrive l)) where
  sorted_arrival :
      (prs : List GhPrNode)
      → sort_by_key index (tasks.arrive (evaluate_all tasks.fetch_behind_by 0 prs))
        ≡ evaluate_all tasks.fetch_behind_by 0 prs
  sorted_arrival prs =
      sym (
        sort-perm index (complete (evaluate_all tasks.fetch_behind_by 0 prs))
          (evaluate_all-HasDistinctIds tasks.fetch_behind_by 0 prs))
      ∙ sort_of_sorted index _ (evaluate_all-IsSorted tasks.fetch_behind_by 0 prs)

  in_order :
      (prs : List GhPrNode)
      → prompt_of_open tasks prs
        ≡ ok (pull_requests (map (evaluate_single_pr tasks.fetch_behind_by) prs))
  unfolding prompt_of_open join_all
  in_order [] = refl
  in_order (p ∷ prs) =
      ap (λ l. prompt_of (collect (map outcome l))) (sorted_arrival (p ∷ prs))
      ∙ ap prompt_of (collect-evaluate_all tasks.fetch_behind_by 0 (p ∷ prs))

  -- If the set of tasks gives back the results that it was given, in any order, then the prompt of
  -- a repository with a pull request is the verdicts on the open ones in the order of their
  -- numbers, each as it is evaluated on its own.
  pub fetch_prompt-in_order :
      (branch : Option Text) (fetch_repository : Text → Result GhError (Option Repository))
      (default_ref : Option Text) (p : GhPrNode) (rest : List GhPrNode)
      → fetch_repository (unwrap_or_empty branch)
        ≡ ok (some (record { default_branch_ref = default_ref; pull_requests = p ∷ rest }))
      → fetch_prompt tasks true branch fetch_repository
        ≡ ok (
            pull_requests (
              map
                (evaluate_single_pr tasks.fetch_behind_by)
                (sort_by_key number (filter is_open (p ∷ rest)))))
  unfolding fetch_prompt prompt_of_answer prompt_of_all
  fetch_prompt-in_order branch fetch_repository default_ref p rest answered =
      ap (prompt_of_answer tasks (unwrap_or_empty branch)) answered
      ∙ in_order (sort_by_key number (filter is_open (p ∷ rest)))
