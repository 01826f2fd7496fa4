-- ===== src/Tests/Verdicts.antt =====
-- Runs of the evaluation of pull requests.
use merge_ready.Prelude.{
  ℕ, ◌<◌, Text, codes, true, Option, none, some, List, [], ◌∷◌, map, All, Permᴰ, Result, ok, ◌≡◌,
  refl, ◌↔◌, arith, get, sort_by_key, filter, starts_with, contains, pos,
}
use merge_ready.Evaluation.State.{UnblockedState, unblocked, pull_requests}
use merge_ready.Evaluation.Gh.{evaluate_single_pr, latest_runs}
use merge_ready.Evaluation.Gh.Verdict.{ready_iff, is_mergeable}
use merge_ready.Evaluation.Gh.Newest.{IsNewest, latest_runs-IsNewest}
use merge_ready.Evaluation.Fetch.{
  GhError, Repository, Evaluated, Tasks, number, is_open, fetch_prompt, classify_gh_error,
}
use merge_ready.Evaluation.Fetch.Arrival.{fetch_prompt-in_order}
use merge_ready.Evaluation.CompareUrl.{
  encode_path_segment, build_compare_path, is_unreserved, hex_upper,
}
use merge_ready.Evaluation.CompareUrl.Encoding.{decode, decode-encode_path_segment}
use merge_ready.Tests.EvaluationData.{runs, node, closed_node, up_to_date}

ready_iff_example :
    (evaluate_single_pr up_to_date node).state ≡ unblocked UnblockedState.ready_to_merge
    ↔ is_mergeable up_to_date node ≡ true
ready_iff_example = ready_iff up_to_date node

latest_runs-IsNewest_example :
    IsNewest (codes "build") runs (get (codes "build") (latest_runs [] runs))
latest_runs-IsNewest_example = latest_runs-IsNewest runs (codes "build")

-- Two tasks end in the opposite order.
swap_first : List (ℕ × Evaluated) → List (ℕ × Evaluated)
swap_first [] = []
swap_first (a ∷ []) = a ∷ []
swap_first (a ∷ b ∷ rest) = b ∷ a ∷ rest

Permᴰ_refl : (l : List (ℕ × Evaluated)) → Permᴰ l l
Permᴰ_refl [] = Permᴰ.nil
Permᴰ_refl (a ∷ l) = Permᴰ.cons refl (Permᴰ_refl l)

Permᴰ-swap_first : (l : List (ℕ × Evaluated)) → Permᴰ l (swap_first l)
unfolding swap_first
Permᴰ-swap_first [] = Permᴰ.nil
Permᴰ-swap_first (a ∷ []) = Permᴰ_refl (a ∷ [])
Permᴰ-swap_first (a ∷ b ∷ rest) = Permᴰ.swap refl refl

abbrev tasks : Tasks
tasks = record { fetch_behind_by = up_to_date; arrive = swap_first }

abbrev repository : Text → Result GhError (Option Repository)
repository branch =
    ok (some (record { default_branch_ref = none; pull_requests = node ∷ closed_node ∷ [] }))

fetch_prompt-in_order_example :
    fetch_prompt tasks true (some (codes "feature")) repository
    ≡ ok (
        pull_requests (
          map
            (evaluate_single_pr up_to_date)
            (sort_by_key number (filter is_open (node ∷ closed_node ∷ [])))))
fetch_prompt-in_order_example =
    fetch_prompt-in_order tasks Permᴰ-swap_first (some (codes "feature")) repository none node
      (closed_node ∷ []) refl

decode-encode_path_segment_example :
    decode (encode_path_segment (codes "fix/a b")) ≡ codes "fix/a b"
decode-encode_path_segment_example = decode-encode_path_segment (codes "fix/a b") small
  where
    small : All (λ b. b < 256) (codes "fix/a b")
    small = (
      omega arith,
      (omega arith, (omega arith, (omega arith, (omega arith, (omega arith, (omega arith, tt)))))),
    )

compare_path :
    build_compare_path (codes "feature/foo") (codes "main")
    ≡ codes "repos/{owner}/{repo}/compare/feature%2Ffoo...main"
unfolding build_compare_path encode_path_segment is_unreserved hex_upper
compare_path = refl

rate_limit_message :
    classify_gh_error (pos 1) (codes "API rate limit exceeded") ≡ GhError.rate_limited
unfolding classify_gh_error contains starts_with
rate_limit_message = refl
