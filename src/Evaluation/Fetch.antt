-- ===== src/Evaluation/Fetch.antt =====
-- src/contexts/evaluation/infrastructure/gh.rs (run_gh, log_and_convert, fetch_prompt), gh/error.rs,
-- domain/error.rs and application/errors.rs: from the answer of `gh` to a prompt or an error. The
-- log lines that are written on the way are left out.
pub mod Arrival
use merge_ready.Prelude.{
  ℕ, zero, suc, ◌+◌, Text, codes, eqb, Bool, true, false, not, ◌&&◌, ◌||◌, Option, none, some, List,
  [], ◌∷◌, map, is_empty, if◌then◌else◌, ◌==◌, ℤ, pos, negsuc, Result, ok, err, map_err, collect,
  sort_by_key, HashMap, contains, filter,
}
use merge_ready.Evaluation.State.{
  PullRequest, Prompt, no_repository, unsupported_repository, default_branch, no_pull_request,
  pull_requests,
}
use merge_ready.Evaluation.Gh.{GhPrNode, evaluate_single_pr}

pub data GhProcessError : Type 0 where
  not_installed timeout : GhProcessError
  failed : ℤ → Text → GhProcessError
  io : Text → GhProcessError

pub data GhError : Type 0 where
  not_installed : GhError
  auth_required : Text → GhError
  no_pr rate_limited timeout not_github_repository : GhError
  api_error : Text → GhError

pub data RepositoryError : Type 0 where
  unauthenticated rate_limited unexpected : RepositoryError

unfoldable pub from_gh_error : GhError → RepositoryError
from_gh_error GhError.not_installed = unauthenticated
from_gh_error (auth_required detail) = unauthenticated
from_gh_error GhError.rate_limited = RepositoryError.rate_limited
from_gh_error no_pr = unexpected
from_gh_error not_github_repository = unexpected
from_gh_error GhError.timeout = unexpected
from_gh_error (api_error message) = unexpected

-- `exit_code == n`
abbrev pub is_code : ℤ → ℕ → Bool
is_code (pos m) n = m == n
is_code (negsuc m) n = false

unfoldable pub classify_gh_error : ℤ → Text → GhError
classify_gh_error exit_code stderr =
    if is_code exit_code 4 || is_code exit_code 1 && contains (codes "HTTP 401") stderr
    then auth_required stderr
    else if is_code exit_code 1 && contains (codes "no pull requests found") stderr
    then no_pr
    else if is_code exit_code 1 && contains (codes "rate limit") stderr
    then GhError.rate_limited
    else if is_code exit_code 1
        && (contains (codes "no git remotes found") stderr
            || contains
                (codes
                  "none of the git remotes configured for this repository point to a known GitHub host")
                stderr)
    then not_github_repository
    else api_error stderr

unfoldable pub gh_error : GhProcessError → GhError
gh_error GhProcessError.not_installed = GhError.not_installed
gh_error GhProcessError.timeout = GhError.timeout
gh_error (failed exit_code stderr) = classify_gh_error exit_code stderr
gh_error (io message) = api_error message

-- `into_token`, by the message of the token
unfoldable pub into_token : RepositoryError → Text
into_token unauthenticated = codes "authentication required"
into_token RepositoryError.rate_limited = codes "rate limited"
into_token unexpected = codes "unexpected error"

-- `Repository`, with the names that it holds of its parts
pub record Repository : Type 0 where
  pub default_branch_ref : Option Text
  pub pull_requests : List GhPrNode

abbrev pub Evaluated : Type 0
Evaluated = Result RepositoryError PullRequest

abbrev pub unwrap_or_empty : Option Text → Text
unwrap_or_empty none = []
unwrap_or_empty (some t) = t

abbrev pub is_open : GhPrNode → Bool
is_open p = eqb p.state (codes "OPEN")

abbrev pub number : GhPrNode → ℕ
number p = p.number

abbrev pub index : ℕ × Evaluated → ℕ
index (idx, r) = idx

abbrev pub outcome : ℕ × Evaluated → Evaluated
outcome (idx, r) = r

-- The tasks, by their index: `enumerate`, and the result of each.
unfoldable pub evaluate_all : (Text → Text → Option ℕ) → ℕ → List GhPrNode → List (ℕ × Evaluated)
evaluate_all fetch_behind_by idx [] = []
evaluate_all fetch_behind_by idx (p ∷ rest) =
    (idx, ok (evaluate_single_pr fetch_behind_by p)) ∷ evaluate_all fetch_behind_by (suc idx) rest

abbrev pub prompt_of : Result RepositoryError (List PullRequest) → Result RepositoryError Prompt
prompt_of (ok prs) = ok (pull_requests prs)
prompt_of (err e) = err e

-- What the tasks do with the outside: the compare calls, and the order in which a set of tasks
-- comes to its end (`JoinSet::join_next`).
pub record Tasks : Type 0 where
  pub fetch_behind_by : Text → Text → Option ℕ
  pub arrive : List (ℕ × Evaluated) → List (ℕ × Evaluated)

unfoldable pub join_all : Tasks → List GhPrNode → Result RepositoryError Prompt
join_all tasks open_prs = prompt_of (
    collect (
      map outcome
        (sort_by_key index (tasks.arrive (evaluate_all tasks.fetch_behind_by 0 open_prs)))))

unfoldable pub prompt_of_open : Tasks → List GhPrNode → Result RepositoryError Prompt
prompt_of_open tasks [] = ok (pull_requests [])
prompt_of_open tasks (p ∷ rest) = join_all tasks (p ∷ rest)

unfoldable pub prompt_of_all :
    Tasks → Text → Option Text → List GhPrNode → Result RepositoryError Prompt
prompt_of_all tasks branch default_ref [] = ok (
    if not (is_empty branch) && eqb branch (unwrap_or_empty default_ref)
    then default_branch
    else no_pull_request)
prompt_of_all tasks branch default_ref (p ∷ rest) =
    prompt_of_open tasks (sort_by_key number (filter is_open (p ∷ rest)))

-- The arms on the answer of `fetch_repository`.
unfoldable pub prompt_of_answer :
    Tasks → Text → Result GhError (Option Repository) → Result RepositoryError Prompt
prompt_of_answer tasks branch (ok none) = ok unsupported_repository
prompt_of_answer tasks branch (ok (some repo)) =
    prompt_of_all tasks branch repo.default_branch_ref repo.pull_requests
prompt_of_answer tasks branch (err not_github_repository) = ok unsupported_repository
prompt_of_answer tasks branch (err no_pr) = ok no_pull_request
prompt_of_answer tasks branch (err e) = err (from_gh_error e)

-- `fetch_prompt`, with what `is_git_repo`, `current_branch` and the GraphQL request answer.
unfoldable pub fetch_prompt :
    Tasks
    → Bool
    → Option Text
    → (Text → Result GhError (Option Repository))
    → Result RepositoryError Prompt
fetch_prompt tasks is_git_repo current_branch fetch_repository =
    if not is_git_repo
    then ok no_repository
    else prompt_of_answer tasks (unwrap_or_empty current_branch)
        (fetch_repository (unwrap_or_empty current_branch))
